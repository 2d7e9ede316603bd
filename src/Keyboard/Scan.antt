-- ===== src/Keyboard/Scan.antt =====
-- `HostKeyboard::handle_scancode` and the keyboard's `read`. The flags are a record of Booleans, one
-- for each bit of `_flags`. A packet is what the function leaves in `data` where it returns true.
pub mod Modifiers
pub mod Missing
pub mod Pause
pub mod Codes
use nre.Base.{
  ℕ, suc, ◌+◌, ◌%◌, Bool, true, false, ◌&&◌, ◌||◌, not, Option, none, some, List, [], ◌∷◌, ◌==◌,
  leb, if◌then◌else◌,
}
use nre.Keyboard.Keys.{
  Key, vk_lalt, vk_ralt, vk_lshift, vk_rshift, vk_lctrl, vk_rctrl, vk_lwin, vk_rwin, vk_num,
}
use nre.Keyboard.Scancodes.{ScanCodeEntry, scset2, lookup, sc1_to_sc2}

pub record KeyFlags : Type 0 where
  pub release : Bool
  pub extend0 : Bool
  pub extend1 : Bool
  pub num : Bool
  pub lshift : Bool
  pub rshift : Bool
  pub lalt : Bool
  pub ralt : Bool
  pub lctrl : Bool
  pub rctrl : Bool
  pub lwin : Bool
  pub rwin : Bool

-- `_flags &= Keyboard::NUM`
pub keep_num : KeyFlags → KeyFlags
keep_num f = record {
  release = false;
  extend0 = false;
  extend1 = false;
  num = f.num;
  lshift = false;
  rshift = false;
  lalt = false;
  ralt = false;
  lctrl = false;
  rctrl = false;
  lwin = false;
  rwin = false;
}

pub record Packet : Type 0 where
  pub scancode : ℕ
  pub keycode : Option Key
  pub flags : KeyFlags

-- The flag of a modifier key, set or cleared.
pub modify : Key → Bool → KeyFlags → KeyFlags
modify vk_lalt on f = record f { lalt = on }
modify vk_ralt on f = record f { ralt = on }
modify vk_lshift on f = record f { lshift = on }
modify vk_rshift on f = record f { rshift = on }
modify vk_lctrl on f = record f { lctrl = on }
modify vk_rctrl on f = record f { rctrl = on }
modify vk_lwin on f = record f { lwin = on }
modify vk_rwin on f = record f { rwin = on }
modify _ on f = f

pub is_shift : Option Key → Bool
is_shift (some vk_lshift) = true
is_shift (some vk_rshift) = true
is_shift _ = false

pub is_num : Option Key → Bool
is_num (some vk_num) = true
is_num _ = false

-- The flags, the packet if one is complete, and the state of the light if it is to be set.
pub record Step : Type 0 where
  pub flags : KeyFlags
  pub packet : Option Packet
  pub light : Option Bool

abbrev pub quiet : KeyFlags → Step
quiet f = record { flags = f; packet = none; light = none }

-- The end of the function: the modifier of the key, the packet, and the bits that do not last.
pub finish : KeyFlags → ℕ → Option Key → Option Bool → Step
unfolding modify
finish f key code light =
    let f' : KeyFlags = elim code [ none ↦ f | some k ↦ modify k (not f.release) f ] in
    record {
      flags = record f' { release = false; extend0 = false; extend1 = false };
      packet = some (record { scancode = key; keycode = code; flags = f' });
      light = light;
    }

-- The keys of the break and pause sequences that are dropped.
pub dropped : KeyFlags → ℕ → Bool
dropped f key =
    (f.extend0 && not f.release && key == 0x7e)
    || (f.extend1 && (key == 0x14 || (key == 0x77 && not f.release)))

pub keycode_of : KeyFlags → ScanCodeEntry → Option Key
keycode_of f e = if f.extend1 then e.ext1 else if f.extend0 then e.ext0 else e.def

-- A key, with the code that the table has for it.
pub handle_code : KeyFlags → ℕ → Option Key → Step
unfolding is_shift is_num finish dropped
handle_code f key code =
    let toggles = is_num code && not (f.extend1 || f.release) in
    let f' = if toggles then record f { num = not f.num } else f in
    let light : Option Bool = if toggles then some (not f.num) else none in
    if is_shift code && f.extend0
    then quiet (record f { extend0 = false; release = false })
    else if dropped f' key
    then record { flags = f'; packet = none; light = light }
    else finish f' key code light

-- A byte of scan code set 2 that is a key.
pub handle_key : KeyFlags → ℕ → Step
unfolding lookup keycode_of handle_code
handle_key f key = handle_code f key (keycode_of f (lookup scset2 (key % 0x90)))

pub handle_set2 : KeyFlags → ℕ → Step
unfolding keep_num handle_key
handle_set2 f key =
    if key == 0x00
    then quiet (keep_num f)
    else if key == 0xe0
    then quiet (record f { extend0 = true })
    else if key == 0xe1
    then quiet (record f { extend1 = true })
    else if key == 0xf0
    then quiet (record f { release = true })
    else handle_key f key

pub handle_scancode : Bool → KeyFlags → ℕ → Step
unfolding handle_set2 sc1_to_sc2
handle_scancode scset1 f key =
    let released = leb 0x80 key && not (key == 0xe0) && not (key == 0xe1) in
    let f' = if released then record f { release = true } else f in
    if scset1 then handle_set2 f' (sc1_to_sc2 key) else handle_set2 f key

-- A byte of the device, and whether it is the mouse's.
abbrev pub Input : Type 0
Input = Bool × ℕ

-- `read`: the new flags, the packet, the lights set on the way, and the input left.
pub read_key : Bool → KeyFlags → List Input → KeyFlags × Option Packet × List Bool × List Input
unfolding handle_scancode
read_key scset1 f [] = (f, none, [], [])
read_key scset1 f ((from_mouse, sc) ∷ input) =
    let s = handle_scancode scset1 f sc in
    let (f', p, lights, rest) = read_key scset1 s.flags input in
    let lights' : List Bool = elim s.light [ none ↦ lights | some l ↦ l ∷ lights ] in
    let now : List Bool = elim s.light [ none ↦ [] | some l ↦ l ∷ [] ] in
    if from_mouse
    then (f, none, [], (from_mouse, sc) ∷ input)
    else elim s.packet [ none ↦ (f', p, lights', rest) | some p' ↦ (s.flags, some p', now, input) ]
