-- ===== src/Keyboard/Scan/Codes.antt =====
-- The modifier keys and NUM, by their bytes in scan code set 2.
use nre.Base.{
  ℕ, ◌≡◌, refl, ap, ◌∙◌, arith, ◌%◌, Bool, true, false, not, Option, none, some, List, [], ◌∷◌,
  ◌==◌, if◌then◌else◌, failures, no_failure, sym,
}
use nre.Keyboard.Keys.{
  Key, vk_lalt, vk_ralt, vk_lshift, vk_rshift, vk_lctrl, vk_rctrl, vk_lwin, vk_rwin, vk_num,
}
use nre.Keyboard.Scancodes.{lookup, scset2}
use nre.Keyboard.Scan.{KeyFlags, Input, read_key, is_num, modify}
use nre.Keyboard.Scan.Modifiers.{IsKey, held, toggled, read_key-key}
use nre.Keyboard.Scan.Pause.{between}

-- The byte that stands for a key's effect on the flags; 0 for those that have none.
byte_of : Option Key → ℕ
byte_of (some vk_lalt) = 1
byte_of (some vk_lshift) = 0x12
byte_of (some vk_lctrl) = 0x14
byte_of (some vk_rshift) = 0x59
byte_of (some vk_num) = 0x77
byte_of (some vk_ralt) = 1
byte_of (some vk_rctrl) = 1
byte_of (some vk_lwin) = 1
byte_of (some vk_rwin) = 1
byte_of _ = 0

-- The bytes of the keys that change a flag when they come without a prefix.
usual : ℕ → ℕ
usual k =
    if k == 0x12
    then 0x12
    else if k == 0x14
    then 0x14
    else if k == 0x59
    then 0x59
    else if k == 0x77
    then 0x77
    else 0

table_bytes : failures 144 (λ i. byte_of (lookup scset2 i).def == usual i) ≡ 0
unfolding lookup byte_of usual
table_bytes = refl

byte_lem : (key : ℕ) → byte_of (lookup scset2 (key % 0x90)).def ≡ usual (key % 0x90)
byte_lem key =
    let same : (byte_of (lookup scset2 (key % 0x90)).def == usual (key % 0x90)) ≡ true =
      no_failure 144 (λ i. byte_of (lookup scset2 i).def == usual i) table_bytes (key % 0x90)
        (omega arith) in
    ground (arith, same)

-- The shift and control keys as they stand in scan code set 2.
abbrev pub shifts : ℕ → Bool → KeyFlags → KeyFlags
shifts k on f = record f {
  lshift = if k == 0x12 then on else f.lshift;
  rshift = if k == 0x59 then on else f.rshift;
  lctrl = if k == 0x14 then on else f.lctrl;
}

-- The flags that a key without a prefix leaves, where it goes down or up.
held_lem :
    (code : Option Key) (on : Bool) (f : KeyFlags) (k : ℕ)
    → byte_of code ≡ usual k
    → held code on f ≡ shifts k on f
unfolding held modify byte_of usual
held_lem none on f k h = ground (arith, h)
held_lem (some key) on f k h = ground (arith, h)

is_num_lem : (code : Option Key) → is_num code ≡ (byte_of code == 0x77)
unfolding is_num byte_of
is_num_lem none = refl
is_num_lem (some key) = ground arith

-- NUM as the byte 0x77 changes it.
abbrev pub with_num : ℕ → KeyFlags → KeyFlags
with_num k f = record f { num = if k == 0x77 then not f.num else f.num }

toggled_lem :
    (code : Option Key) (f : KeyFlags) (k : ℕ)
    → byte_of code ≡ usual k
    → toggled code f ≡ with_num k f
unfolding usual
toggled_lem code f k h =
    let num : is_num code ≡ (k == 0x77) = ground (arith, is_num_lem code, h) in
    rw num (ground arith)

light_lem : (code : Option Key) (k : ℕ) → byte_of code ≡ usual k → is_num code ≡ (k == 0x77)
unfolding usual
light_lem code k h = ground (arith, is_num_lem code, h)

-- A byte of scan code set 2 that is a key without a prefix, between two keys, whose place in the table
-- is `k`. When the key goes down, `read` returns a packet with the table's code for it; left shift,
-- right shift and left control are set exactly by 0x12, 0x59 and 0x14, NUM is changed by 0x77
-- only, which also sets the light, and no other flag changes. When the key goes up, the packet has the same code, exactly the
-- flag of this key is cleared, and no light is set. The input behind is left.
pub read_key-shifts :
    (f : KeyFlags) (key : ℕ) (rest : List Input)
    → IsKey key
    → let k = key % 0x90 in
      let code = (lookup scset2 k).def in
      let start = with_num k (between f) in
      let down = shifts k true start in
      let up = shifts k false start in
      (read_key false (between f) ((false, key) ∷ rest) ≡ (
        down,
        some (record { scancode = key; keycode = code; flags = down }),
        (if k == 0x77 then not f.num ∷ [] else []),
        rest,
      ))
      × (read_key false down ((false, 0xf0) ∷ (false, key) ∷ rest) ≡ (
        up,
        some (record { scancode = key; keycode = code; flags = record up { release = true } }),
        [],
        rest,
      ))
read_key-shifts f key rest h =
    let k = key % 0x90 in
    let code = (lookup scset2 k).def in
    let known = byte_lem key in
    let begin = toggled_lem code (between f) k known in
    let down =
      held_lem code true (toggled code (between f)) k known
      ∙ ap (λ (g : KeyFlags). shifts k true g) begin in
    let up =
      held_lem code false (toggled code (between f)) k known
      ∙ ap (λ (g : KeyFlags). shifts k false g) begin in
    let up' =
      held_lem code false (record (toggled code (between f)) { release = true }) k known
      ∙ ap (λ (g : KeyFlags). shifts k false (record g { release = true })) begin in
    let (press, release) = read_key-key f key rest h in
    (
      press
          ∙ ap
              (λ (g : KeyFlags). (
                g,
                some (record { scancode = key; keycode = code; flags = g }),
                (if is_num code then not f.num ∷ [] else []),
                rest,
              ))
              down
          ∙ ap
              (λ (b : Bool). (
                shifts k true (with_num k (between f)),
                some (record {
                  scancode = key;
                  keycode = code;
                  flags = shifts k true (with_num k (between f));
                }),
                (if b then not f.num ∷ [] else []),
                rest,
              ))
              (light_lem code k known),
      ap (λ (g : KeyFlags). read_key false g ((false, 0xf0) ∷ (false, key) ∷ rest)) (sym down)
          ∙ release
          ∙ ap
              (λ (g : KeyFlags). (
                g,
                some (record {
                  scancode = key;
                  keycode = code;
                  flags = held code false (record (toggled code (between f)) { release = true });
                }),
                [],
                rest,
              ))
              up
          ∙ ap
              (λ (g : KeyFlags). (
                shifts k false (with_num k (between f)),
                some (record { scancode = key; keycode = code; flags = g }),
                [],
                rest,
              ))
              up',
    )
