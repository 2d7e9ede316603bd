-- ===== src/Keyboard/Scan/Missing.antt =====
-- Keys that no scan code stands for.
use nre.Base.{
  ℕ, ◌≡◌, ◌≢◌, refl, ap, arith, ◌%◌, Bool, true, false, ◌&&◌, ◌||◌, not, Option, none, some, List,
  [], ◌∷◌, ◌==◌, if◌then◌else◌, failures, no_failure,
}
use nre.Keyboard.Keys.{Key, vk_lalt, vk_kpsub}
use nre.Keyboard.Scancodes.{ScanCodeEntry, lookup, scset2, sc1_to_sc2}
use nre.Keyboard.Scan.{
  KeyFlags, Input, Step, Packet, read_key, handle_scancode, handle_set2, handle_key, handle_code,
  finish, dropped, keycode_of, is_shift, is_num, modify, keep_num,
}

-- Whether a key is not one of the two.
abbrev usual : Option Key → Bool
usual (some vk_lalt) = false
usual (some vk_kpsub) = false
usual _ = true

abbrev usual_entry : ScanCodeEntry → Bool
usual_entry e = usual e.def && usual e.ext0 && usual e.ext1

table_usual : failures 144 (λ i. usual_entry (lookup scset2 i)) ≡ 0
unfolding lookup
table_usual = refl

entry_usual : (key : ℕ) → usual_entry (lookup scset2 (key % 0x90)) ≡ true
entry_usual key =
    no_failure 144 (λ i. usual_entry (lookup scset2 i)) table_usual (key % 0x90) (omega arith)

and_both : (p q : Bool) → (p && q) ≡ true → (p ≡ true) × (q ≡ true)
and_both true q h = (refl, h)
and_both false q h = absurd (ground (arith, h))

if_usual :
    (b : Bool) (x y : Option Key)
    → usual x ≡ true
    → usual y ≡ true
    → usual (if b then x else y) ≡ true
if_usual true x y hx hy = hx
if_usual false x y hx hy = hy

keycode_of-usual :
    (f : KeyFlags) (e : ScanCodeEntry) → usual_entry e ≡ true → usual (keycode_of f e) ≡ true
unfolding keycode_of
keycode_of-usual f e h =
    let both = and_both (usual e.def && usual e.ext0) (usual e.ext1) h in
    let first = and_both (usual e.def) (usual e.ext0) both.0 in
    if_usual f.extend1 e.ext1 _ both.1 (if_usual f.extend0 e.ext0 e.def first.1 first.0)

code_usual : (f : KeyFlags) (key : ℕ) → usual (keycode_of f (lookup scset2 (key % 0x90))) ≡ true
code_usual f key = keycode_of-usual f (lookup scset2 (key % 0x90)) (entry_usual key)

-- The packet that a step leaves has a usual key and no flag of the left alt key, and no more has the
-- state.
abbrev pub NoAlt : KeyFlags → Type 0
NoAlt f = f.lalt ≡ false

abbrev pub Usual : Option Packet → Type 0
Usual none = Unit
Usual (some p) = (p.keycode ≢ some vk_lalt) × (p.keycode ≢ some vk_kpsub) × (p.flags.lalt ≡ false)

modify-NoAlt :
    (k : Key) (on : Bool) (f : KeyFlags) → usual (some k) ≡ true → NoAlt f → NoAlt (modify k on f)
unfolding modify
modify-NoAlt k on f hk hf = ground (arith, hk)

abbrev pub Fine : Step → Type 0
Fine s = NoAlt s.flags × Usual s.packet

finish-Fine :
    (f : KeyFlags) (key : ℕ) (code : Option Key) (light : Option Bool)
    → usual code ≡ true
    → NoAlt f
    → Fine (finish f key code light)
unfolding finish
finish-Fine f key none light hc hf =
    (hf, ((λ e. ground (arith, ap usual e)), (λ e. ground (arith, ap usual e)), hf))
finish-Fine f key (some k) light hc hf =
    let kept = modify-NoAlt k (not f.release) f hc hf in
    (kept, ((λ e. ground (arith, hc, ap usual e)), (λ e. ground (arith, hc, ap usual e)), kept))

if-Fine : (b : Bool) (s t : Step) → Fine s → Fine t → Fine (if b then s else t)
if-Fine true s t hs ht = hs
if-Fine false s t hs ht = ht

if-NoAlt : (b : Bool) (f g : KeyFlags) → NoAlt f → NoAlt g → NoAlt (if b then f else g)
if-NoAlt true f g hf hg = hf
if-NoAlt false f g hf hg = hg

handle_key-Fine : (f : KeyFlags) (key : ℕ) → NoAlt f → Fine (handle_key f key)
unfolding handle_key handle_code
handle_key-Fine f key hf =
    let code = keycode_of f (lookup scset2 (key % 0x90)) in
    let toggles = is_num code && not (f.extend1 || f.release) in
    let f' = if toggles then record f { num = not f.num } else f in
    let light : Option Bool = if toggles then some (not f.num) else none in
    let kept : NoAlt f' = if-NoAlt toggles _ f hf hf in
    if-Fine (is_shift code && f.extend0) _ _ (hf, tt)
      (if-Fine (dropped f' key) _ _ (kept, tt)
        (finish-Fine f' key code light (code_usual f key) kept))

handle_set2-Fine : (f : KeyFlags) (key : ℕ) → NoAlt f → Fine (handle_set2 f key)
unfolding handle_set2 keep_num
handle_set2-Fine f key hf =
    if-Fine (key == 0x00) _ _ (refl, tt)
      (if-Fine (key == 0xe0) _ _ (hf, tt)
        (if-Fine (key == 0xe1) _ _ (hf, tt)
          (if-Fine (key == 0xf0) _ _ (hf, tt) (handle_key-Fine f key hf))))

handle_scancode-Fine :
    (scset1 : Bool) (f : KeyFlags) (key : ℕ) → NoAlt f → Fine (handle_scancode scset1 f key)
unfolding handle_scancode
handle_scancode-Fine false f key hf = handle_set2-Fine f key hf
handle_scancode-Fine true f key hf = handle_set2-Fine _ (sc1_to_sc2 key) (if-NoAlt _ _ f hf hf)

-- One step and the rest of the input together.
step-Usual :
    (o p : Option Packet) (g h : KeyFlags) (l l' : List Bool) (rest rest' : List Input)
    → NoAlt g × Usual o
    → NoAlt h × Usual p
    → let out : KeyFlags × Option Packet × List Bool × List Input = elim o [
      | none ↦ (h, p, l, rest)
      | some q ↦ (g, some q, l', rest')
    ] in
      NoAlt out.0 × Usual out.1
step-Usual none p g h l l' rest rest' hg hh = hh
step-Usual (some q) p g h l l' rest rest' hg hh = hg

-- Whatever bytes come, in either scan code set, while the flag of the left alt key is not set: it is
-- not set afterwards nor in the packet, and the packet's key is neither the left alt key nor the
-- minus of the number pad.
pub read_key-Usual :
    (scset1 : Bool) (f : KeyFlags) (input : List Input)
    → NoAlt f
    → NoAlt (read_key scset1 f input).0 × Usual (read_key scset1 f input).1
unfolding read_key
read_key-Usual scset1 f [] hf = (hf, tt)
read_key-Usual scset1 f ((true, sc) ∷ input) hf = (hf, tt)
read_key-Usual scset1 f ((false, sc) ∷ input) hf =
    let fine = handle_scancode-Fine scset1 f sc hf in
    let s = handle_scancode scset1 f sc in
    let later = read_key-Usual scset1 s.flags input fine.0 in
    step-Usual s.packet _ s.flags _ _ _ _ _ fine later
