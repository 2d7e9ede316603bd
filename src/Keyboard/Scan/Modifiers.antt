-- ===== src/Keyboard/Scan/Modifiers.antt =====
-- A key that is pressed and released, in scan code set 2.
use nre.Base.{
  ℕ, ◌≡◌, ◌≢◌, refl, sym, ap, ◌∙◌, arith, ◌%◌, Bool, true, false, ◌&&◌, not, Option, none, some,
  List, [], ◌∷◌, if◌then◌else◌,
}
use nre.Keyboard.Keys.{Key}
use nre.Keyboard.Scancodes.{lookup, scset2}
use nre.Keyboard.Scan.{
  KeyFlags, Input, Step, Packet, read_key, handle_scancode, handle_set2, handle_key, handle_code,
  finish, dropped, keycode_of, is_shift, is_num, modify,
}
use nre.Keyboard.Scan.Pause.{between}

-- A byte that is a key, not a prefix.
abbrev pub IsKey : ℕ → Type 0
IsKey key = (key ≢ 0x00) × (key ≢ 0xe0) × (key ≢ 0xe1) × (key ≢ 0xf0)

-- The flags after a key without a prefix went down or up.
unfoldable pub held : Option Key → Bool → KeyFlags → KeyFlags
held none on f = f
held (some k) on f = modify k on f

abbrev pub toggled : Option Key → KeyFlags → KeyFlags
toggled code f = if is_num code then record f { num = not f.num } else f

-- The flags without a prefix, after a release byte or not, with NUM changed or not.
abbrev plain : Bool → KeyFlags → KeyFlags
plain r f = record f { release = r; extend0 = false; extend1 = false }

abbrev switched : Bool → KeyFlags → KeyFlags
switched t f = if t then record f { num = not f.num } else f

plain-modify :
    (r : Bool) (k : Key) (on : Bool) (f : KeyFlags)
    → plain r (modify k on f) ≡ modify k on (plain r f)
unfolding modify
plain-modify r k on f = ground arith

plain-held :
    (r : Bool) (code : Option Key) (on : Bool) (f : KeyFlags)
    → plain r (held code on f) ≡ held code on (plain r f)
unfolding held
plain-held r none on f = refl
plain-held r (some k) on f = plain-modify r k on f

-- The end of the function for a key without a prefix.
finish-held :
    (f : KeyFlags) (key : ℕ) (code : Option Key) (light : Option Bool)
    → finish f key code light ≡ record {
      flags = held code (not f.release) (plain false f);
      packet =
          some (record { scancode = key; keycode = code; flags = held code (not f.release) f });
      light = light;
    }
unfolding finish held
finish-held f key none light = refl
finish-held f key (some k) light = rw (plain-modify false k (not f.release) f) refl

handle_set2-key : (f : KeyFlags) (key : ℕ) → IsKey key → handle_set2 f key ≡ handle_key f key
unfolding handle_set2
handle_set2-key f key h = ground arith

and_false : (b : Bool) → (b && false) ≡ false
and_false true = refl
and_false false = refl

dropped_lem : (t r : Bool) (f : KeyFlags) (key : ℕ) → dropped (switched t (plain r f)) key ≡ false
unfolding dropped
dropped_lem true r f key = refl
dropped_lem false r f key = refl

handle_code_lem :
    (r : Bool) (f : KeyFlags) (key : ℕ) (code : Option Key)
    → let t = is_num code && not r in
      handle_code (plain r f) key code
      ≡ finish (switched t (plain r f)) key code (if t then some (not f.num) else none)
unfolding handle_code
handle_code_lem r f key code =
    rw (and_false (is_shift code), dropped_lem (is_num code && not r) r f key) refl

abbrev outcome : Bool → Bool → KeyFlags → ℕ → Option Key → Step
outcome t r f key code = record {
  flags = held code (not r) (switched t (plain false f));
  packet = some (record {
    scancode = key;
    keycode = code;
    flags = held code (not r) (switched t (plain r f));
  });
  light = if t then some (not f.num) else none;
}

finish-outcome :
    (t r : Bool) (f : KeyFlags) (key : ℕ) (code : Option Key)
    → finish (switched t (plain r f)) key code (if t then some (not f.num) else none)
      ≡ outcome t r f key code
finish-outcome true r f key code = finish-held _ key code _
finish-outcome false r f key code = finish-held _ key code _

handle_scancode-outcome :
    (r : Bool) (f : KeyFlags) (key : ℕ)
    → IsKey key
    → let code = (lookup scset2 (key % 0x90)).def in
      handle_scancode false (plain r f) key ≡ outcome (is_num code && not r) r f key code
unfolding handle_scancode handle_key keycode_of
handle_scancode-outcome r f key h =
    handle_set2-key (plain r f) key h ∙ handle_code_lem r f key _ ∙ finish-outcome _ r f key _

held-held :
    (code : Option Key) (f : KeyFlags) → held code false (held code true f) ≡ held code false f
unfolding held modify
held-held none f = refl
held-held (some k) f = ground arith

-- `read` after a step that leaves a packet.
read_key-packet :
    (f g : KeyFlags) (sc : ℕ) (p : Packet) (light : Option Bool) (rest : List Input)
    → handle_scancode false f sc ≡ record { flags = g; packet = some p; light = light }
    → read_key false f ((false, sc) ∷ rest)
      ≡ (g, some p, elim light [ none ↦ [] | some l ↦ l ∷ [] ], rest)
unfolding read_key
read_key-packet f g sc p light rest e = ap (λ (s : Step). continued s) e
  where
    continued : Step → KeyFlags × Option Packet × List Bool × List Input
    continued s =
        let (f', p, lights, left) = read_key false s.flags rest in
        elim s.packet [
          | none ↦ (f', p, elim s.light [ none ↦ lights | some l ↦ l ∷ lights ], left)
          | some q ↦ (s.flags, some q, elim s.light [ none ↦ [] | some l ↦ l ∷ [] ], rest)
        ]

and_true : (b : Bool) → (b && true) ≡ b
and_true true = refl
and_true false = refl

-- What `read` returns for a key that goes down or up.
abbrev result :
    Bool
    → Bool
    → KeyFlags
    → ℕ
    → Option Key
    → List Input
    → KeyFlags × Option Packet × List Bool × List Input
result t r f key code rest = (
  held code (not r) (switched t (plain false f)),
  some (record {
    scancode = key;
    keycode = code;
    flags = held code (not r) (switched t (plain r f));
  }),
  (if t then not f.num ∷ [] else []),
  rest,
)

read_key-result :
    (t r : Bool) (f : KeyFlags) (key : ℕ) (code : Option Key) (rest : List Input)
    → handle_scancode false (plain r f) key ≡ outcome t r f key code
    → read_key false (plain r f) ((false, key) ∷ rest) ≡ result t r f key code rest
read_key-result true r f key code rest e = read_key-packet _ _ key _ _ rest e
read_key-result false r f key code rest e = read_key-packet _ _ key _ _ rest e

read_key-press :
    (f : KeyFlags) (key : ℕ) (rest : List Input)
    → IsKey key
    → let code = (lookup scset2 (key % 0x90)).def in
      read_key false (between f) ((false, key) ∷ rest) ≡ result (is_num code) false f key code rest
read_key-press f key rest h =
    let code = (lookup scset2 (key % 0x90)).def in
    read_key-result (is_num code) false f key code rest (
      handle_scancode-outcome false f key h
      ∙ ap (λ (t : Bool). outcome t false f key code) (and_true (is_num code)))

read_key-release :
    (f : KeyFlags) (key : ℕ) (rest : List Input)
    → IsKey key
    → let code = (lookup scset2 (key % 0x90)).def in
      read_key false (between f) ((false, 0xf0) ∷ (false, key) ∷ rest)
      ≡ result false true f key code rest
unfolding read_key handle_scancode handle_set2
read_key-release f key rest h =
    let code = (lookup scset2 (key % 0x90)).def in
    read_key-result false true f key code rest (
      handle_scancode-outcome true f key h
      ∙ ap (λ (t : Bool). outcome t true f key code) (and_false (is_num code)))

held-again :
    (r : Bool) (code : Option Key) (f : KeyFlags)
    → held code false (plain r (held code true f)) ≡ held code false (plain r f)
held-again r code f =
    ap (λ (g : KeyFlags). held code false g) (plain-held r code true f) ∙ held-held code (plain r f)

result-again :
    (f : KeyFlags) (key : ℕ) (code : Option Key) (rest : List Input)
    → result false true (held code true f) key code rest ≡ result false true f key code rest
result-again f key code rest = rw (held-again false code f, held-again true code f) refl

steady :
    (t : Bool) (code : Option Key) (f : KeyFlags)
    → held code true (switched t (between f)) ≡ between (held code true (switched t (between f)))
steady true code f = sym (plain-held false code true (switched true (between f)))
steady false code f = sym (plain-held false code true (between f))

result-steady :
    (t : Bool) (f : KeyFlags) (key : ℕ) (code : Option Key) (rest : List Input)
    → let start = switched t (between f) in
      result false true start key code rest ≡ (
        held code false start,
        some (record {
          scancode = key;
          keycode = code;
          flags = held code false (record start { release = true });
        }),
        [],
        rest,
      )
result-steady true f key code rest = refl
result-steady false f key code rest = refl

-- The release of a key whose flag is set.
read_key-held :
    (t : Bool) (f : KeyFlags) (key : ℕ) (rest : List Input)
    → IsKey key
    → let code = (lookup scset2 (key % 0x90)).def in
      let start = switched t (between f) in
      read_key false (held code true start) ((false, 0xf0) ∷ (false, key) ∷ rest)
      ≡ result false true start key code rest
read_key-held t f key rest h =
    let code = (lookup scset2 (key % 0x90)).def in
    let start = switched t (between f) in
    ap (λ (g : KeyFlags). read_key false g ((false, 0xf0) ∷ (false, key) ∷ rest)) (steady t code f)
    ∙ read_key-release (held code true start) key rest h
    ∙ result-again start key code rest

-- A key without a prefix that is pressed, between two keys: `read` returns a packet with its code,
-- in which the flag of the key is set, and NUM is changed if it is the NUM key; only then the light
-- is set. When it is released, the packet has the same code, the flag of the key is cleared, and no
-- light is set. Afterwards the flags are those from before the key went down, with the key's own
-- flag cleared and NUM as it was left.
pub read_key-key :
    (f : KeyFlags) (key : ℕ) (rest : List Input)
    → IsKey key
    → let code = (lookup scset2 (key % 0x90)).def in
      let start = toggled code (between f) in
      let down = held code true start in
      (read_key false (between f) ((false, key) ∷ rest) ≡ (
        down,
        some (record { scancode = key; keycode = code; flags = down }),
        (if is_num code then not f.num ∷ [] else []),
        rest,
      ))
      × (read_key false down ((false, 0xf0) ∷ (false, key) ∷ rest) ≡ (
        held code false start,
        some (record {
          scancode = key;
          keycode = code;
          flags = held code false (record start { release = true });
        }),
        [],
        rest,
      ))
read_key-key f key rest h =
    let code = (lookup scset2 (key % 0x90)).def in
    (
      read_key-press f key rest h,
      read_key-held (is_num code) f key rest h ∙ result-steady (is_num code) f key code rest,
    )
