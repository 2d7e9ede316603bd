-- ===== src/Keyboard/Tests.antt =====
-- A key at concrete values.
use nre.Base.{◌≡◌, arith, true, false, some, [], ◌∷◌}
use nre.Keyboard.Scancodes.{lookup, scset2}
use nre.Keyboard.Scan.{KeyFlags, read_key}
use nre.Keyboard.Scan.Codes.{read_key-shifts}

abbrev no_keys : KeyFlags
no_keys = record {
  release = false;
  extend0 = false;
  extend1 = false;
  num = false;
  lshift = false;
  rshift = false;
  lalt = false;
  ralt = false;
  lctrl = false;
  rctrl = false;
  lwin = false;
  rwin = false;
}

abbrev left_shift : KeyFlags
left_shift = record no_keys { lshift = true }

-- Left shift, with another byte behind it.
read_key-shifts_example :
    (read_key false no_keys ((false, 0x12) ∷ (false, 0x1c) ∷ []) ≡ (
      left_shift,
      some (record { scancode = 0x12; keycode = (lookup scset2 0x12).def; flags = left_shift }),
      [],
      (false, 0x1c) ∷ [],
    ))
    × (read_key false left_shift ((false, 0xf0) ∷ (false, 0x12) ∷ (false, 0x1c) ∷ []) ≡ (
      no_keys,
      some (record {
        scancode = 0x12;
        keycode = (lookup scset2 0x12).def;
        flags = record no_keys { release = true };
      }),
      [],
      (false, 0x1c) ∷ [],
    ))
read_key-shifts_example = read_key-shifts no_keys 0x12 ((false, 0x1c) ∷ []) (
  (λ e. omega (arith, e)),
  (λ e. omega (arith, e)),
  (λ e. omega (arith, e)),
  (λ e. omega (arith, e)),
)
