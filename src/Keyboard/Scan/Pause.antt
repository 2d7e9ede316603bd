-- ===== src/Keyboard/Scan/Pause.antt =====
-- The pause key.
use nre.Base.{◌≡◌, refl, true, false, none, some, List, [], ◌∷◌, ◌++◌}
use nre.Keyboard.Keys.{vk_pause}
use nre.Keyboard.Scancodes.{lookup}
use nre.Keyboard.Scan.{
  KeyFlags, Input, read_key, handle_scancode, handle_set2, handle_key, handle_code, finish, dropped,
  keycode_of, is_shift, is_num, modify, keep_num,
}

-- What the pause key sends in scan code set 2, all at once.
abbrev pub pause : List Input
pause =
    (false, 0xe1)
    ∷ (false, 0x14)
    ∷ (false, 0x77)
    ∷ (false, 0xe1)
    ∷ (false, 0xf0)
    ∷ (false, 0x14)
    ∷ (false, 0xf0)
    ∷ (false, 0x77)
    ∷ []

-- The flags between two keys.
abbrev pub between : KeyFlags → KeyFlags
between f = record f { release = false; extend0 = false; extend1 = false }

-- What the pause key sends together with a control key.
abbrev pub control_break : List Input
control_break = (false, 0xe0) ∷ (false, 0x7e) ∷ (false, 0xe0) ∷ (false, 0xf0) ∷ (false, 0x7e) ∷ []

-- Between two keys, the eight bytes of the pause key give one packet, the pause key's, and the five
-- bytes that it sends with a control key give one packet that has no key. The modifiers and NUM
-- stay, no light is set, and the input behind is left.
pub read_key-pause :
    (f : KeyFlags) (rest : List Input)
    → (read_key false (between f) (pause ++ rest) ≡ (
      between f,
      some (record {
        scancode = 0x77;
        keycode = some vk_pause;
        flags = record (between f) { release = true; extend1 = true };
      }),
      [],
      rest,
    ))
      × (read_key false (between f) (control_break ++ rest) ≡ (
        between f,
        some (record {
          scancode = 0x7e;
          keycode = none;
          flags = record (between f) { release = true; extend0 = true };
        }),
        [],
        rest,
      ))
unfolding read_key handle_scancode handle_set2 handle_key handle_code finish dropped keycode_of
    is_shift is_num modify keep_num lookup
read_key-pause f rest = (refl, refl)
