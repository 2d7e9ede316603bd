-- ===== src/Keyboard/Scancodes.antt =====
-- nre/services/keyboard/HostKeyboard.cc: the tables of scan codes. A key of 0 in the source's table is
-- `none`.
use nre.Base.{ℕ, Option, none, some, List, [], ◌∷◌, ◌==◌, ◌%◌, ◌||◌, if◌then◌else◌, get_elem?}
use nre.Keyboard.Keys.{
  Key, vk_0, vk_1, vk_2, vk_3, vk_4, vk_5, vk_6, vk_7, vk_8, vk_9, vk_a, vk_accent, vk_apos, vk_b,
  vk_backslash, vk_backsp, vk_c, vk_caps, vk_comma, vk_d, vk_delete, vk_dot, vk_down, vk_e, vk_end,
  vk_enter, vk_eq, vk_esc, vk_f, vk_f1, vk_f10, vk_f11, vk_f12, vk_f2, vk_f3, vk_f4, vk_f5, vk_f6,
  vk_f7, vk_f8, vk_f9, vk_g, vk_h, vk_home, vk_i, vk_insert, vk_j, vk_k, vk_kp0, vk_kp1, vk_kp2,
  vk_kp3, vk_kp4, vk_kp5, vk_kp6, vk_kp7, vk_kp8, vk_kp9, vk_kpadd, vk_kpdiv, vk_kpdot, vk_kpenter,
  vk_kpmul, vk_l, vk_lbracket, vk_lctrl, vk_left, vk_lshift, vk_lwin, vk_m, vk_minus, vk_n, vk_num,
  vk_o, vk_p, vk_pause, vk_pgdown, vk_pgup, vk_print, vk_q, vk_r, vk_ralt, vk_rbracket, vk_rctrl,
  vk_right, vk_rshift, vk_rwin, vk_s, vk_scroll, vk_sem, vk_slash, vk_space, vk_t, vk_tab, vk_u,
  vk_up, vk_v, vk_w, vk_x, vk_y, vk_z,
}

-- The key of a scan code of set 2, alone, behind 0xe0, and behind 0xe1.
pub record ScanCodeEntry : Type 0 where
  pub def : Option Key
  pub ext0 : Option Key
  pub ext1 : Option Key

abbrev pub entry : Option Key → Option Key → Option Key → ScanCodeEntry
entry d e f = record { def = d; ext0 = e; ext1 = f }

abbrev pub scset2 : List ScanCodeEntry
scset2 =
    entry none none none
    ∷ entry (some vk_f9) none none
    ∷ entry none none none
    ∷ entry (some vk_f5) none none
    ∷ entry (some vk_f3) none none
    ∷ entry (some vk_f1) none none
    ∷ entry (some vk_f2) none none
    ∷ entry (some vk_f12) none none
    ∷ entry none none none
    ∷ entry (some vk_f10) none none
    ∷ entry (some vk_f8) none none
    ∷ entry (some vk_f6) none none
    ∷ entry (some vk_f4) none none
    ∷ entry (some vk_tab) none none
    ∷ entry (some vk_accent) none none
    ∷ entry none none none
    ∷ entry none none none
    ∷ entry none (some vk_ralt) none
    ∷ entry (some vk_lshift) none none
    ∷ entry none none none
    ∷ entry (some vk_lctrl) (some vk_rctrl) (some vk_pause)
    ∷ entry (some vk_q) none none
    ∷ entry (some vk_1) none none
    ∷ entry none none none
    ∷ entry none none none
    ∷ entry none none none
    ∷ entry (some vk_z) none none
    ∷ entry (some vk_s) none none
    ∷ entry (some vk_a) none none
    ∷ entry (some vk_w) none none
    ∷ entry (some vk_2) none none
    ∷ entry none (some vk_lwin) none
    ∷ entry none none none
    ∷ entry (some vk_c) none none
    ∷ entry (some vk_x) none none
    ∷ entry (some vk_d) none none
    ∷ entry (some vk_e) none none
    ∷ entry (some vk_4) none none
    ∷ entry (some vk_3) none none
    ∷ entry none (some vk_rwin) none
    ∷ entry none none none
    ∷ entry (some vk_space) none none
    ∷ entry (some vk_v) none none
    ∷ entry (some vk_f) none none
    ∷ entry (some vk_t) none none
    ∷ entry (some vk_r) none none
    ∷ entry (some vk_5) none none
    ∷ entry none none none
    ∷ entry none none none
    ∷ entry (some vk_n) none none
    ∷ entry (some vk_b) none none
    ∷ entry (some vk_h) none none
    ∷ entry (some vk_g) none none
    ∷ entry (some vk_y) none none
    ∷ entry (some vk_6) none none
    ∷ entry none none none
    ∷ entry none none none
    ∷ entry none none none
    ∷ entry (some vk_m) none none
    ∷ entry (some vk_j) none none
    ∷ entry (some vk_u) none none
    ∷ entry (some vk_7) none none
    ∷ entry (some vk_8) none none
    ∷ entry none none none
    ∷ entry none none none
    ∷ entry (some vk_comma) none none
    ∷ entry (some vk_k) none none
    ∷ entry (some vk_i) none none
    ∷ entry (some vk_o) none none
    ∷ entry (some vk_0) none none
    ∷ entry (some vk_9) none none
    ∷ entry none none none
    ∷ entry none none none
    ∷ entry (some vk_dot) none none
    ∷ entry (some vk_slash) (some vk_kpdiv) none
    ∷ entry (some vk_l) none none
    ∷ entry (some vk_sem) none none
    ∷ entry (some vk_p) none none
    ∷ entry (some vk_minus) none none
    ∷ entry none none none
    ∷ entry none none none
    ∷ entry none none none
    ∷ entry (some vk_apos) none none
    ∷ entry none none none
    ∷ entry (some vk_lbracket) none none
    ∷ entry (some vk_eq) none none
    ∷ entry none none none
    ∷ entry none none none
    ∷ entry (some vk_caps) none none
    ∷ entry (some vk_rshift) none none
    ∷ entry (some vk_enter) (some vk_kpenter) none
    ∷ entry (some vk_rbracket) none none
    ∷ entry none none none
    ∷ entry (some vk_backslash) none none
    ∷ entry none none none
    ∷ entry none none none
    ∷ entry none none none
    ∷ entry none none none
    ∷ entry none none none
    ∷ entry none none none
    ∷ entry none none none
    ∷ entry none none none
    ∷ entry (some vk_backsp) none none
    ∷ entry none none none
    ∷ entry none none none
    ∷ entry (some vk_kp1) (some vk_end) none
    ∷ entry none none none
    ∷ entry (some vk_kp4) (some vk_left) none
    ∷ entry (some vk_kp7) (some vk_home) none
    ∷ entry none none none
    ∷ entry none none none
    ∷ entry none none none
    ∷ entry (some vk_kp0) (some vk_insert) none
    ∷ entry (some vk_kpdot) (some vk_delete) none
    ∷ entry (some vk_kp2) (some vk_down) none
    ∷ entry (some vk_kp5) none none
    ∷ entry (some vk_kp6) (some vk_right) none
    ∷ entry (some vk_kp8) (some vk_up) none
    ∷ entry (some vk_esc) none none
    ∷ entry (some vk_num) none (some vk_pause)
    ∷ entry (some vk_f11) none none
    ∷ entry (some vk_kpadd) none none
    ∷ entry (some vk_kp3) (some vk_pgdown) none
    ∷ entry none none none
    ∷ entry (some vk_kpmul) (some vk_print) none
    ∷ entry (some vk_kp9) (some vk_pgup) none
    ∷ entry (some vk_scroll) none none
    ∷ entry none none none
    ∷ entry none none none
    ∷ entry none none none
    ∷ entry none none none
    ∷ entry (some vk_f7) none none
    ∷ entry none none none
    ∷ entry none none none
    ∷ entry none none none
    ∷ entry none none none
    ∷ entry none none none
    ∷ entry none none none
    ∷ entry none none none
    ∷ entry none none none
    ∷ entry none none none
    ∷ entry none none none
    ∷ entry none none none
    ∷ entry none none none
    ∷ []

-- `scset2 + (key % 0x90)`; all indices are in the table.
unfoldable pub lookup : List ScanCodeEntry → ℕ → ScanCodeEntry
lookup table i = elim (get_elem? table i) [ none ↦ entry none none none | some e ↦ e ]

abbrev pub sc1_map : List ℕ
sc1_map =
    0x00 ∷ 0x76 ∷ 0x16 ∷ 0x1e ∷ 0x26 ∷ 0x25 ∷ 0x2e ∷ 0x36 ∷ 0x3d ∷ 0x3e ∷ 0x46 ∷ 0x45 ∷ 0x4e ∷ 0x55
    ∷ 0x66 ∷ 0x0d ∷ 0x15 ∷ 0x1d ∷ 0x24 ∷ 0x2d ∷ 0x2c ∷ 0x35 ∷ 0x3c ∷ 0x43 ∷ 0x44 ∷ 0x4d ∷ 0x54
    ∷ 0x5b ∷ 0x5a ∷ 0x14 ∷ 0x1c ∷ 0x1b ∷ 0x23 ∷ 0x2b ∷ 0x34 ∷ 0x33 ∷ 0x3b ∷ 0x42 ∷ 0x4b ∷ 0x4c
    ∷ 0x52 ∷ 0x0e ∷ 0x12 ∷ 0x5d ∷ 0x1a ∷ 0x22 ∷ 0x21 ∷ 0x2a ∷ 0x32 ∷ 0x31 ∷ 0x3a ∷ 0x41 ∷ 0x49
    ∷ 0x4a ∷ 0x59 ∷ 0x7c ∷ 0x11 ∷ 0x29 ∷ 0x58 ∷ 0x05 ∷ 0x06 ∷ 0x04 ∷ 0x0c ∷ 0x03 ∷ 0x0b ∷ 0x83
    ∷ 0x0a ∷ 0x01 ∷ 0x09 ∷ 0x77 ∷ 0x7e ∷ 0x6c ∷ 0x75 ∷ 0x7d ∷ 0x7b ∷ 0x6b ∷ 0x73 ∷ 0x74 ∷ 0x79
    ∷ 0x69 ∷ 0x72 ∷ 0x7a ∷ 0x70 ∷ 0x71 ∷ 0x84 ∷ 0x60 ∷ 0x61 ∷ 0x78 ∷ 0x07 ∷ 0x0f ∷ 0x17 ∷ 0x1f
    ∷ 0x27 ∷ 0x2f ∷ 0x37 ∷ 0x3f ∷ 0x47 ∷ 0x4f ∷ 0x56 ∷ 0x5e ∷ 0x08 ∷ 0x10 ∷ 0x18 ∷ 0x20 ∷ 0x28
    ∷ 0x30 ∷ 0x38 ∷ 0x40 ∷ 0x48 ∷ 0x50 ∷ 0x57 ∷ 0x6f ∷ 0x13 ∷ 0x19 ∷ 0x39 ∷ 0x51 ∷ 0x53 ∷ 0x5c
    ∷ 0x5f ∷ 0x62 ∷ 0x63 ∷ 0x64 ∷ 0x65 ∷ 0x67 ∷ 0x68 ∷ 0x6a ∷ 0x6d ∷ 0x6e ∷ []

unfoldable pub sc1_to_sc2 : ℕ → ℕ
sc1_to_sc2 scancode =
    if scancode == 0xff
    then 0x00
    else if scancode == 0xe1 || scancode == 0xe0
    then scancode
    else elim (get_elem? sc1_map (scancode % 0x80)) [ none ↦ 0 | some c ↦ c ]
