-- ===== src/Keyboard/Keys.antt =====
-- nre/include/services/Keyboard.h: the keys and their numbers.
use nre.Base.{ℕ}

pub data Key : Type 0 where
  vk_accent vk_0 vk_1 vk_2 vk_3 vk_4 vk_5 vk_6 vk_7 vk_8 : Key
  vk_9 vk_minus vk_eq vk_backsp vk_tab vk_q vk_w vk_e vk_r vk_t : Key
  vk_y vk_u vk_i vk_o vk_p vk_lbracket vk_rbracket vk_backslash vk_caps vk_a : Key
  vk_s vk_d vk_f vk_g vk_h vk_j vk_k vk_l vk_sem vk_apos : Key
  vk_enter vk_lshift vk_z vk_x vk_c vk_v vk_b vk_n vk_m vk_comma : Key
  vk_dot vk_slash vk_rshift vk_lctrl vk_lsuper vk_lalt vk_space vk_ralt vk_apps vk_rctrl : Key
  vk_rsuper vk_insert vk_delete vk_home vk_end vk_pgup vk_pgdown vk_left vk_up vk_down : Key
  vk_right vk_num vk_kp7 vk_kp4 vk_kp1 vk_kpdiv vk_kp8 vk_kp5 vk_kp2 vk_kp0 : Key
  vk_kpmul vk_kp9 vk_kp6 vk_kp3 vk_kpdot vk_kpsub vk_kpadd vk_kpenter vk_esc vk_f1 : Key
  vk_f2 vk_f3 vk_f4 vk_f5 vk_f6 vk_f7 vk_f8 vk_f9 vk_f10 vk_f11 : Key
  vk_f12 vk_print vk_scroll vk_pause vk_pipe vk_lwin vk_rwin : Key

-- the number of a `VK_` constant
pub code_of : Key → ℕ
code_of vk_accent = 1
code_of vk_0 = 2
code_of vk_1 = 3
code_of vk_2 = 4
code_of vk_3 = 5
code_of vk_4 = 6
code_of vk_5 = 7
code_of vk_6 = 8
code_of vk_7 = 9
code_of vk_8 = 10
code_of vk_9 = 11
code_of vk_minus = 12
code_of vk_eq = 13
code_of vk_backsp = 15
code_of vk_tab = 16
code_of vk_q = 17
code_of vk_w = 18
code_of vk_e = 19
code_of vk_r = 20
code_of vk_t = 21
code_of vk_y = 22
code_of vk_u = 23
code_of vk_i = 24
code_of vk_o = 25
code_of vk_p = 26
code_of vk_lbracket = 27
code_of vk_rbracket = 28
code_of vk_backslash = 29
code_of vk_caps = 30
code_of vk_a = 31
code_of vk_s = 32
code_of vk_d = 33
code_of vk_f = 34
code_of vk_g = 35
code_of vk_h = 36
code_of vk_j = 37
code_of vk_k = 38
code_of vk_l = 39
code_of vk_sem = 40
code_of vk_apos = 41
code_of vk_enter = 43
code_of vk_lshift = 44
code_of vk_z = 46
code_of vk_x = 47
code_of vk_c = 48
code_of vk_v = 49
code_of vk_b = 50
code_of vk_n = 51
code_of vk_m = 52
code_of vk_comma = 53
code_of vk_dot = 54
code_of vk_slash = 55
code_of vk_rshift = 57
code_of vk_lctrl = 58
code_of vk_lsuper = 59
code_of vk_lalt = 60
code_of vk_space = 61
code_of vk_ralt = 62
code_of vk_apps = 63
code_of vk_rctrl = 64
code_of vk_rsuper = 65
code_of vk_insert = 75
code_of vk_delete = 76
code_of vk_home = 80
code_of vk_end = 81
code_of vk_pgup = 85
code_of vk_pgdown = 86
code_of vk_left = 79
code_of vk_up = 83
code_of vk_down = 84
code_of vk_right = 89
code_of vk_num = 90
code_of vk_kp7 = 91
code_of vk_kp4 = 92
code_of vk_kp1 = 93
code_of vk_kpdiv = 95
code_of vk_kp8 = 96
code_of vk_kp5 = 97
code_of vk_kp2 = 98
code_of vk_kp0 = 99
code_of vk_kpmul = 100
code_of vk_kp9 = 101
code_of vk_kp6 = 102
code_of vk_kp3 = 103
code_of vk_kpdot = 104
code_of vk_kpsub = 105
code_of vk_kpadd = 106
code_of vk_kpenter = 108
code_of vk_esc = 110
code_of vk_f1 = 112
code_of vk_f2 = 113
code_of vk_f3 = 114
code_of vk_f4 = 115
code_of vk_f5 = 116
code_of vk_f6 = 117
code_of vk_f7 = 118
code_of vk_f8 = 119
code_of vk_f9 = 120
code_of vk_f10 = 121
code_of vk_f11 = 122
code_of vk_f12 = 123
code_of vk_print = 124
code_of vk_scroll = 125
code_of vk_pause = 126
code_of vk_pipe = 127
code_of vk_lwin = 128
code_of vk_rwin = 129
