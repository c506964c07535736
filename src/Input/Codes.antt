-- ===== src/Input/Codes.antt =====
-- The constants of linux/input-event-codes.h that InputDevice.cpp uses outside its tables.
use packages_services_vnc_fl.Prelude.{ℕ}

abbrev pub ev_syn : ℕ
ev_syn = 0

abbrev pub ev_key : ℕ
ev_key = 1

abbrev pub ev_rel : ℕ
ev_rel = 2

abbrev pub ev_abs : ℕ
ev_abs = 3

abbrev pub ev_rep : ℕ
ev_rep = 0x14

abbrev pub syn_report : ℕ
syn_report = 0

abbrev pub rel_x : ℕ
rel_x = 0

abbrev pub rel_y : ℕ
rel_y = 1

abbrev pub rel_wheel : ℕ
rel_wheel = 8

abbrev pub abs_x : ℕ
abs_x = 0

abbrev pub abs_y : ℕ
abs_y = 1

abbrev pub input_prop_direct : ℕ
input_prop_direct = 1

abbrev pub key_0 : ℕ
key_0 = 11

abbrev pub key_leftshift : ℕ
key_leftshift = 42

abbrev pub key_leftalt : ℕ
key_leftalt = 56

abbrev pub key_end : ℕ
key_end = 107

abbrev pub key_back : ℕ
key_back = 158

abbrev pub key_max : ℕ
key_max = 0x2ff

abbrev pub btn_mouse : ℕ
btn_mouse = 0x110

abbrev pub btn_left : ℕ
btn_left = 0x110

abbrev pub btn_right : ℕ
btn_right = 0x111

abbrev pub btn_middle : ℕ
btn_middle = 0x112

abbrev pub btn_touch : ℕ
btn_touch = 0x14a

abbrev pub bus_virtual : ℕ
bus_virtual = 6
