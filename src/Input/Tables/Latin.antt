-- ===== src/Input/Tables/Latin.antt =====
-- The tables of InputDevice.cpp. The keysyms are those of X11's keysymdef.h and the key codes those
-- of linux/input-event-codes.h, written by value behind the name that the source uses.
use packages_services_vnc_fl.Prelude.{ℕ, List, [], ◌∷◌}

-- (keysym, ascii)
unfoldable pub keysym_to_ascii : List (ℕ × ℕ)
keysym_to_ascii =
    (0xff80, 0x20)  -- XK_KP_Space, ' '
    ∷ (0xffbd, b'=')  -- XK_KP_Equal, '='
    ∷ []

-- (dead character, key code that composes it under Alt)
unfoldable pub dead_chars_to_alt_char : List (ℕ × ℕ)
dead_chars_to_alt_char =
    (0x60, 41)  -- XK_grave, KEY_GRAVE
    ∷ (0xb4, 18)  -- XK_acute, KEY_E
    ∷ (0x5e, 23)  -- XK_asciicircum, KEY_I
    ∷ (0xa8, 22)  -- XK_diaeresis, KEY_U
    ∷ (0x7e, 49)  -- XK_asciitilde, KEY_N
    ∷ []

-- (Latin-1 character, dead character, base character)
unfoldable pub latin1_to_dead_chars : List (ℕ × ℕ × ℕ)
latin1_to_dead_chars =
    (0xc0, 0x60, 0x41)  -- XK_Agrave, XK_grave, XK_A
    ∷ (0xc8, 0x60, 0x45)  -- XK_Egrave, XK_grave, XK_E
    ∷ (0xcc, 0x60, 0x49)  -- XK_Igrave, XK_grave, XK_I
    ∷ (0xd2, 0x60, 0x4f)  -- XK_Ograve, XK_grave, XK_O
    ∷ (0xd9, 0x60, 0x55)  -- XK_Ugrave, XK_grave, XK_U
    ∷ (0xe0, 0x60, 0x61)  -- XK_agrave, XK_grave, XK_a
    ∷ (0xe8, 0x60, 0x65)  -- XK_egrave, XK_grave, XK_e
    ∷ (0xec, 0x60, 0x69)  -- XK_igrave, XK_grave, XK_i
    ∷ (0xf2, 0x60, 0x6f)  -- XK_ograve, XK_grave, XK_o
    ∷ (0xf9, 0x60, 0x75)  -- XK_ugrave, XK_grave, XK_u
    ∷ (0xc1, 0xb4, 0x41)  -- XK_Aacute, XK_acute, XK_A
    ∷ (0xc9, 0xb4, 0x45)  -- XK_Eacute, XK_acute, XK_E
    ∷ (0xcd, 0xb4, 0x49)  -- XK_Iacute, XK_acute, XK_I
    ∷ (0xd3, 0xb4, 0x4f)  -- XK_Oacute, XK_acute, XK_O
    ∷ (0xda, 0xb4, 0x55)  -- XK_Uacute, XK_acute, XK_U
    ∷ (0xdd, 0xb4, 0x59)  -- XK_Yacute, XK_acute, XK_Y
    ∷ (0xe1, 0xb4, 0x61)  -- XK_aacute, XK_acute, XK_a
    ∷ (0xe9, 0xb4, 0x65)  -- XK_eacute, XK_acute, XK_e
    ∷ (0xed, 0xb4, 0x69)  -- XK_iacute, XK_acute, XK_i
    ∷ (0xf3, 0xb4, 0x6f)  -- XK_oacute, XK_acute, XK_o
    ∷ (0xfa, 0xb4, 0x75)  -- XK_uacute, XK_acute, XK_u
    ∷ (0xfd, 0xb4, 0x79)  -- XK_yacute, XK_acute, XK_y
    ∷ (0xc2, 0x5e, 0x41)  -- XK_Acircumflex, XK_asciicircum, XK_A
    ∷ (0xca, 0x5e, 0x45)  -- XK_Ecircumflex, XK_asciicircum, XK_E
    ∷ (0xce, 0x5e, 0x49)  -- XK_Icircumflex, XK_asciicircum, XK_I
    ∷ (0xd4, 0x5e, 0x4f)  -- XK_Ocircumflex, XK_asciicircum, XK_O
    ∷ (0xdb, 0x5e, 0x55)  -- XK_Ucircumflex, XK_asciicircum, XK_U
    ∷ (0xe2, 0x5e, 0x61)  -- XK_acircumflex, XK_asciicircum, XK_a
    ∷ (0xea, 0x5e, 0x65)  -- XK_ecircumflex, XK_asciicircum, XK_e
    ∷ (0xee, 0x5e, 0x69)  -- XK_icircumflex, XK_asciicircum, XK_i
    ∷ (0xf4, 0x5e, 0x6f)  -- XK_ocircumflex, XK_asciicircum, XK_o
    ∷ (0xfb, 0x5e, 0x75)  -- XK_ucircumflex, XK_asciicircum, XK_u
    ∷ (0xc4, 0xa8, 0x41)  -- XK_Adiaeresis, XK_diaeresis, XK_A
    ∷ (0xcb, 0xa8, 0x45)  -- XK_Ediaeresis, XK_diaeresis, XK_E
    ∷ (0xcf, 0xa8, 0x49)  -- XK_Idiaeresis, XK_diaeresis, XK_I
    ∷ (0xd6, 0xa8, 0x4f)  -- XK_Odiaeresis, XK_diaeresis, XK_O
    ∷ (0xdc, 0xa8, 0x55)  -- XK_Udiaeresis, XK_diaeresis, XK_U
    ∷ (0xe4, 0xa8, 0x61)  -- XK_adiaeresis, XK_diaeresis, XK_a
    ∷ (0xeb, 0xa8, 0x65)  -- XK_ediaeresis, XK_diaeresis, XK_e
    ∷ (0xef, 0xa8, 0x69)  -- XK_idiaeresis, XK_diaeresis, XK_i
    ∷ (0xf6, 0xa8, 0x6f)  -- XK_odiaeresis, XK_diaeresis, XK_o
    ∷ (0xfc, 0xa8, 0x75)  -- XK_udiaeresis, XK_diaeresis, XK_u
    ∷ (0xff, 0xa8, 0x79)  -- XK_ydiaeresis, XK_diaeresis, XK_y
    ∷ (0xc3, 0x7e, 0x41)  -- XK_Atilde, XK_asciitilde, XK_A
    ∷ (0xd1, 0x7e, 0x4e)  -- XK_Ntilde, XK_asciitilde, XK_N
    ∷ (0xd5, 0x7e, 0x4f)  -- XK_Otilde, XK_asciitilde, XK_O
    ∷ (0xe3, 0x7e, 0x61)  -- XK_atilde, XK_asciitilde, XK_a
    ∷ (0xf1, 0x7e, 0x6e)  -- XK_ntilde, XK_asciitilde, XK_n
    ∷ (0xf5, 0x7e, 0x6f)  -- XK_otilde, XK_asciitilde, XK_o
    ∷ []

-- Scan codes of the letters a to z.
unfoldable pub qwerty : List ℕ
qwerty =
    30 ∷ 48 ∷ 46 ∷ 32 ∷ 18 ∷ 33 ∷ 34 ∷ 35 ∷ 23 ∷ 36 ∷ 37 ∷ 38 ∷ 50 ∷ 49 ∷ 24 ∷ 25 ∷ 16 ∷ 19 ∷ 31
    ∷ 20 ∷ 22 ∷ 47 ∷ 17 ∷ 45 ∷ 21 ∷ 44 ∷ []
