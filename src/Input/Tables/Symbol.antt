-- ===== src/Input/Tables/Symbol.antt =====
-- The tables of InputDevice.cpp. The keysyms are those of X11's keysymdef.h and the key codes those
-- of linux/input-event-codes.h, written by value behind the name that the source uses.
use packages_services_vnc_fl.Prelude.{ℕ, Bool, true, false, List, [], ◌∷◌}

-- (keysym, key code, needs shift, needs alt)
unfoldable pub symbol_keysym_to_direct_key : List (ℕ × ℕ × Bool × Bool)
symbol_keysym_to_direct_key =
    (0x20, 57, false, false)  -- XK_space, KEY_SPACE
    ∷ (0x21, 2, true, false)  -- XK_exclam, KEY_1
    ∷ (0x22, 40, true, false)  -- XK_quotedbl, KEY_APOSTROPHE
    ∷ (0x23, 4, true, false)  -- XK_numbersign, KEY_3
    ∷ (0x24, 5, true, false)  -- XK_dollar, KEY_4
    ∷ (0x25, 6, true, false)  -- XK_percent, KEY_5
    ∷ (0x26, 8, true, false)  -- XK_ampersand, KEY_7
    ∷ (0x27, 40, false, false)  -- XK_apostrophe, KEY_APOSTROPHE
    ∷ (0x28, 10, true, false)  -- XK_parenleft, KEY_9
    ∷ (0x29, 11, true, false)  -- XK_parenright, KEY_0
    ∷ (0x2a, 9, true, false)  -- XK_asterisk, KEY_8
    ∷ (0x2b, 13, true, false)  -- XK_plus, KEY_EQUAL
    ∷ (0x2c, 51, false, false)  -- XK_comma, KEY_COMMA
    ∷ (0x2d, 12, false, false)  -- XK_minus, KEY_MINUS
    ∷ (0x2e, 52, false, false)  -- XK_period, KEY_DOT
    ∷ (0x2f, 53, false, false)  -- XK_slash, KEY_SLASH
    ∷ (0x3a, 39, true, false)  -- XK_colon, KEY_SEMICOLON
    ∷ (0x3b, 39, false, false)  -- XK_semicolon, KEY_SEMICOLON
    ∷ (0x3c, 51, true, false)  -- XK_less, KEY_COMMA
    ∷ (0x3d, 13, false, false)  -- XK_equal, KEY_EQUAL
    ∷ (0x3e, 52, true, false)  -- XK_greater, KEY_DOT
    ∷ (0x3f, 53, true, false)  -- XK_question, KEY_SLASH
    ∷ (0x40, 3, true, false)  -- XK_at, KEY_2
    ∷ (0x5b, 26, false, false)  -- XK_bracketleft, KEY_LEFTBRACE
    ∷ (0x5c, 43, false, false)  -- XK_backslash, KEY_BACKSLASH
    ∷ (0x5d, 27, false, false)  -- XK_bracketright, KEY_RIGHTBRACE
    ∷ (0x5e, 7, true, false)  -- XK_asciicircum, KEY_6
    ∷ (0x5f, 12, true, false)  -- XK_underscore, KEY_MINUS
    ∷ (0x60, 41, false, false)  -- XK_grave, KEY_GRAVE
    ∷ (0x7b, 26, true, false)  -- XK_braceleft, KEY_LEFTBRACE
    ∷ (0x7c, 43, true, false)  -- XK_bar, KEY_BACKSLASH
    ∷ (0x7d, 27, true, false)  -- XK_braceright, KEY_RIGHTBRACE
    ∷ (0x7e, 41, true, false)  -- XK_asciitilde, KEY_GRAVE
    ∷ (0xc5, 30, true, true)  -- XK_Aring, KEY_A
    ∷ (0xe5, 30, false, true)  -- XK_aring, KEY_A
    ∷ (0xc7, 46, true, true)  -- XK_Ccedilla, KEY_C
    ∷ (0xe7, 46, false, true)  -- XK_ccedilla, KEY_C
    ∷ (0x20ac, 3, true, true)  -- XK_EuroSign, KEY_2
    ∷ (0xba, 11, false, true)  -- XK_masculine, KEY_0
    ∷ (163, 4, false, true)  -- KEY_3
    ∷ (223, 31, false, true)  -- KEY_S
    ∷ (167, 7, false, true)  -- KEY_6
    ∷ []
