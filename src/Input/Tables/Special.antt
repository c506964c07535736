-- ===== src/Input/Tables/Special.antt =====
-- The tables of InputDevice.cpp. The keysyms are those of X11's keysymdef.h and the key codes those
-- of linux/input-event-codes.h, written by value behind the name that the source uses.
use packages_services_vnc_fl.Prelude.{ℕ, List, [], ◌∷◌}

-- (keysym, key code); the source spells the table so
unfoldable pub spicial_keysym_to_direct_key : List (ℕ × ℕ)
spicial_keysym_to_direct_key =
    (0xff08, 14)  -- XK_BackSpace, KEY_BACKSPACE
    ∷ (0xff09, 15)  -- XK_Tab, KEY_TAB
    ∷ (0xff0d, 28)  -- XK_Return, KEY_ENTER
    ∷ (0xff13, 119)  -- XK_Pause, KEY_PAUSE
    ∷ (0xff1b, 1)  -- XK_Escape, KEY_ESC
    ∷ (0xffff, 111)  -- XK_Delete, KEY_DELETE
    ∷ (0xff50, 102)  -- XK_Home, KEY_HOME
    ∷ (0xff51, 105)  -- XK_Left, KEY_LEFT
    ∷ (0xff52, 103)  -- XK_Up, KEY_UP
    ∷ (0xff53, 106)  -- XK_Right, KEY_RIGHT
    ∷ (0xff54, 108)  -- XK_Down, KEY_DOWN
    ∷ (0xff55, 104)  -- XK_Page_Up, KEY_PAGEUP
    ∷ (0xff56, 109)  -- XK_Page_Down, KEY_PAGEDOWN
    ∷ (0xff57, 107)  -- XK_End, KEY_END
    ∷ (0xff63, 110)  -- XK_Insert, KEY_INSERT
    ∷ (0xffbe, 59)  -- XK_F1, KEY_F1
    ∷ (0xffbf, 60)  -- XK_F2, KEY_F2
    ∷ (0xffc0, 61)  -- XK_F3, KEY_F3
    ∷ (0xffc1, 62)  -- XK_F4, KEY_F4
    ∷ (0xffc2, 63)  -- XK_F5, KEY_F5
    ∷ (0xffc3, 64)  -- XK_F6, KEY_F6
    ∷ (0xffc4, 65)  -- XK_F7, KEY_F7
    ∷ (0xffc5, 66)  -- XK_F8, KEY_F8
    ∷ (0xffc6, 67)  -- XK_F9, KEY_F9
    ∷ (0xffc7, 68)  -- XK_F10, KEY_F10
    ∷ (0xffc8, 87)  -- XK_F11, KEY_F11
    ∷ (0xffc9, 88)  -- XK_F12, KEY_F12
    ∷ (0xffca, 183)  -- XK_F13, KEY_F13
    ∷ (0xffcb, 184)  -- XK_F14, KEY_F14
    ∷ (0xffcc, 185)  -- XK_F15, KEY_F15
    ∷ (0xffcd, 186)  -- XK_F16, KEY_F16
    ∷ (0xffce, 187)  -- XK_F17, KEY_F17
    ∷ (0xffcf, 188)  -- XK_F18, KEY_F18
    ∷ (0xffd0, 189)  -- XK_F19, KEY_F19
    ∷ (0xffd1, 190)  -- XK_F20, KEY_F20
    ∷ (0xffd2, 191)  -- XK_F21, KEY_F21
    ∷ (0xffd3, 192)  -- XK_F22, KEY_F22
    ∷ (0xffd4, 193)  -- XK_F23, KEY_F23
    ∷ (0xffd5, 194)  -- XK_F24, KEY_F24
    ∷ (0xff89, 15)  -- XK_KP_Tab, KEY_TAB
    ∷ (0xff8d, 96)  -- XK_KP_Enter, KEY_KPENTER
    ∷ (0xff91, 59)  -- XK_KP_F1, KEY_F1
    ∷ (0xff92, 60)  -- XK_KP_F2, KEY_F2
    ∷ (0xff93, 61)  -- XK_KP_F3, KEY_F3
    ∷ (0xff94, 62)  -- XK_KP_F4, KEY_F4
    ∷ (0xff95, 102)  -- XK_KP_Home, KEY_HOME
    ∷ (0xff96, 105)  -- XK_KP_Left, KEY_LEFT
    ∷ (0xff97, 103)  -- XK_KP_Up, KEY_UP
    ∷ (0xff98, 106)  -- XK_KP_Right, KEY_RIGHT
    ∷ (0xff99, 108)  -- XK_KP_Down, KEY_DOWN
    ∷ (0xff9c, 107)  -- XK_KP_End, KEY_END
    ∷ (0xff9a, 104)  -- XK_KP_Page_Up, KEY_PAGEUP
    ∷ (0xff9b, 407)  -- XK_KP_Page_Down, KEY_NEXT
    ∷ (0xff9e, 110)  -- XK_KP_Insert, KEY_INSERT
    ∷ (0xff9f, 111)  -- XK_KP_Delete, KEY_DELETE
    ∷ (0xffaa, 55)  -- XK_KP_Multiply, KEY_KPASTERISK
    ∷ (0xffab, 78)  -- XK_KP_Add, KEY_KPPLUS
    ∷ (0xffac, 121)  -- XK_KP_Separator, KEY_KPCOMMA
    ∷ (0xffad, 74)  -- XK_KP_Subtract, KEY_KPMINUS
    ∷ (0xffae, 83)  -- XK_KP_Decimal, KEY_KPDOT
    ∷ (0xffaf, 98)  -- XK_KP_Divide, KEY_KPSLASH
    ∷ (0xffb0, 82)  -- XK_KP_0, KEY_KP0
    ∷ (0xffb1, 79)  -- XK_KP_1, KEY_KP1
    ∷ (0xffb2, 80)  -- XK_KP_2, KEY_KP2
    ∷ (0xffb3, 81)  -- XK_KP_3, KEY_KP3
    ∷ (0xffb4, 75)  -- XK_KP_4, KEY_KP4
    ∷ (0xffb5, 76)  -- XK_KP_5, KEY_KP5
    ∷ (0xffb6, 77)  -- XK_KP_6, KEY_KP6
    ∷ (0xffb7, 71)  -- XK_KP_7, KEY_KP7
    ∷ (0xffb8, 72)  -- XK_KP_8, KEY_KP8
    ∷ (0xffb9, 73)  -- XK_KP_9, KEY_KP9
    ∷ (0xffe1, 42)  -- XK_Shift_L, KEY_LEFTSHIFT
    ∷ (0xffe2, 54)  -- XK_Shift_R, KEY_RIGHTSHIFT
    ∷ (0xffe3, 29)  -- XK_Control_L, KEY_LEFTCTRL
    ∷ (0xffe4, 97)  -- XK_Control_R, KEY_RIGHTCTRL
    ∷ (0xffe9, 56)  -- XK_Alt_L, KEY_LEFTALT
    ∷ (0xffea, 100)  -- XK_Alt_R, KEY_RIGHTALT
    ∷ (0xffe7, 56)  -- XK_Meta_L, KEY_LEFTALT
    ∷ (0xffe8, 100)  -- XK_Meta_R, KEY_RIGHTALT
    ∷ (0xffeb, 0xdb)  -- XK_Super_L
    ∷ (0xffec, 0xdc)  -- XK_Super_R
    ∷ (0xff67, 0xdd)  -- XK_Menu
    ∷ (0xff21, 0x94)  -- XK_Kanji
    ∷ (0xff2e, 0x70)  -- XK_Kana_Shift
    ∷ []
