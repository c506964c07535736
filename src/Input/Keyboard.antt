-- ===== src/Input/Keyboard.antt =====
-- `doBasicKeyEvent` and `keyEvent` of InputDevice.cpp: from a keysym to key presses.
mod Lookup
pub mod Actions
pub mod Refines
pub mod Balance
pub mod Released
pub mod Layout
pub mod Wide
pub mod Text
pub mod Overlap
use packages_services_vnc_fl.Prelude.{
  ℕ, ◌+◌, ◌-◌, Bool, true, false, ◌&&◌, Option, none, some, if◌then◌else◌, leb, ◌==◌, get_or,
}
use packages_services_vnc_fl.Input.Codes.{key_0, key_leftshift, key_leftalt}
use packages_services_vnc_fl.Input.Kernel.{
  Kernel, Status, bad_value, M, pure, ◌>>=◌, ◌>>◌, nothing, when,
}
use packages_services_vnc_fl.Input.Inject.{u16, do_keyboard_event}
use packages_services_vnc_fl.Input.Tables.{
  keysym_to_ascii, dead_chars_to_alt_char, latin1_to_dead_chars, qwerty,
  spicial_keysym_to_direct_key, symbol_keysym_to_direct_key,
}
unfoldable pub use Lookup.{lookup_key, lookup_symbol, lookup_latin1}

-- The four tests of `doBasicKeyEvent`, each of which may overwrite `scanCode`; 0 is "unknown".
unfoldable pub scan_code : ℕ → ℕ
scan_code code =
    if code == b'0'
    then key_0
    else if leb b'1' code && leb code b'9'
    then code - b'1' + 2
    else if leb b'A' code && leb code b'Z'
    then get_or qwerty (code - b'A') 0
    else if leb b'a' code && leb code b'z'
    then get_or qwerty (code - b'a') 0
    else 0

unfoldable pub need_shift : ℕ → Bool
need_shift code = leb b'A' code && leb code b'Z'

-- `code` is a uint16_t.
unfoldable pub do_basic_key_event : Kernel → ℕ → Bool → M Status
do_basic_key_event k code down = if scan_code code == 0 then pure bad_value else (do
  when (need_shift code) (do_keyboard_event k key_leftshift down)
  do_keyboard_event k (u16 (scan_code code)) down)

-- `Fix unknown keys`.
unfoldable pub fix_keysym : ℕ → ℕ
fix_keysym keysym = elim (lookup_key keysym keysym_to_ascii) [ some ascii ↦ ascii | none ↦ keysym ]

-- `Latin Keys`: Alt + AltChar, then BaseChar.
unfoldable pub latin_event : Kernel → ℕ → ℕ → Bool → M (Unit {0})
latin_event k alt_char base_char down = do
  when down (do
    do_keyboard_event k key_leftalt true
    do_keyboard_event k (u16 alt_char) true
    do_keyboard_event k key_leftalt false
    do_keyboard_event k (u16 alt_char) false)
  do_basic_key_event k (u16 base_char) down
  nothing

-- `Symbol Keys`.
unfoldable pub symbol_event : Kernel → ℕ → Bool → Bool → Bool → M (Unit {0})
symbol_event k direct_key shift alt down = do
  when down (do do_keyboard_event k key_leftalt alt; do_keyboard_event k key_leftshift shift)
  do_keyboard_event k (u16 direct_key) down
  when down (do do_keyboard_event k key_leftshift false; do_keyboard_event k key_leftalt false)

-- The last three searches of `keyEvent`, on the keysym that `Fix unknown keys` left.
unfoldable pub direct_event : Kernel → ℕ → Bool → M (Unit {0})
direct_event k keysym down = elim (lookup_key keysym spicial_keysym_to_direct_key) [
  | some direct_key ↦ do do_keyboard_event k (u16 direct_key) down; nothing
  | none ↦ elim (lookup_symbol keysym symbol_keysym_to_direct_key) [
    | some (direct_key, shift, alt) ↦ symbol_event k direct_key shift alt down
    | none ↦ do do_basic_key_event k (u16 keysym) down; nothing
  ]
]

unfoldable pub dispatch_event : Kernel → ℕ → Bool → M (Unit {0})
dispatch_event k keysym down =
    elim (lookup_latin1 keysym latin1_to_dead_chars dead_chars_to_alt_char) [
      | some (alt_char, base_char) ↦ latin_event k alt_char base_char down
      | none ↦ direct_event k keysym down
    ]

unfoldable pub key_event : Kernel → Bool → ℕ → M (Unit {0})
key_event k down keysym d =
    if d.opened then dispatch_event k (fix_keysym keysym) down d else (d, tt)
