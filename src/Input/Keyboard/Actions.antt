-- ===== src/Input/Keyboard/Actions.antt =====
-- What `keyEvent` does to the keys, as a list of (key code, pressed) pairs with no kernel, no device
-- and no SYN events: the description that its stream of writes is compared with.
use packages_services_vnc_fl.Prelude.{
  ℕ, Bool, true, false, none, some, List, [], ◌∷◌, if◌then◌else◌, ◌==◌,
}
use packages_services_vnc_fl.Input.Codes.{key_leftshift, key_leftalt}
use packages_services_vnc_fl.Input.Inject.{u16}
use packages_services_vnc_fl.Input.Keyboard.{
  scan_code, need_shift, fix_keysym, lookup_key, lookup_symbol, lookup_latin1,
}
use packages_services_vnc_fl.Input.Tables.{
  dead_chars_to_alt_char, latin1_to_dead_chars, spicial_keysym_to_direct_key,
  symbol_keysym_to_direct_key,
}

abbrev pub Actions : Type 0
Actions = List (ℕ × Bool)

unfoldable pub basic_actions : ℕ → Bool → Actions
basic_actions code down =
    if scan_code code == 0
    then []
    else if need_shift code
    then (key_leftshift, down) ∷ (u16 (scan_code code), down) ∷ []
    else (u16 (scan_code code), down) ∷ []

-- The Alt chord that starts an accent is typed and released before the base letter.
unfoldable pub latin_actions : ℕ → ℕ → Bool → Actions
latin_actions alt_char base_char true =
    (key_leftalt, true)
    ∷ (u16 alt_char, true)
    ∷ (key_leftalt, false)
    ∷ (u16 alt_char, false)
    ∷ basic_actions (u16 base_char) true
latin_actions alt_char base_char false = basic_actions (u16 base_char) false

unfoldable pub symbol_actions : ℕ → Bool → Bool → Bool → Actions
symbol_actions direct_key shift alt true =
    (key_leftalt, alt)
    ∷ (key_leftshift, shift)
    ∷ (u16 direct_key, true)
    ∷ (key_leftshift, false)
    ∷ (key_leftalt, false)
    ∷ []
symbol_actions direct_key shift alt false = (u16 direct_key, false) ∷ []

unfoldable pub direct_actions : ℕ → Bool → Actions
direct_actions keysym down = elim (lookup_key keysym spicial_keysym_to_direct_key) [
  | some direct_key ↦ (u16 direct_key, down) ∷ []
  | none ↦ elim (lookup_symbol keysym symbol_keysym_to_direct_key) [
    | some (direct_key, shift, alt) ↦ symbol_actions direct_key shift alt down
    | none ↦ basic_actions (u16 keysym) down
  ]
]

unfoldable pub dispatch_actions : ℕ → Bool → Actions
dispatch_actions keysym down =
    elim (lookup_latin1 keysym latin1_to_dead_chars dead_chars_to_alt_char) [
      | some (alt_char, base_char) ↦ latin_actions alt_char base_char down
      | none ↦ direct_actions keysym down
    ]

unfoldable pub key_actions : Bool → ℕ → Actions
key_actions down keysym = dispatch_actions (fix_keysym keysym) down
