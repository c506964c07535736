-- ===== src/Input/Keyboard/Wide.antt =====
-- Keysyms above 0xffff, Unicode keysyms among them: no table has them, and `doBasicKeyEvent` takes
-- the low 16 bits.
use packages_services_vnc_fl.Prelude.{
  ℕ, ◌%◌, ◌^◌, ◌≤◌, ◌≡◌, refl, Bool, true, ◌&&◌, none, List, [], ◌∷◌, arith, ltb, leb, ◌<◌, ◌||◌,
  test-of_checked, checked, ◌++◌, if◌then◌else◌,
}
use packages_services_vnc_fl.Input.Inject.{u16}
use packages_services_vnc_fl.Input.Keyboard.{
  fix_keysym, lookup_key, lookup_symbol, lookup_latin1, scan_code, need_shift, key_event,
}
use packages_services_vnc_fl.Input.Keyboard.Actions.{
  basic_actions, direct_actions, dispatch_actions, key_actions, Actions,
}
use packages_services_vnc_fl.Input.Tables.{
  keysym_to_ascii, dead_chars_to_alt_char, latin1_to_dead_chars, qwerty,
  spicial_keysym_to_direct_key, symbol_keysym_to_direct_key,
}
use packages_services_vnc_fl.Input.Keyboard.Layout.{typed, types_one, types_one-eq}
use packages_services_vnc_fl.Input.Kernel.{Kernel, Device}
use packages_services_vnc_fl.Input.Writes.{key_writes}
use packages_services_vnc_fl.Input.Keyboard.Refines.{key_event-key_actions}

-- Every key of a table fits 16 bits.
narrow_keys : List (ℕ × ℕ) → Bool
narrow_keys [] = true
narrow_keys ((key, v) ∷ rows) = ltb key 65536 && narrow_keys rows

narrow_symbols : List (ℕ × ℕ × Bool × Bool) → Bool
narrow_symbols [] = true
narrow_symbols ((key, v, s, a) ∷ rows) = ltb key 65536 && narrow_symbols rows

narrow_latin : List (ℕ × ℕ × ℕ) → Bool
narrow_latin [] = true
narrow_latin ((key, v, w) ∷ rows) = ltb key 65536 && narrow_latin rows

lookup_key_wide :
    (ks : ℕ) (rows : List (ℕ × ℕ))
    → 65536 ≤ ks
    → narrow_keys rows ≡ true
    → lookup_key ks rows ≡ none
unfolding lookup_key narrow_keys
lookup_key_wide ks [] h n = refl
lookup_key_wide ks ((key, v) ∷ rows) h n = ground (arith, lookup_key_wide ks rows h)

lookup_symbol_wide :
    (ks : ℕ) (rows : List (ℕ × ℕ × Bool × Bool))
    → 65536 ≤ ks
    → narrow_symbols rows ≡ true
    → lookup_symbol ks rows ≡ none
unfolding lookup_symbol narrow_symbols
lookup_symbol_wide ks [] h n = refl
lookup_symbol_wide ks ((key, v, s, a) ∷ rows) h n = ground (arith, lookup_symbol_wide ks rows h)

lookup_latin1_wide :
    (ks : ℕ) (rows : List (ℕ × ℕ × ℕ)) (alts : List (ℕ × ℕ))
    → 65536 ≤ ks
    → narrow_latin rows ≡ true
    → lookup_latin1 ks rows alts ≡ none
unfolding lookup_latin1 narrow_latin
lookup_latin1_wide ks [] alts h n = refl
lookup_latin1_wide ks ((key, v, w) ∷ rows) alts h n =
    ground (arith, lookup_latin1_wide ks rows alts h)

ascii_narrow : narrow_keys keysym_to_ascii ≡ true
unfolding narrow_keys keysym_to_ascii
ascii_narrow = refl

spicial_narrow : narrow_keys spicial_keysym_to_direct_key ≡ true
unfolding narrow_keys spicial_keysym_to_direct_key
spicial_narrow = refl

symbol_narrow : narrow_symbols symbol_keysym_to_direct_key ≡ true
unfolding narrow_symbols symbol_keysym_to_direct_key
symbol_narrow = refl

latin_narrow : narrow_latin latin1_to_dead_chars ≡ true
unfolding narrow_latin latin1_to_dead_chars
latin_narrow = refl

fix_keysym_wide : (ks : ℕ) → 65536 ≤ ks → fix_keysym ks ≡ ks
unfolding fix_keysym
fix_keysym_wide ks h = rw (lookup_key_wide ks keysym_to_ascii h ascii_narrow, fix_keysym)

direct_actions_wide :
    (ks : ℕ) (down : Bool) → 65536 ≤ ks → direct_actions ks down ≡ basic_actions (u16 ks) down
unfolding direct_actions
direct_actions_wide ks down h = rw (
  lookup_key_wide ks spicial_keysym_to_direct_key h spicial_narrow,
  lookup_symbol_wide ks symbol_keysym_to_direct_key h symbol_narrow,
  direct_actions,
)

dispatch_actions_wide :
    (ks : ℕ) (down : Bool) → 65536 ≤ ks → dispatch_actions ks down ≡ basic_actions (u16 ks) down
unfolding dispatch_actions
dispatch_actions_wide ks down h =
    rw
      (
        lookup_latin1_wide ks latin1_to_dead_chars dead_chars_to_alt_char h latin_narrow,
        dispatch_actions,
      )
      (direct_actions_wide ks down h)

key_actions_wide :
    (ks : ℕ) (down : Bool) → 65536 ≤ ks → key_actions down ks ≡ basic_actions (ks % 2 ^ 16) down
unfolding key_actions
key_actions_wide ks down h = rw (fix_keysym_wide ks h) (dispatch_actions_wide ks down h)

unfoldable pub is_alnum : ℕ → Bool
is_alnum c = (leb b'0' c && leb c b'9') || (leb b'A' c && leb c b'Z') || (leb b'a' c && leb c b'z')

basic_types_itself : ℕ → Bool
basic_types_itself c = if is_alnum c then types_one c (typed (basic_actions c true)) else true

basic_types_itself_table : checked basic_types_itself 123 ≡ true
unfolding basic_types_itself is_alnum types_one typed basic_actions scan_code need_shift qwerty
    checked
basic_types_itself_table = refl

is_alnum-lt : (c : ℕ) → is_alnum c ≡ true → c < 123
unfolding is_alnum
is_alnum-lt c h = ground arith

typed-basic_actions : (c : ℕ) → is_alnum c ≡ true → typed (basic_actions c true) ≡ c ∷ []
unfolding basic_types_itself
typed-basic_actions c h = types_one-eq c _ (
    ground
      (arith, test-of_checked basic_types_itself 123 c (is_alnum-lt c h) basic_types_itself_table))

-- Beyond 16 bits `keyEvent` sees only the low 16 bits of a keysym: on an open device, the press of
-- any keysym of at least 65536 whose low 16 bits are the code of an ASCII letter or digit types that
-- letter or digit, whichever character the keysym stands for.
pub key_event_wide_types_low :
    (k : Kernel) (ks : ℕ) (d : Device)
    → d.opened ≡ true
    → 65536 ≤ ks
    → is_alnum (ks % 2 ^ 16) ≡ true
    → (acts : Actions) × (key_writes (key_event k true ks d).0.calls ≡ key_writes d.calls ++ acts)
      × (typed acts ≡ (ks % 2 ^ 16) ∷ [])
key_event_wide_types_low k ks d h wide alnum = (
  key_actions true ks,
  (key_event-key_actions k true ks d h).0,
  rw (key_actions_wide ks true wide) (typed-basic_actions (ks % 2 ^ 16) alnum),
)
