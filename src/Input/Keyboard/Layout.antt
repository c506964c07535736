-- ===== src/Input/Keyboard/Layout.antt =====
-- A US keyboard that reads a run of key writes back as the character it types.
use packages_services_vnc_fl.Prelude.{
  ℕ, ◌+◌, ◌-◌, ◌<◌, ◌≡◌, refl, Bool, true, false, List, [], ◌∷◌, arith, ltb, ◌==◌, if◌then◌else◌,
  get_or, checked, test-of_checked, ◌≤◌, ◌++◌,
}
use packages_services_vnc_fl.Input.Codes.{key_leftshift, key_leftalt}
use packages_services_vnc_fl.Input.Keyboard.{
  fix_keysym, scan_code, need_shift, lookup_key, lookup_symbol, lookup_latin1, key_event,
}
use packages_services_vnc_fl.Input.Keyboard.Actions.{
  Actions, key_actions, dispatch_actions, direct_actions, basic_actions, latin_actions,
  symbol_actions,
}
use packages_services_vnc_fl.Input.Tables.{
  keysym_to_ascii, dead_chars_to_alt_char, latin1_to_dead_chars, qwerty,
  spicial_keysym_to_direct_key, symbol_keysym_to_direct_key,
}
use packages_services_vnc_fl.Input.Kernel.{Kernel, Device}
use packages_services_vnc_fl.Input.Writes.{key_writes}
use packages_services_vnc_fl.Input.Keyboard.Refines.{key_event-key_actions}

-- What the printing keys 2 to 57 of a US keyboard type, without and with Shift; 0 types nothing.
unfoldable pub us_plain : List ℕ
us_plain =
    b'1' ∷ b'2' ∷ b'3' ∷ b'4' ∷ b'5' ∷ b'6' ∷ b'7' ∷ b'8' ∷ b'9' ∷ b'0' ∷ b'-' ∷ b'=' ∷ 0 ∷ 0 ∷ b'q'
    ∷ b'w' ∷ b'e' ∷ b'r' ∷ b't' ∷ b'y' ∷ b'u' ∷ b'i' ∷ b'o' ∷ b'p' ∷ b'[' ∷ b']' ∷ 0 ∷ 0 ∷ b'a'
    ∷ b's' ∷ b'd' ∷ b'f' ∷ b'g' ∷ b'h' ∷ b'j' ∷ b'k' ∷ b'l' ∷ b';' ∷ 0x27 ∷ b'`' ∷ 0 ∷ 0x5c ∷ b'z'
    ∷ b'x' ∷ b'c' ∷ b'v' ∷ b'b' ∷ b'n' ∷ b'm' ∷ b',' ∷ b'.' ∷ b'/' ∷ 0 ∷ 0 ∷ 0 ∷ 0x20 ∷ []

unfoldable pub us_shifted : List ℕ
us_shifted =
    b'!' ∷ b'@' ∷ b'#' ∷ b'$' ∷ b'%' ∷ b'^' ∷ b'&' ∷ b'*' ∷ b'(' ∷ b')' ∷ b'_' ∷ b'+' ∷ 0 ∷ 0 ∷ b'Q'
    ∷ b'W' ∷ b'E' ∷ b'R' ∷ b'T' ∷ b'Y' ∷ b'U' ∷ b'I' ∷ b'O' ∷ b'P' ∷ b'{' ∷ b'}' ∷ 0 ∷ 0 ∷ b'A'
    ∷ b'S' ∷ b'D' ∷ b'F' ∷ b'G' ∷ b'H' ∷ b'J' ∷ b'K' ∷ b'L' ∷ b':' ∷ b'"' ∷ b'~' ∷ 0 ∷ b'|' ∷ b'Z'
    ∷ b'X' ∷ b'C' ∷ b'V' ∷ b'B' ∷ b'N' ∷ b'M' ∷ b'<' ∷ b'>' ∷ b'?' ∷ 0 ∷ 0 ∷ 0 ∷ 0x20 ∷ []

unfoldable pub us_char : Bool → ℕ → ℕ
unfolding us_plain us_shifted
us_char shift code =
    if ltb code 2 then 0 else get_or (if shift then us_shifted else us_plain) (code - 2) 0

-- The characters that a run of key writes types on a keyboard with Shift up and Alt up before it.
-- A key types as it goes down, if Alt is up.
unfoldable pub typed_from : Bool → Bool → Actions → List ℕ
typed_from shift alt [] = []
typed_from shift alt ((code, down) ∷ acts) =
    let rest =
      typed_from (if code == key_leftshift then down else shift)
        (if code == key_leftalt then down else alt) acts in
    if code == key_leftshift
    then rest
    else if code == key_leftalt
    then rest
    else if down
    then (if alt then 0 else us_char shift code) ∷ rest
    else rest

unfoldable pub typed : Actions → List ℕ
unfolding us_char typed_from
typed = typed_from false false

unfoldable pub types_one : ℕ → List ℕ → Bool
types_one ks (c ∷ []) = c == ks
types_one ks _ = false

types_itself : ℕ → Bool
types_itself n = types_one (n + 32) (typed (key_actions true (n + 32)))

types_itself_table : checked types_itself 95 ≡ true
unfolding types_itself types_one typed key_actions dispatch_actions direct_actions basic_actions
    latin_actions symbol_actions fix_keysym scan_code need_shift lookup_key lookup_symbol
    lookup_latin1 keysym_to_ascii dead_chars_to_alt_char latin1_to_dead_chars qwerty
    spicial_keysym_to_direct_key symbol_keysym_to_direct_key checked
types_itself_table = refl

pub types_one-eq : (ks : ℕ) (cs : List ℕ) → types_one ks cs ≡ true → cs ≡ ks ∷ []
unfolding types_one
types_one-eq ks [] h = cc
types_one-eq ks (c ∷ []) h = ground arith
types_one-eq ks (c ∷ d ∷ cs) h = cc

typed-key_actions : (n : ℕ) → n < 95 → typed (key_actions true (n + 32)) ≡ (n + 32) ∷ []
unfolding types_itself
typed-key_actions n h =
    types_one-eq (n + 32) _ (test-of_checked types_itself 95 n h types_itself_table)

typed-key_actions_ascii : (ks : ℕ) → 32 ≤ ks → ks < 127 → typed (key_actions true ks) ≡ ks ∷ []
typed-key_actions_ascii ks lo hi =
    let e : ks - 32 + 32 ≡ ks = omega arith in rw e at (typed-key_actions (ks - 32) (omega arith))

-- On an open device, the press of a printable ASCII keysym adds key writes that a US keyboard, with
-- Shift and Alt up before them, reads as that very character and nothing else.
pub key_event_types_ascii :
    (k : Kernel) (ks : ℕ) (d : Device)
    → d.opened ≡ true
    → 32 ≤ ks
    → ks < 127
    → (acts : Actions) × (key_writes (key_event k true ks d).0.calls ≡ key_writes d.calls ++ acts)
      × (typed acts ≡ ks ∷ [])
key_event_types_ascii k ks d h lo hi =
    (key_actions true ks, (key_event-key_actions k true ks d h).0, typed-key_actions_ascii ks lo hi)
