-- ===== src/Input/Taken/Keys.antt =====
-- Every key that keyEvent writes is one that both a mouse and a touchscreen register.
use packages_services_vnc_fl.Input.Taken.{Takes, syn-Takes, key-Takes}
use packages_services_vnc_fl.Prelude.{
  ℕ, ◌-◌, Bool, true, false, List, [], ◌∷◌, ◌≡◌, refl, ◌&&◌, ltb, arith, if◌then◌else◌, some, inl,
  inr, Bool-cases, Option-cases, get_or, ◌==◌, suc, zero, not,
}
use packages_services_vnc_fl.Input.Codes.{
  key_leftshift, key_leftalt, key_max, ev_syn, syn_report, btn_mouse, btn_touch,
}
use packages_services_vnc_fl.Input.Kernel.{Kernel, Device}
use packages_services_vnc_fl.Input.Inject.{u16, press, release, is_ok, do_keyboard_event, inject}
use packages_services_vnc_fl.Input.Lifecycle.Registered.{wanted}
use packages_services_vnc_fl.Input.Keyboard.{
  scan_code, need_shift, fix_keysym, lookup_key, lookup_symbol, lookup_latin1, do_basic_key_event,
  latin_event, symbol_event, direct_event, dispatch_event, key_event,
}
use packages_services_vnc_fl.Input.Tables.{
  dead_chars_to_alt_char, latin1_to_dead_chars, spicial_keysym_to_direct_key,
  symbol_keysym_to_direct_key, qwerty,
}
use packages_services_vnc_fl.Prelude.Int.{pos}

-- A code that either pointer mode registers.
abbrev pub is_key : ℕ → Bool
is_key code = ltb code key_max && (not (code == btn_mouse) && not (code == btn_touch))

pub is_key-wanted :
    (touch : Bool) (code : ℕ) → is_key code ≡ true → (ltb code key_max && wanted touch code) ≡ true
is_key-wanted true code h = ground arith
is_key-wanted false code h = ground arith

-- The tables hold keys only.
keys_only : List (ℕ × ℕ) → Bool
keys_only [] = true
keys_only ((keysym, key) ∷ rows) = is_key key && keys_only rows

symbol_keys_only : List (ℕ × ℕ × Bool × Bool) → Bool
symbol_keys_only [] = true
symbol_keys_only ((keysym, key, shift, alt) ∷ rows) = is_key key && symbol_keys_only rows

all_keys : List ℕ → Bool
all_keys [] = true
all_keys (key ∷ keys) = is_key key && all_keys keys

lookup_key-is_key :
    (keysym key : ℕ) (rows : List (ℕ × ℕ))
    → keys_only rows ≡ true
    → lookup_key keysym rows ≡ some key
    → is_key key ≡ true
unfolding keys_only lookup_key
lookup_key-is_key keysym key [] h e = cc
lookup_key-is_key keysym key ((ks, v) ∷ rows) h e =
    ground (arith, lookup_key-is_key keysym key rows)

lookup_symbol-is_key :
    (keysym key : ℕ) (shift alt : Bool) (rows : List (ℕ × ℕ × Bool × Bool))
    → symbol_keys_only rows ≡ true
    → lookup_symbol keysym rows ≡ some (key, shift, alt)
    → is_key key ≡ true
unfolding symbol_keys_only lookup_symbol
lookup_symbol-is_key keysym key shift alt [] h e = cc
lookup_symbol-is_key keysym key shift alt ((ks, v, s, a) ∷ rows) h e =
    ground (arith, lookup_symbol-is_key keysym key shift alt rows)

lookup_latin1-is_key :
    (keysym alt base : ℕ) (rows : List (ℕ × ℕ × ℕ)) (alts : List (ℕ × ℕ))
    → keys_only alts ≡ true
    → lookup_latin1 keysym rows alts ≡ some (alt, base)
    → is_key alt ≡ true
unfolding lookup_latin1
lookup_latin1-is_key keysym alt base [] alts h e = cc
lookup_latin1-is_key keysym alt base ((ks, dead, b) ∷ rows) alts h e =
    ground
      (arith, lookup_latin1-is_key keysym alt base rows alts h, lookup_key-is_key dead alt alts h)

get_or-is_key : (keys : List ℕ) (i : ℕ) → all_keys keys ≡ true → is_key (get_or keys i 0) ≡ true
unfolding all_keys
get_or-is_key [] i h = refl
get_or-is_key (key ∷ keys) zero h = ground arith
get_or-is_key (key ∷ keys) (suc i) h = get_or-is_key keys i (ground arith)

qwerty-all_keys : all_keys qwerty ≡ true
unfolding all_keys qwerty
qwerty-all_keys = refl

special-keys_only : keys_only spicial_keysym_to_direct_key ≡ true
unfolding keys_only spicial_keysym_to_direct_key
special-keys_only = refl

alt-keys_only : keys_only dead_chars_to_alt_char ≡ true
unfolding keys_only dead_chars_to_alt_char
alt-keys_only = refl

symbol-keys_only : symbol_keys_only symbol_keysym_to_direct_key ≡ true
unfolding symbol_keys_only symbol_keysym_to_direct_key
symbol-keys_only = refl

scan_code-is_key : (code : ℕ) → is_key (scan_code code) ≡ true
unfolding scan_code
scan_code-is_key code = ground (
  arith,
  get_or-is_key qwerty (code - b'A') qwerty-all_keys,
  get_or-is_key qwerty (code - b'a') qwerty-all_keys,
)

u16-is_key : (code : ℕ) → is_key code ≡ true → is_key (u16 code) ≡ true
u16-is_key code h = ground arith

module _ (k : Kernel) {t : Bool} where
  press_or_release-Takes :
      (code : ℕ) (down : Bool) {d : Device}
      → is_key code ≡ true
      → Takes t d
      → Takes t ((if down then press k (u16 code) else release k (u16 code)) d).0
  unfolding press release
  press_or_release-Takes code true h s =
      key-Takes k (u16 code) (pos 1) (is_key-wanted t (u16 code) (u16-is_key code h)) s
  press_or_release-Takes code false h s =
      key-Takes k (u16 code) (pos 0) (is_key-wanted t (u16 code) (u16-is_key code h)) s

  do_keyboard_event-Takes :
      (code : ℕ) (down : Bool) {d : Device}
      → is_key code ≡ true
      → Takes t d
      → Takes t (do_keyboard_event k (u16 code) down d).0
  unfolding do_keyboard_event
  do_keyboard_event-Takes code down {d} h s =
      let d1 = (inject k ev_syn syn_report (pos 0) d).0 in
      let m = (if down then press k (u16 code) else release k (u16 code)) in
      let pressed = press_or_release-Takes code down h (syn-Takes k s) in
      elim (Bool-cases (is_ok (m d1).1)) [
        | inl e ↦ rw e (syn-Takes k pressed)
        | inr e ↦ rw e pressed
      ]

  do_basic_key_event-Takes :
      (code : ℕ) (down : Bool) {d : Device}
      → Takes t d
      → Takes t (do_basic_key_event k code down d).0
  unfolding do_basic_key_event
  do_basic_key_event-Takes code down {d} s =
      let key = scan_code-is_key code in
      elim (Bool-cases (scan_code code == 0)) [
        | inl unknown ↦ rw unknown s
        | inr known ↦ elim (Bool-cases (need_shift code)) [
          | inl upper ↦
              rw (known, upper)
                (do_keyboard_event-Takes (scan_code code) down key
                  (do_keyboard_event-Takes key_leftshift down refl s))
          | inr lower ↦ rw (known, lower) (do_keyboard_event-Takes (scan_code code) down key s)
        ]
      ]

  latin_event-Takes :
      (alt base : ℕ) (down : Bool) {d : Device}
      → is_key alt ≡ true
      → Takes t d
      → Takes t (latin_event k alt base down d).0
  unfolding latin_event
  latin_event-Takes alt base false h s = do_basic_key_event-Takes (u16 base) false s
  latin_event-Takes alt base true h s = do_basic_key_event-Takes (u16 base) true (
      do_keyboard_event-Takes alt false h (
        do_keyboard_event-Takes key_leftalt false refl
          (do_keyboard_event-Takes alt true h (do_keyboard_event-Takes key_leftalt true refl s))))

  symbol_event-Takes :
      (key : ℕ) (shift alt down : Bool) {d : Device}
      → is_key key ≡ true
      → Takes t d
      → Takes t (symbol_event k key shift alt down d).0
  unfolding symbol_event
  symbol_event-Takes key shift alt false h s = do_keyboard_event-Takes key false h s
  symbol_event-Takes key shift alt true h s = do_keyboard_event-Takes key_leftalt false refl (
      do_keyboard_event-Takes key_leftshift false refl (
        do_keyboard_event-Takes key true h (
          do_keyboard_event-Takes key_leftshift shift refl
            (do_keyboard_event-Takes key_leftalt alt refl s))))

  direct_event-Takes :
      (keysym : ℕ) (down : Bool) {d : Device} → Takes t d → Takes t (direct_event k keysym down d).0
  unfolding direct_event
  direct_event-Takes keysym down s =
      elim (Option-cases (lookup_key keysym spicial_keysym_to_direct_key)) [
        | inr (key, e) ↦
            let h = lookup_key-is_key keysym key _ special-keys_only e in
            rw (e, direct_event) (do_keyboard_event-Takes key down h s)
        | inl e ↦ elim (Option-cases (lookup_symbol keysym symbol_keysym_to_direct_key)) [
          | inr ((key, shift, alt), e') ↦
              let h = lookup_symbol-is_key keysym key shift alt _ symbol-keys_only e' in
              rw (e, e', direct_event) (symbol_event-Takes key shift alt down h s)
          | inl e' ↦ rw (e, e', direct_event) (do_basic_key_event-Takes (u16 keysym) down s)
        ]
      ]

  dispatch_event-Takes :
      (keysym : ℕ) (down : Bool) {d : Device}
      → Takes t d
      → Takes t (dispatch_event k keysym down d).0
  unfolding dispatch_event
  dispatch_event-Takes keysym down s =
      elim (Option-cases (lookup_latin1 keysym latin1_to_dead_chars dead_chars_to_alt_char)) [
        | inr ((alt, base), e) ↦
            let h = lookup_latin1-is_key keysym alt base _ _ alt-keys_only e in
            rw (e, dispatch_event) (latin_event-Takes alt base down h s)
        | inl e ↦ rw (e, dispatch_event) (direct_event-Takes keysym down s)
      ]

  pub key_event-Takes :
      (down : Bool) (keysym : ℕ) {d : Device} → Takes t d → Takes t (key_event k down keysym d).0
  unfolding key_event
  key_event-Takes down keysym s = simp s.live (dispatch_event-Takes (fix_keysym keysym) down s)
