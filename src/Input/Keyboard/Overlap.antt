-- ===== src/Input/Keyboard/Overlap.antt =====
-- Letters that are held together share one Shift key.
use packages_services_vnc_fl.Prelude.{
  ℕ, ◌+◌, ◌-◌, ◌<◌, ◌≤◌, ◌≡◌, refl, Bool, true, false, not, ◌&&◌, [], ◌∷◌, ◌++◌, arith, ap, ◌∙◌,
  checked, test-of_checked, append-nil,
}
use packages_services_vnc_fl.Input.Codes.{key_leftshift, key_leftalt}
use packages_services_vnc_fl.Input.Kernel.{Kernel, Device}
use packages_services_vnc_fl.Input.Writes.{held, held-append, key_writes}
use packages_services_vnc_fl.Input.Keyboard.{
  fix_keysym, scan_code, need_shift, lookup_key, lookup_symbol, lookup_latin1,
}
use packages_services_vnc_fl.Input.Keyboard.Actions.{
  Actions, key_actions, dispatch_actions, direct_actions, basic_actions, latin_actions,
  symbol_actions,
}
use packages_services_vnc_fl.Input.Keyboard.Layout.{
  typed, typed_from, us_char, types_one, types_one-eq,
}
use packages_services_vnc_fl.Input.Keyboard.Released.{
  KeyEvents, send_keys, keys_actions, send_keys-Writes,
}
use packages_services_vnc_fl.Input.Keyboard.Text.{typed_from-append}
use packages_services_vnc_fl.Input.Tables.{
  keysym_to_ascii, dead_chars_to_alt_char, latin1_to_dead_chars, qwerty,
  spicial_keysym_to_direct_key, symbol_keysym_to_direct_key,
}

-- Nothing goes down.
lifts : Actions → Bool
lifts [] = true
lifts ((code, down) ∷ acts) = not down && lifts acts

typed_from-lifts :
    (shift alt : Bool) (acts : Actions) → lifts acts ≡ true → typed_from shift alt acts ≡ []
unfolding lifts typed_from
typed_from-lifts shift alt [] h = refl
typed_from-lifts shift alt ((code, down) ∷ acts) h = ground (
  arith,
  typed_from-lifts shift alt acts,
  typed_from-lifts down alt acts,
  typed_from-lifts shift down acts,
  typed_from-lifts down down acts,
)

-- A capital types itself and leaves Shift down, which its release lifts.
capital : ℕ → Bool
capital n =
    let c = n + 65 in
    types_one c (typed (key_actions true c))
    && (held key_leftshift false (key_actions true c)
        && (not (held key_leftalt false (key_actions true c))
            && (lifts (key_actions false c)
                && not (held key_leftshift true (key_actions true c ++ key_actions false c)))))

capital_table : checked capital 26 ≡ true
unfolding capital held lifts types_one typed typed_from us_char key_actions dispatch_actions
    direct_actions basic_actions latin_actions symbol_actions fix_keysym scan_code need_shift
    lookup_key lookup_symbol lookup_latin1 keysym_to_ascii dead_chars_to_alt_char
    latin1_to_dead_chars qwerty spicial_keysym_to_direct_key symbol_keysym_to_direct_key checked
capital_table = refl

-- A small letter that goes down under Shift types the capital, and its release types nothing.
shifted_small : ℕ → Bool
shifted_small n =
    types_one (n + 65) (typed_from true false (key_actions true (n + 97)))
    && lifts (key_actions false (n + 97))

shifted_small_table : checked shifted_small 26 ≡ true
unfolding shifted_small lifts types_one typed_from us_char key_actions dispatch_actions
    direct_actions basic_actions latin_actions symbol_actions fix_keysym scan_code need_shift
    lookup_key lookup_symbol lookup_latin1 keysym_to_ascii dead_chars_to_alt_char
    latin1_to_dead_chars qwerty spicial_keysym_to_direct_key symbol_keysym_to_direct_key checked
shifted_small_table = refl

lifts-append : (xs ys : Actions) → lifts xs ≡ true → lifts ys ≡ true → lifts (xs ++ ys) ≡ true
unfolding lifts
lifts-append [] ys p q = q
lifts-append (x ∷ xs) ys p q = ground (arith, lifts-append xs ys)

-- A capital and a small letter, each released after both are down.
abbrev pub rolled : ℕ → ℕ → KeyEvents
rolled u l = (true, u) ∷ (true, l) ∷ (false, u) ∷ (false, l) ∷ []

record Capital (u : ℕ) : Type 0 where
  pub types : typed (key_actions true u) ≡ u ∷ []
  pub shift_down : held key_leftshift false (key_actions true u) ≡ true
  pub alt_up : held key_leftalt false (key_actions true u) ≡ false
  pub lets_go : lifts (key_actions false u) ≡ true
  pub shift_up : held key_leftshift true (key_actions true u ++ key_actions false u) ≡ false

capital-Capital : (n : ℕ) → capital n ≡ true → Capital (n + 65)
unfolding capital
capital-Capital n h = record {
  types = types_one-eq (n + 65) _ (ground arith);
  shift_down = ground arith;
  alt_up = ground arith;
  lets_go = ground arith;
  shift_up = ground arith;
}

letter-Capital : (n : ℕ) → n < 26 → Capital (n + 65)
letter-Capital n h = capital-Capital n (test-of_checked capital 26 n h capital_table)

small_under_shift :
    (n : ℕ)
    → n < 26
    → (typed_from true false (key_actions true (n + 97)) ≡ (n + 65) ∷ [])
      × (lifts (key_actions false (n + 97)) ≡ true)
unfolding shifted_small
small_under_shift n h =
    let t = test-of_checked shifted_small 26 n h shifted_small_table in
    (types_one-eq (n + 65) _ (ground (arith, t)), ground (arith, t))

typed-rolled :
    (n m : ℕ)
    → n < 26
    → m < 26
    → typed (keys_actions (rolled (n + 65) (m + 97))) ≡ (n + 65) ∷ (m + 65) ∷ []
unfolding typed keys_actions lifts
typed-rolled n m hn hm =
    let capital_down = key_actions true (n + 65) in
    let small_down = key_actions true (m + 97) in
    let let_go = key_actions false (n + 65) ++ (key_actions false (m + 97) ++ []) in
    let c = letter-Capital n hn in
    let s = small_under_shift m hm in
    let lifted : lifts let_go ≡ true =
      lifts-append (key_actions false (n + 65)) _ c.lets_go
        (lifts-append (key_actions false (m + 97)) [] s.1 refl) in
    typed_from-append false false capital_down (small_down ++ let_go)
    ∙ rw (c.types, c.shift_down, c.alt_up)
        (ap (λ cs. (n + 65) ∷ cs)
          (typed_from-append true false small_down let_go
            ∙ rw s.0 (ap (λ cs. (m + 65) ∷ cs) (typed_from-lifts _ _ let_go lifted))))

-- Shift_L goes down, and a capital is typed under it.
abbrev pub under_shift : ℕ → KeyEvents
under_shift u = (true, 0xffe1) ∷ (true, u) ∷ (false, u) ∷ []

shift_l-held : (b : Bool) → held key_leftshift b (key_actions true 0xffe1) ≡ true
unfolding held key_actions dispatch_actions direct_actions fix_keysym lookup_key lookup_latin1
    keysym_to_ascii dead_chars_to_alt_char latin1_to_dead_chars spicial_keysym_to_direct_key
shift_l-held b = refl

under_shift-held :
    (u : ℕ) (b : Bool) → Capital u → held key_leftshift b (keys_actions (under_shift u)) ≡ false
unfolding keys_actions
under_shift-held u b c =
    held-append key_leftshift b (key_actions true 0xffe1) _
    ∙ rw (shift_l-held b, append-nil (key_actions false u)) c.shift_up

-- On an open device, for every capital letter u and small letter l: the presses of u and l and then
-- their releases add key writes that a US keyboard, with Shift and Alt up before them, reads as u and
-- the capital of l; and after the press of Shift_L, the press of u and the release of u, the key writes
-- leave the left Shift key up.
pub capitals_share_shift :
    (k : Kernel) (u l : ℕ) (d : Device)
    → d.opened ≡ true
    → b'A' ≤ u
    → u ≤ b'Z'
    → b'a' ≤ l
    → l ≤ b'z'
    → ((acts : Actions) × (key_writes (send_keys k (rolled u l) d).calls
          ≡ key_writes d.calls ++ acts)
        × (typed acts ≡ u ∷ (l - 32) ∷ []))
      × (held key_leftshift false (key_writes (send_keys k (under_shift u) d).calls) ≡ false)
capitals_share_shift k u l d h lo hi lo' hi' =
    let eu : u - 65 + 65 ≡ u = omega arith in
    let el : l - 97 + 97 ≡ l = omega arith in
    let el' : l - 97 + 65 ≡ l - 32 = omega arith in
    let t = (rw (eu, el, el') at (typed-rolled (u - 65) (l - 97) (omega arith) (omega arith))) in
    let c = (rw eu at (letter-Capital (u - 65) (omega arith))) in
    (
      (keys_actions (rolled u l), (send_keys-Writes k (rolled u l) d h).written, t),
      rw (send_keys-Writes k (under_shift u) d h).written
          (held-append key_leftshift false (key_writes d.calls) _ ∙ under_shift-held u _ c),
    )
