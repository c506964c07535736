-- ===== src/Input/Keyboard/Balance.antt =====
-- A key press followed by its release leaves nothing down that the two of them touched.
use packages_services_vnc_fl.Prelude.{
  ℕ, ◌≡◌, refl, Bool, true, false, not, ◌&&◌, ◌||◌, [], ◌∷◌, ◌++◌, arith, inl, inr, Option-cases,
  ◌==◌, ap, ◌∙◌,
}
use packages_services_vnc_fl.Input.Codes.{key_leftalt}
use packages_services_vnc_fl.Input.Inject.{u16}
use packages_services_vnc_fl.Input.Writes.{held, held-append, Writes, Writes-trans}
use packages_services_vnc_fl.Input.Keyboard.{
  fix_keysym, lookup_key, lookup_symbol, lookup_latin1, key_event,
}
use packages_services_vnc_fl.Input.Keyboard.Actions.{
  Actions, basic_actions, latin_actions, symbol_actions, direct_actions, dispatch_actions,
  key_actions,
}
use packages_services_vnc_fl.Input.Tables.{
  dead_chars_to_alt_char, latin1_to_dead_chars, spicial_keysym_to_direct_key,
  symbol_keysym_to_direct_key,
}
use packages_services_vnc_fl.Input.Kernel.{Kernel, Device}
use packages_services_vnc_fl.Input.Keyboard.Refines.{key_event-Writes}

-- Whether a run of key writes names a key.
unfoldable pub touches : ℕ → Actions → Bool
touches code [] = false
touches code ((c, down) ∷ acts) = c == code || touches code acts

pub touches-append :
    (code : ℕ) (xs ys : Actions) → touches code (xs ++ ys) ≡ (touches code xs || touches code ys)
unfolding touches
touches-append code [] ys = refl
touches-append code ((c, down) ∷ xs) ys = ground (arith, touches-append code xs ys)

-- After `acts` exactly the keys are down that were down and that `acts` does not touch.
abbrev pub Releases : Actions → Type 0
Releases acts = (code : ℕ) (b : Bool) → held code b acts ≡ (b && not (touches code acts))

Releases-basic : (c : ℕ) → Releases (basic_actions c true ++ basic_actions c false)
unfolding held touches basic_actions
Releases-basic c code b = ground arith

-- Anything may come before a balanced run, as long as each key that it presses is let go.
pub Releases-append : (xs ys : Actions) → Releases xs → Releases ys → Releases (xs ++ ys)
Releases-append xs ys p q code b =
    ground (
      arith,
      held-append code b xs ys,
      touches-append code xs ys,
      p code b,
      q code (held code b xs),
    )

Releases-chord :
    (alt : ℕ)
    → Releases ((key_leftalt, true) ∷ (alt, true) ∷ (key_leftalt, false) ∷ (alt, false) ∷ [])
unfolding held touches
Releases-chord alt code b = ground arith

Releases-latin :
    (alt base : ℕ) → Releases (latin_actions alt base true ++ latin_actions alt base false)
unfolding latin_actions
Releases-latin alt base =
    Releases-append _ (basic_actions (u16 base) true ++ basic_actions (u16 base) false)
      (Releases-chord (u16 alt)) (Releases-basic (u16 base))

Releases-symbol :
    (key : ℕ) (shift alt : Bool)
    → Releases (symbol_actions key shift alt true ++ symbol_actions key shift alt false)
unfolding symbol_actions held touches
Releases-symbol key shift alt code b = ground arith

Releases-key : (key : ℕ) → Releases ((key, true) ∷ (key, false) ∷ [])
unfolding held touches
Releases-key key code b = ground arith

Releases-direct : (ks : ℕ) → Releases (direct_actions ks true ++ direct_actions ks false)
unfolding direct_actions
Releases-direct ks = elim (Option-cases (lookup_key ks spicial_keysym_to_direct_key)) [
  | inr (key, e) ↦ rw (e, direct_actions) (Releases-key (u16 key))
  | inl e ↦ elim (Option-cases (lookup_symbol ks symbol_keysym_to_direct_key)) [
    | inr ((key, shift, alt), e') ↦ rw (e, e', direct_actions) (Releases-symbol key shift alt)
    | inl e' ↦ rw (e, e', direct_actions) (Releases-basic (u16 ks))
  ]
]

Releases-dispatch : (ks : ℕ) → Releases (dispatch_actions ks true ++ dispatch_actions ks false)
unfolding dispatch_actions
Releases-dispatch ks =
    elim (Option-cases (lookup_latin1 ks latin1_to_dead_chars dead_chars_to_alt_char)) [
      | inr ((alt, base), e) ↦ rw (e, dispatch_actions) (Releases-latin alt base)
      | inl e ↦ rw (e, dispatch_actions) (Releases-direct ks)
    ]

pub key_actions-Releases : (ks : ℕ) → Releases (key_actions true ks ++ key_actions false ks)
unfolding key_actions
key_actions-Releases ks = Releases-dispatch (fix_keysym ks)

module _ (k : Kernel) (ks : ℕ) (d : Device) (h : d.opened ≡ true) where
  unfoldable pub pressed : Device
  pressed = (key_event k true ks d).0

  pressed-opened : pressed.opened ≡ true
  unfolding pressed
  pressed-opened = ap (λ (r : Device). r.opened) (key_event-Writes k true ks d h).framed ∙ h

  pub press_release-Writes :
      Writes d (key_actions true ks ++ key_actions false ks) (key_event k false ks pressed).0
  unfolding pressed
  press_release-Writes =
      Writes-trans d pressed (key_event k false ks pressed).0 _ _ (key_event-Writes k true ks d h)
        (key_event-Writes k false ks pressed pressed-opened)
