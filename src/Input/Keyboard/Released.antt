-- ===== src/Input/Keyboard/Released.antt =====
-- Keys that are held at the same time: a viewer presses and releases keys in any order.
use packages_services_vnc_fl.Prelude.{
  ℕ, ◌≡◌, refl, Bool, true, false, not, ◌&&◌, ◌||◌, List, [], ◌∷◌, ◌++◌, arith, inl, inr,
  Option-cases, Bool-cases, ◌==◌, ap, ◌∙◌,
}
use packages_services_vnc_fl.Input.Inject.{u16}
use packages_services_vnc_fl.Input.Writes.{
  held, held-append, Writes, Writes-refl, Writes-trans, key_writes,
}
use packages_services_vnc_fl.Input.Keyboard.{
  fix_keysym, lookup_key, lookup_symbol, lookup_latin1, key_event,
}
use packages_services_vnc_fl.Input.Keyboard.Actions.{
  Actions, basic_actions, latin_actions, symbol_actions, direct_actions, dispatch_actions,
  key_actions,
}
use packages_services_vnc_fl.Input.Keyboard.Balance.{
  touches, touches-append, Releases, Releases-append, key_actions-Releases,
}
use packages_services_vnc_fl.Input.Tables.{
  dead_chars_to_alt_char, latin1_to_dead_chars, spicial_keysym_to_direct_key,
  symbol_keysym_to_direct_key,
}
use packages_services_vnc_fl.Input.Kernel.{Kernel, Device}
use packages_services_vnc_fl.Input.Keyboard.Refines.{key_event-Writes}

-- The release of a keysym presses nothing.
release-basic : (c : ℕ) → Releases (basic_actions c false)
unfolding held touches basic_actions
release-basic c code b = ground arith

release-key : (key : ℕ) → Releases ((key, false) ∷ [])
unfolding held touches
release-key key code b = ground arith

release-direct : (ks : ℕ) → Releases (direct_actions ks false)
unfolding direct_actions symbol_actions
release-direct ks = elim (Option-cases (lookup_key ks spicial_keysym_to_direct_key)) [
  | inr (key, e) ↦ rw (e, direct_actions) (release-key (u16 key))
  | inl e ↦ elim (Option-cases (lookup_symbol ks symbol_keysym_to_direct_key)) [
    | inr ((key, shift, alt), e') ↦ rw (e, e', direct_actions) (release-key (u16 key))
    | inl e' ↦ rw (e, e', direct_actions) (release-basic (u16 ks))
  ]
]

release-dispatch : (ks : ℕ) → Releases (dispatch_actions ks false)
unfolding dispatch_actions latin_actions
release-dispatch ks =
    elim (Option-cases (lookup_latin1 ks latin1_to_dead_chars dead_chars_to_alt_char)) [
      | inr ((alt, base), e) ↦ rw (e, dispatch_actions) (release-basic (u16 base))
      | inl e ↦ rw (e, dispatch_actions) (release-direct ks)
    ]

release-Releases : (ks : ℕ) → Releases (key_actions false ks)
unfolding key_actions
release-Releases ks = release-dispatch (fix_keysym ks)

-- What a press leaves of a key that its release does not write.
press-held :
    (ks code : ℕ) (b : Bool)
    → touches code (key_actions false ks) ≡ false
    → held code b (key_actions true ks) ≡ (b && not (touches code (key_actions true ks)))
press-held ks code b h = ground (
  arith,
  h,
  key_actions-Releases ks code b,
  held-append code b (key_actions true ks) (key_actions false ks),
  touches-append code (key_actions true ks) (key_actions false ks),
  release-Releases ks code (held code b (key_actions true ks)),
)

-- The key events of a viewer, each the press (true) or the release of a keysym.
abbrev pub KeyEvents : Type 0
KeyEvents = List (Bool × ℕ)

unfoldable pub send_keys : Kernel → KeyEvents → Device → Device
send_keys k [] d = d
send_keys k ((down, ks) ∷ es) d = send_keys k es (key_event k down ks d).0

unfoldable pub keys_actions : KeyEvents → Actions
keys_actions [] = []
keys_actions ((down, ks) ∷ es) = key_actions down ks ++ keys_actions es

-- Each press is followed, at some time, by a release of the same keysym.
unfoldable pub lets_go : ℕ → KeyEvents → Bool
lets_go keysym [] = false
lets_go keysym ((down, ks) ∷ es) = (not down && ks == keysym) || lets_go keysym es

unfoldable pub lets_all_go : KeyEvents → Bool
unfolding lets_go
lets_all_go [] = true
lets_all_go ((true, ks) ∷ es) = lets_go ks es && lets_all_go es
lets_all_go ((false, ks) ∷ es) = lets_all_go es

touches-lets_go :
    (code ks : ℕ) (es : KeyEvents)
    → lets_go ks es ≡ true
    → touches code (key_actions false ks) ≡ true
    → touches code (keys_actions es) ≡ true
unfolding lets_go keys_actions
touches-lets_go code ks [] g t = cc
touches-lets_go code ks ((true, j) ∷ es) g t =
    ground (
      arith,
      touches-append code (key_actions true j) (keys_actions es),
      touches-lets_go code ks es,
    )
touches-lets_go code ks ((false, j) ∷ es) g t = elim (Bool-cases (j == ks)) [
  | inl y ↦
      let same : j ≡ ks = ground arith in
      touches-append code (key_actions false j) (keys_actions es) ∙ rw (same, t) refl
  | inr n ↦ ground (
    arith,
    n,
    touches-append code (key_actions false j) (keys_actions es),
    touches-lets_go code ks es,
  )
]

Releases-nil : Releases []
unfolding held touches
Releases-nil code b = ground arith

press-Releases :
    (ks : ℕ) (es : KeyEvents)
    → lets_go ks es ≡ true
    → Releases (keys_actions es)
    → Releases (key_actions true ks ++ keys_actions es)
press-Releases ks es g r code b = ground (
  arith,
  Bool-cases (touches code (key_actions false ks)),
  touches-lets_go code ks es g,
  press-held ks code b,
  held-append code b (key_actions true ks) (keys_actions es),
  touches-append code (key_actions true ks) (keys_actions es),
  r code (held code b (key_actions true ks)),
)

keys_actions-Releases : (es : KeyEvents) → lets_all_go es ≡ true → Releases (keys_actions es)
unfolding lets_all_go keys_actions
keys_actions-Releases [] g = Releases-nil
keys_actions-Releases ((false, ks) ∷ es) g =
    Releases-append (key_actions false ks) (keys_actions es) (release-Releases ks)
      (keys_actions-Releases es g)
keys_actions-Releases ((true, ks) ∷ es) g =
    press-Releases ks es (ground arith) (keys_actions-Releases es (ground arith))

pub send_keys-Writes :
    (k : Kernel) (es : KeyEvents) (d : Device)
    → d.opened ≡ true
    → Writes d (keys_actions es) (send_keys k es d)
unfolding send_keys keys_actions
send_keys-Writes k [] d h = Writes-refl d
send_keys-Writes k ((down, ks) ∷ es) d h =
    let w = key_event-Writes k down ks d h in
    let e = (key_event k down ks d).0 in
    let live = ap (λ (r : Device). r.opened) w.framed ∙ h in
    Writes-trans d e (send_keys k es e) (key_actions down ks) (keys_actions es) w
      (send_keys-Writes k es e live)

-- On an open device, any sequence of key events in which each press is followed at some time by a
-- release of its keysym, however the keys overlap, leaves exactly those keys down that were down
-- before and that none of the events wrote: every key that was pressed (Shift, Alt and the chords of
-- accents included) is up again.
pub overlapping_keys_balanced :
    (k : Kernel) (es : KeyEvents) (d : Device) (code : ℕ)
    → d.opened ≡ true
    → lets_all_go es ≡ true
    → held code false (key_writes (send_keys k es d).calls)
      ≡ (held code false (key_writes d.calls) && not (touches code (keys_actions es)))
overlapping_keys_balanced k es d code h g =
    let before = held code false (key_writes d.calls) in
    rw (send_keys-Writes k es d h).written (
      held-append code false (key_writes d.calls) (keys_actions es)
      ∙ keys_actions-Releases es g code before)
