-- ===== src/Input/Keyboard/Refines.antt =====
-- `keyEvent` makes exactly the key writes of `key_actions`.
use packages_services_vnc_fl.Prelude.{
  ℕ, ◌≡◌, Bool, true, false, [], ◌∷◌, ◌++◌, arith, inl, inr, Option-cases,
}
use packages_services_vnc_fl.Input.Codes.{key_leftshift, key_leftalt}
use packages_services_vnc_fl.Input.Kernel.{Kernel, Device}
use packages_services_vnc_fl.Input.Inject.{u16, do_keyboard_event}
use packages_services_vnc_fl.Input.Writes.{
  Writes, Writes-refl, Writes-trans, do_keyboard_event-Writes, key_writes,
}
use packages_services_vnc_fl.Input.Keyboard.{
  scan_code, fix_keysym, do_basic_key_event, latin_event, symbol_event, direct_event,
  dispatch_event, key_event, lookup_key, lookup_symbol, lookup_latin1,
}
use packages_services_vnc_fl.Input.Keyboard.Actions.{
  Actions, basic_actions, latin_actions, symbol_actions, direct_actions, dispatch_actions,
  key_actions,
}
use packages_services_vnc_fl.Input.Tables.{
  dead_chars_to_alt_char, latin1_to_dead_chars, spicial_keysym_to_direct_key,
  symbol_keysym_to_direct_key,
}

-- One key event more.
Writes-snoc :
    (k : Kernel) (code : ℕ) (down : Bool) (d e : Device) (xs : Actions)
    → Writes d xs e
    → Writes d (xs ++ (code, down) ∷ []) (do_keyboard_event k code down e).0
Writes-snoc k code down d e xs p =
    Writes-trans d e (do_keyboard_event k code down e).0 xs ((code, down) ∷ []) p
      (do_keyboard_event-Writes k code down e)

do_basic_key_event-Writes :
    (k : Kernel) (code : ℕ) (down : Bool) (d : Device)
    → Writes d (basic_actions code down) (do_basic_key_event k code down d).0
unfolding do_basic_key_event basic_actions
do_basic_key_event-Writes k code down d =
    let c = u16 (scan_code code) in
    let shifted = (do_keyboard_event k key_leftshift down d).0 in
    ground (
      arith,
      Writes-refl d,
      do_keyboard_event-Writes k c down d,
      Writes-snoc k c down d shifted ((key_leftshift, down) ∷ []),
      do_keyboard_event-Writes k key_leftshift down d,
    )

latin_event-Writes :
    (k : Kernel) (alt base : ℕ) (down : Bool) (d : Device)
    → Writes d (latin_actions alt base down) (latin_event k alt base down d).0
unfolding latin_event latin_actions
latin_event-Writes k alt base false d = do_basic_key_event-Writes k (u16 base) false d
latin_event-Writes k alt base true d =
    let a = (do_keyboard_event k key_leftalt true d).0 in
    let b = (do_keyboard_event k (u16 alt) true a).0 in
    let c = (do_keyboard_event k key_leftalt false b).0 in
    let e = (do_keyboard_event k (u16 alt) false c).0 in
    let p1 = do_keyboard_event-Writes k key_leftalt true d in
    let p2 = Writes-snoc k (u16 alt) true d a _ p1 in
    let p3 = Writes-snoc k key_leftalt false d b _ p2 in
    let p4 = Writes-snoc k (u16 alt) false d c _ p3 in
    Writes-trans d e (do_basic_key_event k (u16 base) true e).0 _ (basic_actions (u16 base) true) p4
      (do_basic_key_event-Writes k (u16 base) true e)

symbol_event-Writes :
    (k : Kernel) (key : ℕ) (shift alt down : Bool) (d : Device)
    → Writes d (symbol_actions key shift alt down) (symbol_event k key shift alt down d).0
unfolding symbol_event symbol_actions
symbol_event-Writes k key shift alt false d = do_keyboard_event-Writes k (u16 key) false d
symbol_event-Writes k key shift alt true d =
    let a = (do_keyboard_event k key_leftalt alt d).0 in
    let b = (do_keyboard_event k key_leftshift shift a).0 in
    let c = (do_keyboard_event k (u16 key) true b).0 in
    let e = (do_keyboard_event k key_leftshift false c).0 in
    let p1 = do_keyboard_event-Writes k key_leftalt alt d in
    let p2 = Writes-snoc k key_leftshift shift d a _ p1 in
    let p3 = Writes-snoc k (u16 key) true d b _ p2 in
    let p4 = Writes-snoc k key_leftshift false d c _ p3 in Writes-snoc k key_leftalt false d e _ p4

direct_event-Writes :
    (k : Kernel) (keysym : ℕ) (down : Bool) (d : Device)
    → Writes d (direct_actions keysym down) (direct_event k keysym down d).0
unfolding direct_event direct_actions
direct_event-Writes k keysym down d =
    elim (Option-cases (lookup_key keysym spicial_keysym_to_direct_key)) [
      | inr (key, e) ↦
          rw (e, direct_event, direct_actions) (do_keyboard_event-Writes k (u16 key) down d)
      | inl e ↦ elim (Option-cases (lookup_symbol keysym symbol_keysym_to_direct_key)) [
        | inr ((key, shift, alt), e') ↦
            rw (e, e', direct_event, direct_actions) (symbol_event-Writes k key shift alt down d)
        | inl e' ↦
            rw (e, e', direct_event, direct_actions)
              (do_basic_key_event-Writes k (u16 keysym) down d)
      ]
    ]

dispatch_event-Writes :
    (k : Kernel) (keysym : ℕ) (down : Bool) (d : Device)
    → Writes d (dispatch_actions keysym down) (dispatch_event k keysym down d).0
unfolding dispatch_event dispatch_actions
dispatch_event-Writes k keysym down d =
    elim (Option-cases (lookup_latin1 keysym latin1_to_dead_chars dead_chars_to_alt_char)) [
      | inr ((alt, base), e) ↦
          rw (e, dispatch_event, dispatch_actions) (latin_event-Writes k alt base down d)
      | inl e ↦ rw (e, dispatch_event, dispatch_actions) (direct_event-Writes k keysym down d)
    ]

pub key_event-Writes :
    (k : Kernel) (down : Bool) (keysym : ℕ) (d : Device)
    → d.opened ≡ true
    → Writes d (key_actions down keysym) (key_event k down keysym d).0
unfolding key_event key_actions
key_event-Writes k down keysym d h = simp h (dispatch_event-Writes k (fix_keysym keysym) down d)

-- On an open device, for every keysym and whatever the kernel answers, `keyEvent` changes nothing
-- of the device but its log, and the key writes it adds there are exactly those of `key_actions`,
-- in that order.
pub key_event-key_actions :
    (k : Kernel) (down : Bool) (keysym : ℕ) (d : Device)
    → d.opened ≡ true
    → let d' = (key_event k down keysym d).0 in
      (key_writes d'.calls ≡ key_writes d.calls ++ key_actions down keysym)
      × (d' ≡ record d { calls = d'.calls })
key_event-key_actions k down keysym d h =
    let w = key_event-Writes k down keysym d h in (w.written, w.framed)
