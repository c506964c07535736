-- ===== src/Input/Lifecycle/Ready.antt =====
-- What `start` leaves: a device ready for pointer events, or one that is as closed as it was.
use packages_services_vnc_fl.Input.Kernel.{
  Kernel, Device, BitRequest, set_bit, ui_set_keybit, Status, ok, no_init,
}
use packages_services_vnc_fl.Input.Lifecycle.{
  Options, set_options, set_keys, configure, open_device, open_and_configure, err_ioctl, start,
  reset, k_options, m_options, stop, start_with,
}
use packages_services_vnc_fl.Input.Pointer.Reading.{down, rel_at}
use packages_services_vnc_fl.Input.Pointer.Buttons.{Agrees}
use packages_services_vnc_fl.Prelude.{
  ℕ, ◌∙◌, ◌≡◌, suc, ◌∷◌, ◌+◌, Bool-cases, inl, inr, not, [], ◌&&◌, ◌==◌, zero, false, Bool, refl,
  if◌then◌else◌, arith, true, ◌⊎◌, none, sym,
}
use packages_services_vnc_fl.Prelude.Int.{ℤ, pos}
use packages_services_vnc_fl.Input.Codes.{btn_touch, btn_mouse, rel_x, key_max, rel_y}

-- A step that writes no event leaves what can be seen of the device, and what `start` has reset.
record Quiet (d e : Device) : Type 0 where
  downs : (code : ℕ) → down code e.calls ≡ down code d.calls
  rels : (axis : ℕ) (p : ℤ) → rel_at axis p e.calls ≡ rel_at axis p d.calls
  clicks :
      (e.left_clicked ≡ d.left_clicked)
      × (e.right_clicked ≡ d.right_clicked)
      × (e.middle_clicked ≡ d.middle_clicked)
  lasts : (e.last_x ≡ d.last_x) × (e.last_y ≡ d.last_y)
  modes :
      (e.touch ≡ d.touch) × (e.use_relative_input ≡ d.use_relative_input) × (e.opened ≡ d.opened)

Quiet-refl : (d : Device) → Quiet d d
Quiet-refl d = record {
  downs = λ code. refl;
  rels = λ axis p. refl;
  clicks = (refl, refl, refl);
  lasts = (refl, refl);
  modes = (refl, refl, refl);
}

Quiet-trans : (d e f : Device) → Quiet d e → Quiet e f → Quiet d f
Quiet-trans d e f a b = record {
  downs = λ code. b.downs code ∙ a.downs code;
  rels = λ axis p. b.rels axis p ∙ a.rels axis p;
  clicks = (b.clicks.0 ∙ a.clicks.0, b.clicks.1 ∙ a.clicks.1, b.clicks.2 ∙ a.clicks.2);
  lasts = (b.lasts.0 ∙ a.lasts.0, b.lasts.1 ∙ a.lasts.1);
  modes = (b.modes.0 ∙ a.modes.0, b.modes.1 ∙ a.modes.1, b.modes.2 ∙ a.modes.2);
}

Quiet-set_bit :
    (d : Device) (r : BitRequest) (n : ℕ)
    → Quiet d (record d { calls = set_bit d.fd r n ∷ d.calls })
unfolding down rel_at
Quiet-set_bit d r n = record {
  downs = λ code. refl;
  rels = λ axis p. refl;
  clicks = (refl, refl, refl);
  lasts = (refl, refl);
  modes = (refl, refl, refl);
}

set_options-Quiet : (k : Kernel) (os : Options) (d : Device) → Quiet d (set_options k os d).0
unfolding set_options
set_options-Quiet k [] d = Quiet-refl d
set_options-Quiet k ((r, bit) ∷ os) d =
    let e = record d { calls = set_bit d.fd r bit ∷ d.calls } in
    elim (Bool-cases (k.accepts d.calls (set_bit d.fd r bit))) [
      | inl y ↦ rw y (Quiet-trans d e _ (Quiet-set_bit d r bit) (set_options-Quiet k os e))
      | inr n ↦ rw n (Quiet-set_bit d r bit)
    ]

set_keys-Quiet : (k : Kernel) (n idx : ℕ) (d : Device) → Quiet d (set_keys k n idx d).0
unfolding set_keys
set_keys-Quiet k zero idx d = Quiet-refl d
set_keys-Quiet k (suc n) idx d =
    let e = record d { calls = set_bit d.fd ui_set_keybit idx ∷ d.calls } in
    let skipped = set_keys-Quiet k n (idx + 1) d in
    elim (Bool-cases (not d.touch && idx == btn_touch)) [
      | inl y ↦ rw y skipped
      | inr a ↦ elim (Bool-cases (d.touch && idx == btn_mouse)) [
        | inl y ↦ rw (a, y) skipped
        | inr b ↦ elim (Bool-cases (k.accepts d.calls (set_bit d.fd ui_set_keybit idx))) [
          | inl y ↦
              rw (a, b, y)
                (Quiet-trans d e _ (Quiet-set_bit d ui_set_keybit idx)
                  (set_keys-Quiet k n (idx + 1) e))
          | inr c ↦ rw (a, b, c) (Quiet-set_bit d ui_set_keybit idx)
        ]
      ]
    ]

configure-Quiet :
    (k : Kernel) (width height : ℕ) (d : Device) → Quiet d (configure k width height d).0
unfolding configure down rel_at
configure-Quiet k width height d =
    let os = (if d.touch then k_options else m_options) in
    let d1 = (set_options k os d).0 in
    let d2 = (set_keys k key_max 0 d1).0 in
    let q = Quiet-trans d d1 d2 (set_options-Quiet k os d) (set_keys-Quiet k key_max 0 d1) in
    record {
      downs = λ code. ground (arith, (set_options-Quiet k os d).downs code, q.downs code);
      rels = λ axis p. ground (arith, (set_options-Quiet k os d).rels axis p, q.rels axis p);
      clicks = ground (arith, set_options-Quiet k os d, q);
      lasts = ground (arith, set_options-Quiet k os d, q);
      modes = ground (arith, set_options-Quiet k os d, q);
    }

-- The device as pointer events want it: open in the modes asked for, every button up on both sides,
-- and the relative axes at the position that it remembers.
pub record Ready (istouch relative : Bool) (e : Device) : Type 0 where
  pub opened : e.opened ≡ true
  pub agrees : Agrees e
  pub touch : e.touch ≡ istouch
  pub relative_input : e.use_relative_input ≡ relative
  pub origin_x : rel_at rel_x (pos 0) e.calls ≡ e.last_x
  pub origin_y : rel_at rel_y (pos 0) e.calls ≡ e.last_y

open_device-fresh :
    (k : Kernel) (d : Device) (code axis : ℕ) (p : ℤ)
    → let e = (open_device k d).0 in (down code e.calls ≡ false) × (rel_at axis p e.calls ≡ p)
unfolding open_device down rel_at
open_device-fresh k d code axis p = ground arith

-- What `open_device` leaves of a device that was just reset.
abbrev Reset : Bool → Bool → Device → Device → Type 0
Reset istouch relative d e =
    (e.left_clicked ≡ false)
    × (e.right_clicked ≡ false)
    × (e.middle_clicked ≡ false)
    × (e.last_x ≡ pos 0)
    × (e.last_y ≡ pos 0)
    × (e.touch ≡ istouch)
    × (e.use_relative_input ≡ relative)
    × (e.opened ≡ d.opened)

open_device-clicks :
    (k : Kernel) (istouch relative : Bool) (d : Device)
    → Reset istouch relative d (open_device k (reset istouch relative d)).0
unfolding open_device reset
open_device-clicks k istouch relative d = ground arith

abbrev pub StartEnds : Bool → Bool → Device → Device × Status → Type 0
StartEnds istouch relative d r =
    ((r.1 ≡ ok) × Ready istouch relative r.0)
    ⊎ ((r.1 ≡ no_init) × (r.0.fd ≡ none) × (r.0.opened ≡ d.opened))

open_device-failed :
    (k : Kernel) (d : Device) → (open_device k d).1 ≡ false → (open_device k d).0.fd ≡ none
unfolding open_device
open_device-failed k d h = ground arith

configured-Ready :
    (k : Kernel) (istouch relative : Bool) (d e c : Device)
    → Quiet e c
    → Reset istouch relative d e
    → ((code axis : ℕ) (p : ℤ) → (down code e.calls ≡ false) × (rel_at axis p e.calls ≡ p))
    → Ready istouch relative (record c { opened = true })
configured-Ready k istouch relative d e c q m f = record {
  opened = refl;
  agrees = record {
    left = q.downs _ ∙ (f _ 0 (pos 0)).0 ∙ sym (q.clicks.0 ∙ m.0);
    right = q.downs _ ∙ (f _ 0 (pos 0)).0 ∙ sym (q.clicks.1 ∙ m.1);
    middle = q.downs _ ∙ (f _ 0 (pos 0)).0 ∙ sym (q.clicks.2 ∙ m.2);
  };
  touch = q.modes.0 ∙ m.5;
  relative_input = q.modes.1 ∙ m.6;
  origin_x = q.rels rel_x (pos 0) ∙ (f 0 rel_x (pos 0)).1 ∙ sym (q.lasts.0 ∙ m.3);
  origin_y = q.rels rel_y (pos 0) ∙ (f 0 rel_y (pos 0)).1 ∙ sym (q.lasts.1 ∙ m.4);
}

open_and_configure-ends :
    (k : Kernel) (width height : ℕ) (istouch relative : Bool) (d : Device)
    → StartEnds istouch relative d (open_and_configure k width height (reset istouch relative d))
unfolding open_and_configure err_ioctl
open_and_configure-ends k width height istouch relative d =
    let r = reset istouch relative d in
    let e = (open_device k r).0 in
    let c = (configure k width height e).0 in
    let q = configure-Quiet k width height e in
    let m = open_device-clicks k istouch relative d in
    let f = open_device-fresh k r in
    elim (Bool-cases (open_device k r).1) [
      | inr n ↦ rw n (inr (refl, open_device-failed k r n, m.7))
      | inl y ↦ elim (Bool-cases (configure k width height e).1) [
        | inr n ↦ rw (y, n) (inr (refl, refl, q.modes.2 ∙ m.7))
        | inl z ↦ rw (y, z) (inl (refl, configured-Ready k istouch relative d e c q m f))
      ]
    ]

pub start_ends :
    (k : Kernel) (width height : ℕ) (istouch relative : Bool) (d : Device)
    → d.fd ≡ none
    → StartEnds istouch relative d (start k width height istouch relative d)
unfolding start start_with
start_ends k width height istouch relative d h =
    simp (h, start_with) (open_and_configure-ends k width height istouch relative d)

pub stop_closed :
    (k : Kernel) (d : Device) → ((stop k d).0.fd ≡ none) × ((stop k d).0.opened ≡ false)
unfolding stop
stop_closed k d = ground arith
