-- ===== src/Input/Pointer/Position.antt =====
-- Where `pointerEvent` leaves the pointer, and that each of its reports is complete.
use packages_services_vnc_fl.Prelude.{
  ℕ, ◌≡◌, true, arith, false, ◌∙◌, ◌||◌, not, Bool-cases, inr, inl,
}
use packages_services_vnc_fl.Prelude.Int.{ℤ, ◌+ℤ◌, i32, ◌-ℤ◌, IsInt32, pos, i32-of_IsInt32, +ℤ-sub}
use packages_services_vnc_fl.Input.Kernel.{Kernel, Device}
use packages_services_vnc_fl.Input.Inject.{inject}
use packages_services_vnc_fl.Input.Pointer.{
  left_button, pointer_event, right_button, wheel, middle_button, track, bit,
}
use packages_services_vnc_fl.Input.Pointer.Reading.{abs_at, rel_at, synced}
use packages_services_vnc_fl.Input.Codes.{abs_x, abs_y, rel_x, rel_y}
use packages_services_vnc_fl.Input.Pointer.Still.{
  track_complete, left_button-Still, Still, Still-trans, right_button-Still, middle_button-Still,
  wheel-Still,
}

module _ (k : Kernel) (mask : ℕ) (x y : ℤ) (d : Device) where
  -- All that follows the left button.
  after_left : Device
  after_left =
      let e = (right_button k mask x y d).0 in
      let f = (middle_button k mask x y e).0 in (wheel k mask f).0

  after_left-Still : Still x y d after_left
  unfolding after_left
  after_left-Still =
      let e = (right_button k mask x y d).0 in
      let f = (middle_button k mask x y e).0 in
      Still-trans x y d e (wheel k mask f).0 (right_button-Still k mask x y d) (
        Still-trans x y e f (wheel k mask f).0 (middle_button-Still k mask x y e)
          (wheel-Still k mask x y f))

module _ (k : Kernel) (mask : ℕ) (x y : ℤ) (d : Device) where
  tracked : Device
  tracked = (track k x y d).0

  -- All that follows `track`.
  blocks-Still : Still x y tracked (after_left k mask x y (left_button k mask x y tracked).0)
  blocks-Still =
      Still-trans x y tracked (left_button k mask x y tracked).0 _
        (left_button-Still k mask x y tracked) (after_left-Still k mask x y _)

  pointer_event-blocks :
      d.opened ≡ true
      → (pointer_event k mask x y d).0 ≡ after_left k mask x y (left_button k mask x y tracked).0
  unfolding pointer_event after_left tracked
  pointer_event-blocks h = simp h

  tracked-absolute :
      (p : ℤ)
      → d.touch ≡ false
      → d.use_relative_input ≡ false
      → (abs_at abs_x p tracked.calls ≡ x) × (abs_at abs_y p tracked.calls ≡ y)
  unfolding tracked track inject abs_at
  tracked-absolute p t r = ground arith

  tracked-relative :
      (p q : ℤ)
      → d.touch ≡ false
      → d.use_relative_input ≡ true
      → (rel_at rel_x p tracked.calls ≡ rel_at rel_x p d.calls +ℤ i32 (x -ℤ d.last_x))
        × (rel_at rel_y q tracked.calls ≡ rel_at rel_y q d.calls +ℤ i32 (y -ℤ d.last_y))
  unfolding tracked track inject rel_at
  tracked-relative p q t r = ground arith

  tracked-last : (tracked.last_x ≡ x) × (tracked.last_y ≡ y)
  unfolding tracked track inject
  tracked-last = ground arith

  -- On a touchscreen a contact is placed wherever its button goes down, stays down or comes up.
  left_button-contact :
      (p : ℤ)
      → d.use_relative_input ≡ false
      → (bit mask 1 || d.left_clicked) ≡ true
      → let e = (left_button k mask x y d).0 in
        (abs_at abs_x p e.calls ≡ x) × (abs_at abs_y p e.calls ≡ y)
  unfolding left_button inject abs_at
  left_button-contact p r h = ground arith

module _ (k : Kernel) (mask : ℕ) (x y : ℤ) (d : Device) where
  track-modes :
      let t = tracked k mask x y d in
      (t.touch ≡ d.touch)
      × (t.use_relative_input ≡ d.use_relative_input)
      × (t.left_clicked ≡ d.left_clicked)
  unfolding tracked track inject
  track-modes = ground arith

  pub pointer_event-closed : d.opened ≡ false → pointer_event k mask x y d ≡ (d, tt)
  unfolding pointer_event
  pointer_event-closed h = simp h

advance : (x p last : ℤ) → p ≡ last → IsInt32 (x -ℤ last) → p +ℤ i32 (x -ℤ last) ≡ x
advance x p last e h = rw (i32-of_IsInt32 _ h, e) (+ℤ-sub x last)

-- On an open device in absolute mode, as a mouse always and as a touchscreen while the left button is
-- down, goes down or comes up, `pointerEvent` leaves both absolute axes at its coordinates, whatever
-- the kernel answers and whatever was written before.
pub pointer_event_absolute :
    (k : Kernel) (mask : ℕ) (x y : ℤ) (d : Device) (p q : ℤ)
    → d.opened ≡ true
    → d.use_relative_input ≡ false
    → (not d.touch || (bit mask 1 || d.left_clicked)) ≡ true
    → let e = (pointer_event k mask x y d).0 in
      (abs_at abs_x p e.calls ≡ x) × (abs_at abs_y q e.calls ≡ y)
pointer_event_absolute k mask x y d p q h r c =
    let t = tracked k mask x y d in
    let l = (left_button k mask x y t).0 in
    let s = after_left-Still k mask x y l in
    let m = track-modes k mask x y d in
    rw (pointer_event-blocks k mask x y d h) (elim (Bool-cases d.touch) [
      | inl touch ↦
          let b : (bit mask 1 || t.left_clicked) ≡ true = ground arith in
          (
            s.placed_x p (left_button-contact k mask x y t p (ground arith) b).0,
            s.placed_y q (left_button-contact k mask x y t q (ground arith) b).1,
          )
      | inr mouse ↦
          let w = left_button-Still k mask x y t in
          (
            s.placed_x p (w.placed_x p (tracked-absolute k mask x y d p mouse r).0),
            s.placed_y q (w.placed_y q (tracked-absolute k mask x y d q mouse r).1),
          )
    ])

-- On an open device in relative mode that is no touchscreen, if the moves sent since it was opened
-- lead from the origin to the position that it remembers and the two differences fit an int32_t, then
-- after `pointerEvent` they lead to the new coordinates, which are the position it remembers.
pub pointer_event_relative :
    (k : Kernel) (mask : ℕ) (x y : ℤ) (d : Device)
    → d.opened ≡ true
    → d.touch ≡ false
    → d.use_relative_input ≡ true
    → rel_at rel_x (pos 0) d.calls ≡ d.last_x
    → rel_at rel_y (pos 0) d.calls ≡ d.last_y
    → IsInt32 (x -ℤ d.last_x)
    → IsInt32 (y -ℤ d.last_y)
    → let e = (pointer_event k mask x y d).0 in
      (rel_at rel_x (pos 0) e.calls ≡ x)
      × (rel_at rel_y (pos 0) e.calls ≡ y)
      × (e.last_x ≡ x)
      × (e.last_y ≡ y)
pointer_event_relative k mask x y d h t r ex ey ix iy =
    let s = blocks-Still k mask x y d in
    let w = tracked-relative k mask x y d (pos 0) (pos 0) t r in
    let l = tracked-last k mask x y d in
    rw (pointer_event-blocks k mask x y d h) (
      s.same_rel_x (pos 0) ∙ w.0 ∙ advance x _ d.last_x ex ix,
      s.same_rel_y (pos 0) ∙ w.1 ∙ advance y _ d.last_y ey iy,
      s.last_x ∙ l.0,
      s.last_y ∙ l.1,
    )

-- If the last event of the log is a SYN, or there is none, that still holds after `pointerEvent`, in
-- every mode and for every kernel: each report that it starts is closed by a SYN.
pub pointer_event-synced :
    (k : Kernel) (mask : ℕ) (x y : ℤ) (d : Device)
    → synced d.calls ≡ true
    → synced (pointer_event k mask x y d).0.calls ≡ true
unfolding tracked
pointer_event-synced k mask x y d h = elim (Bool-cases d.opened) [
  | inl o ↦
      rw (pointer_event-blocks k mask x y d o)
        ((blocks-Still k mask x y d).complete (track_complete k mask x y d h))
  | inr c ↦ rw (pointer_event-closed k mask x y d c) h
]
