-- ===== src/Input/Pointer/Buttons.antt =====
-- `pointerEvent` keeps the three buttons of the device as the viewer holds them.
use packages_services_vnc_fl.Prelude.{ℕ, ◌≡◌, arith, true}
use packages_services_vnc_fl.Prelude.Int.{ℤ}
use packages_services_vnc_fl.Input.Kernel.{Kernel, Device}
use packages_services_vnc_fl.Input.Inject.{inject, press, release}
use packages_services_vnc_fl.Input.Pointer.{
  bit, track, left_button, right_button, middle_button, wheel, pointer_event,
}
use packages_services_vnc_fl.Input.Pointer.Reading.{down, left_code, right_code, middle_code}

-- The device's record of the three buttons is what the log shows.
pub record Agrees (d : Device) : Type 0 where
  pub left : down (left_code d.touch) d.calls ≡ d.left_clicked
  pub right : down (right_code d.touch) d.calls ≡ d.right_clicked
  pub middle : down (middle_code d.touch) d.calls ≡ d.middle_clicked

-- A block leaves the modes alone.
pub record SameModes (d e : Device) : Type 0 where
  pub opened : e.opened ≡ d.opened
  pub touch : e.touch ≡ d.touch
  pub relative : e.use_relative_input ≡ d.use_relative_input
  pub fd : e.fd ≡ d.fd

module _ (k : Kernel) (mask : ℕ) (x y : ℤ) (d : Device) where
  track-buttons :
      (code : ℕ)
      → let e = (track k x y d).0 in
        SameModes d e
        × (down code e.calls ≡ down code d.calls)
        × (e.left_clicked ≡ d.left_clicked)
        × (e.right_clicked ≡ d.right_clicked)
        × (e.middle_clicked ≡ d.middle_clicked)
  unfolding track inject down
  track-buttons code = ground arith

  left_button-Agrees :
      Agrees d
      → let e = (left_button k mask x y d).0 in
        Agrees e
        × SameModes d e
        × (e.left_clicked ≡ bit mask 1)
        × (e.right_clicked ≡ d.right_clicked)
        × (e.middle_clicked ≡ d.middle_clicked)
  unfolding left_button inject down
  left_button-Agrees a = ground arith

  right_button-Agrees :
      Agrees d
      → let e = (right_button k mask x y d).0 in
        Agrees e
        × SameModes d e
        × (e.left_clicked ≡ d.left_clicked)
        × (e.right_clicked ≡ bit mask 4)
        × (e.middle_clicked ≡ d.middle_clicked)
  unfolding right_button inject press release down
  right_button-Agrees a = ground arith

  middle_button-Agrees :
      Agrees d
      → let e = (middle_button k mask x y d).0 in
        Agrees e
        × SameModes d e
        × (e.left_clicked ≡ d.left_clicked)
        × (e.right_clicked ≡ d.right_clicked)
        × (e.middle_clicked ≡ bit mask 2)
  unfolding middle_button inject press release down
  middle_button-Agrees a = ground arith

  wheel-buttons :
      (code : ℕ)
      → let e = (wheel k mask d).0 in
        SameModes d e
        × (down code e.calls ≡ down code d.calls)
        × (e.left_clicked ≡ d.left_clicked)
        × (e.right_clicked ≡ d.right_clicked)
        × (e.middle_clicked ≡ d.middle_clicked)
  unfolding wheel inject down
  wheel-buttons code = ground arith

module _ (k : Kernel) (mask : ℕ) (x y : ℤ) (d : Device) (a : Agrees d) where
  tracked : Device
  tracked = (track k x y d).0

  tracked-Agrees : Agrees tracked × SameModes d tracked
  unfolding tracked
  tracked-Agrees = ground (
    arith,
    a,
    track-buttons k mask x y d (left_code d.touch),
    track-buttons k mask x y d (right_code d.touch),
    track-buttons k mask x y d (middle_code d.touch),
  )

  clicked : Device
  unfolding tracked
  clicked =
      let e = (left_button k mask x y tracked).0 in
      let f = (right_button k mask x y e).0 in (middle_button k mask x y f).0

  clicked-Agrees :
      Agrees clicked
      × SameModes d clicked
      × (clicked.left_clicked ≡ bit mask 1)
      × (clicked.right_clicked ≡ bit mask 4)
      × (clicked.middle_clicked ≡ bit mask 2)
  unfolding clicked
  clicked-Agrees =
      let e = (left_button k mask x y tracked).0 in
      let f = (right_button k mask x y e).0 in
      let p = left_button-Agrees k mask x y tracked tracked-Agrees.0 in
      let q = right_button-Agrees k mask x y e p.0 in
      let r = middle_button-Agrees k mask x y f q.0 in ground (arith, tracked-Agrees, p, q, r)

-- On an open device whose log agrees with its three button flags, and for every kernel, `pointerEvent`
-- leaves them in agreement, leaves the modes as they are, and leaves each button (the mouse's, or what
-- stands for it on a touchscreen) down on the kernel's side exactly if its bit of `buttonMask` is set.
pub pointer_event_buttons :
    (k : Kernel) (mask : ℕ) (x y : ℤ) (d : Device)
    → d.opened ≡ true
    → Agrees d
    → let e = (pointer_event k mask x y d).0 in
      Agrees e
      × SameModes d e
      × (down (left_code d.touch) e.calls ≡ bit mask 1)
      × (down (right_code d.touch) e.calls ≡ bit mask 4)
      × (down (middle_code d.touch) e.calls ≡ bit mask 2)
unfolding pointer_event clicked
pointer_event_buttons k mask x y d h a =
    let c = clicked k mask x y d a in
    ground (
      arith,
      clicked-Agrees k mask x y d a,
      wheel-buttons k mask x y c (left_code d.touch),
      wheel-buttons k mask x y c (right_code d.touch),
      wheel-buttons k mask x y c (middle_code d.touch),
    )
