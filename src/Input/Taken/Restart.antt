-- ===== src/Input/Taken/Restart.antt =====
-- A second `start` on an open device is refused, but `touch` has been set before.
use packages_services_vnc_fl.Input.Taken.{Takes}
use packages_services_vnc_fl.Prelude.{ℕ, Bool, true, false, some, ◌≡◌, refl, arith, ap}
use packages_services_vnc_fl.Prelude.Int.{ℤ}
use packages_services_vnc_fl.Input.Codes.{btn_touch}
use packages_services_vnc_fl.Input.Kernel.{Kernel, Device, no_init, ui_set_keybit}
use packages_services_vnc_fl.Input.Inject.{inject, press, release}
use packages_services_vnc_fl.Input.Lifecycle.{start, start_with, reset}
use packages_services_vnc_fl.Input.Lifecycle.Bits.{all_registered, has_bit, is_registered}
use packages_services_vnc_fl.Input.Pointer.{
  bit, track, left_button, right_button, middle_button, wheel, pointer_event,
}

-- A log with an event that was dropped keeps it.
module _ (k : Kernel) (mask : ℕ) (x y : ℤ) (d : Device) (h : all_registered d.calls ≡ false) where
  right_button-dropped : all_registered (right_button k mask x y d).0.calls ≡ false
  unfolding right_button inject press release all_registered
  right_button-dropped = ground arith

  middle_button-dropped : all_registered (middle_button k mask x y d).0.calls ≡ false
  unfolding middle_button inject press release all_registered
  middle_button-dropped = ground arith

  wheel-dropped : all_registered (wheel k mask d).0.calls ≡ false
  unfolding wheel inject all_registered
  wheel-dropped = ground arith

left_button-dropped :
    (k : Kernel) (mask : ℕ) (x y : ℤ) (d : Device)
    → bit mask 1 ≡ true
    → d.touch ≡ true
    → d.left_clicked ≡ false
    → has_bit ui_set_keybit btn_touch d.calls ≡ false
    → all_registered (left_button k mask x y d).0.calls ≡ false
unfolding left_button inject all_registered is_registered has_bit
left_button-dropped k mask x y d b t l h = ground arith

-- A touchscreen does not track the pointer.
track-touch :
    (k : Kernel) (x y : ℤ) (d : Device)
    → d.touch ≡ true
    → (track k x y d).0 ≡ record d { last_x = x; last_y = y }
unfolding track
track-touch k x y d t = ground arith

pointer_event-dropped :
    (k : Kernel) (mask : ℕ) (x y : ℤ) (d : Device)
    → d.opened ≡ true
    → bit mask 1 ≡ true
    → d.touch ≡ true
    → d.left_clicked ≡ false
    → has_bit ui_set_keybit btn_touch d.calls ≡ false
    → all_registered (pointer_event k mask x y d).0.calls ≡ false
unfolding pointer_event
pointer_event-dropped k mask x y d o b t l h =
    let e = record d { last_x = x; last_y = y } in
    let pressed = (left_button k mask x y e).0 in
    let right = (right_button k mask x y pressed).0 in
    let middle = (middle_button k mask x y right).0 in
    simp o (
      rw (track-touch k x y d t) (
        wheel-dropped k mask x y middle (
          middle_button-dropped k mask x y right
            (right_button-dropped k mask x y pressed (left_button-dropped k mask x y e b t l h)))))

start_again :
    (k : Kernel) (width height : ℕ) (istouch relative : Bool) (d : Device) {fd : ℕ}
    → d.fd ≡ some fd
    → start k width height istouch relative d ≡ (reset istouch relative d, no_init)
unfolding start start_with
start_again k width height istouch relative d h =
    ap (λ o. start_with o k width height (reset istouch relative d)) h

-- On a device that is open as a mouse and that has registered all its events so far, a `start` as a
-- touchscreen returns NO_INIT; but a pointer event with the left button down then writes an event that
-- the device has not registered.
pub restart_drops :
    (k : Kernel) (width height : ℕ) (relative : Bool) (mask : ℕ) (x y : ℤ) (d : Device) (fd : ℕ)
    → Takes false d
    → d.fd ≡ some fd
    → bit mask 1 ≡ true
    → let r = start k width height true relative d in
      (r.1 ≡ no_init) × (all_registered (pointer_event k mask x y r.0).0.calls ≡ false)
unfolding reset
restart_drops k width height relative mask x y d fd s there b =
    rw (start_again k width height true relative d there) (
      refl,
      pointer_event-dropped k mask x y (reset true relative d) s.live b refl refl
          (ground (arith, s.offers.codes btn_touch)),
    )
