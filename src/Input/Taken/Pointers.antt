-- ===== src/Input/Taken/Pointers.antt =====
-- Every event that pointerEvent writes is one that the device registered in its mode.
use packages_services_vnc_fl.Input.Taken.{
  Takes, syn-Takes, key-Takes, rel_x-Takes, rel_y-Takes, wheel-Takes, abs_x-Takes, abs_y-Takes,
  remembers-Takes,
}
use packages_services_vnc_fl.Prelude.{
  ℕ, Bool, true, false, ◌≡◌, refl, arith, if◌then◌else◌, inl, inr, Bool-cases, not, ◌&&◌, ltb,
}
use packages_services_vnc_fl.Prelude.Int.{ℤ, pos, negsuc}
use packages_services_vnc_fl.Input.Kernel.{Kernel, Device, when, ◌>>◌}
use packages_services_vnc_fl.Input.Pointer.{
  bit, sync, place, drag, track, left_button, right_button, middle_button, wheel, pointer_event,
}
use packages_services_vnc_fl.Input.Inject.{release, press, inject}
use packages_services_vnc_fl.Input.Taken.Keys.{is_key-wanted}
use packages_services_vnc_fl.Input.Codes.{
  btn_touch, key_back, btn_left, key_end, btn_right, key_max, btn_middle, ev_key, ev_rel, rel_wheel,
}
use packages_services_vnc_fl.Input.Lifecycle.Registered.{wanted}

module _ (k : Kernel) {t : Bool} where
  place-Takes : (x y : ℤ) {d : Device} → Takes t d → Takes t (place k x y d).0
  place-Takes x y s = abs_y-Takes k y (abs_x-Takes k x s)

  place_maybe-Takes :
      (b : Bool) (x y : ℤ) {d : Device} → Takes t d → Takes t (when b (place k x y) d).0
  place_maybe-Takes true x y s = place-Takes x y s
  place_maybe-Takes false x y s = s

  drag_maybe-Takes :
      (b : Bool) (x y : ℤ) {d : Device} → Takes t d → Takes t (when b (drag k x y) d).0
  drag_maybe-Takes true x y s = syn-Takes k (place-Takes x y s)
  drag_maybe-Takes false x y s = s

  -- The key of a button in either mode.
  press-Takes :
      (touch : Bool) (code button : ℕ) {d : Device}
      → (ltb code key_max && wanted t code) ≡ true
      → (ltb button key_max && wanted t button) ≡ true
      → Takes t d
      → Takes t ((if touch then press k code else inject k ev_key button (pos 1)) d).0
  unfolding press
  press-Takes true code button h h' s = key-Takes k code (pos 1) h s
  press-Takes false code button h h' s = key-Takes k button (pos 1) h' s

  release-Takes :
      (touch : Bool) (code button : ℕ) {d : Device}
      → (ltb code key_max && wanted t code) ≡ true
      → (ltb button key_max && wanted t button) ≡ true
      → Takes t d
      → Takes t ((if touch then release k code else inject k ev_key button (pos 0)) d).0
  unfolding release
  release-Takes true code button h h' s = key-Takes k code (pos 0) h s
  release-Takes false code button h h' s = key-Takes k button (pos 0) h' s

  track-Takes : (x y : ℤ) {d : Device} → Takes t d → Takes t (track k x y d).0
  unfolding track
  track-Takes x y {d} s =
      let moved = remembers-Takes d.left_clicked d.right_clicked d.middle_clicked x y s in
      elim (Bool-cases (not d.touch)) [
        | inr no_move ↦ rw no_move moved
        | inl move ↦ elim (Bool-cases (not d.use_relative_input)) [
          | inl absolute ↦ rw (move, absolute) (syn-Takes k (place-Takes x y moved))
          | inr relative ↦
              rw (move, relative) (syn-Takes k (rel_y-Takes k _ (rel_x-Takes k _ moved)))
        ]
      ]

  left_button-Takes :
      (mask : ℕ) (x y : ℤ) {d : Device} → Takes t d → Takes t (left_button k mask x y d).0
  unfolding left_button
  left_button-Takes mask x y {d} s =
      let clicked = remembers-Takes true d.right_clicked d.middle_clicked d.last_x d.last_y s in
      let let_go = remembers-Takes false d.right_clicked d.middle_clicked d.last_x d.last_y s in
      let code = (if d.touch then btn_touch else btn_left) in
      let h : (ltb code key_max && wanted t code) ≡ true = ground (arith, s.mode) in
      let b = not d.use_relative_input in
      elim (Bool-cases (bit mask 1 && not d.left_clicked)) [
        | inl down ↦
            rw down (syn-Takes k (key-Takes k code (pos 1) h (place_maybe-Takes b x y clicked)))
        | inr n ↦ elim (Bool-cases (not (bit mask 1) && d.left_clicked)) [
          | inl up ↦
              rw (n, up) (syn-Takes k (key-Takes k code (pos 0) h (place_maybe-Takes b x y let_go)))
          | inr m ↦ rw (n, m) (drag_maybe-Takes (d.left_clicked && not d.use_relative_input) x y s)
        ]
      ]

  right_button-Takes :
      (mask : ℕ) (x y : ℤ) {d : Device} → Takes t d → Takes t (right_button k mask x y d).0
  unfolding right_button
  right_button-Takes mask x y {d} s =
      let clicked = remembers-Takes d.left_clicked true d.middle_clicked d.last_x d.last_y s in
      let let_go = remembers-Takes d.left_clicked false d.middle_clicked d.last_x d.last_y s in
      let h = is_key-wanted t key_back refl in
      let h' = is_key-wanted t btn_right refl in
      elim (Bool-cases (bit mask 4 && not d.right_clicked)) [
        | inl down ↦ rw down (syn-Takes k (press-Takes d.touch key_back btn_right h h' clicked))
        | inr n ↦ elim (Bool-cases (not (bit mask 4) && d.right_clicked)) [
          | inl up ↦ rw (n, up) (syn-Takes k (release-Takes d.touch key_back btn_right h h' let_go))
          | inr m ↦ rw (n, m) (drag_maybe-Takes (d.right_clicked && not d.use_relative_input) x y s)
        ]
      ]

  middle_button-Takes :
      (mask : ℕ) (x y : ℤ) {d : Device} → Takes t d → Takes t (middle_button k mask x y d).0
  unfolding middle_button
  middle_button-Takes mask x y {d} s =
      let clicked = remembers-Takes d.left_clicked d.right_clicked true d.last_x d.last_y s in
      let let_go = remembers-Takes d.left_clicked d.right_clicked false d.last_x d.last_y s in
      let h = is_key-wanted t key_end refl in
      let h' = is_key-wanted t btn_middle refl in
      elim (Bool-cases (bit mask 2 && not d.middle_clicked)) [
        | inl down ↦ rw down (syn-Takes k (press-Takes d.touch key_end btn_middle h h' clicked))
        | inr n ↦ elim (Bool-cases (not (bit mask 2) && d.middle_clicked)) [
          | inl up ↦ rw (n, up) (syn-Takes k (release-Takes d.touch key_end btn_middle h h' let_go))
          | inr m ↦
              rw (n, m) (drag_maybe-Takes (d.middle_clicked && not d.use_relative_input) x y s)
        ]
      ]

  notch-Takes :
      (b : Bool) (v : ℤ) {d : Device}
      → Takes t d
      → Takes t (when b (do inject k ev_rel rel_wheel v; sync k) d).0
  notch-Takes true v s = syn-Takes k (wheel-Takes k v s)
  notch-Takes false v s = s

  pub pointer_event-Takes :
      (mask : ℕ) (x y : ℤ) {d : Device} → Takes t d → Takes t (pointer_event k mask x y d).0
  unfolding pointer_event wheel
  pointer_event-Takes mask x y s = simp s.live (
      notch-Takes (bit mask 16) (negsuc 0) (
        notch-Takes (bit mask 8) (pos 1) (
          middle_button-Takes mask x y
            (right_button-Takes mask x y (left_button-Takes mask x y (track-Takes x y s))))))
