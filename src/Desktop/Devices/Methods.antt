-- ===== src/Desktop/Devices/Methods.antt =====
-- The device through the methods of a desktop that start and stop it or write to it.
use packages_services_vnc_fl.Pixels.{
  Floats, PixelBuffer, set_window_size, construct_buffer, reset_source,
}
use packages_services_vnc_fl.Desktop.Devices.{
  Steady, Leaves, done-Leaves, then-Leaves, serve-Leaves, on_input-Leaves, with_pixels-Leaves,
}
use packages_services_vnc_fl.Desktop.Devices.Sizes.{
  listen-Leaves, compute_screen_layout-Leaves, tell-Leaves, update_display_info-Leaves,
}
use packages_services_vnc_fl.Desktop.State.{
  M, Desktop, Platform, pure, modify, emit, serve, on_input, with_pixels, set_screen_layout,
  set_pixel_buffer, no_pixel_buffer, new_surface, cursor_pos, Event, resize_display,
}
use packages_services_vnc_fl.Desktop.Size.{
  listen, compute_screen_layout, start_desktop, stop_desktop, take_window_size,
  set_screen_layout_of, update_display_info, same_side, result_success, result_invalid,
}
use packages_services_vnc_fl.Desktop.Server.{
  desktop_key_event, desktop_pointer_event, outside, send_pointer, scaled,
}
use packages_services_vnc_fl.Display.{get_width, get_height}
use packages_services_vnc_fl.Input.Kernel.{Kernel, Device}
use packages_services_vnc_fl.Input.Lifecycle.{construct, stop}
use packages_services_vnc_fl.Prelude.Int.{ℤ, is_positive, is_negative, pos_part, signed32}
use packages_services_vnc_fl.Prelude.{
  Bool, ℕ, none, true, some, ◌≡◌, inl, inr, Bool-cases, ◌&&◌, Option, List, refl,
}

module _ (fs : Floats) (k : Kernel) (pf : Platform) (Q : Option Device → List Event → Type 0)
    {fits : Device → Bool} (s : Steady k pf fits Q) where
  open fs use {Float}

  pub start_desktop-Leaves :
      (device : Device) (buffer : PixelBuffer Float) (d : Desktop Float)
      → fits device ≡ true
      → Q d.input d.log
      → Leaves Q (start_desktop fs k pf device buffer d)
  unfolding start_desktop
  start_desktop-Leaves device buffer d h o =
      let started = record d {
        has_server = true;
        input = some (construct device);
        pixels = some (record (construct_buffer fs buffer) { has_listener = true });
      } in
      then-Leaves Q (update_display_info fs k pf true) (λ _. _) started
        (update_display_info-Leaves fs k pf Q s true started
          (s.constructs device d.input d.log h o))
        (λ known d1 h1. elim (Bool-cases known) [
          | inl y ↦ rw y (tell-Leaves fs k pf Q s (λ t. set_pixel_buffer t.0 t.1) d1 (λ t. refl) h1)
          | inr n ↦ rw n (done-Leaves Q d1 tt h1)
        ])

  pub stop_desktop-Leaves :
      (d : Desktop Float) → Q d.input d.log → Leaves Q (stop_desktop fs k pf d)
  unfolding stop_desktop
  stop_desktop-Leaves d h =
      let forget : PixelBuffer Float → M Float (Unit {0}) =
        λ p. modify (λ e. record e { pixels = some (reset_source fs p) }) in
      then-Leaves Q (serve no_pixel_buffer) (λ _. _) d (serve-Leaves Q s _ d refl h)
        (λ _ d1 h1.
          then-Leaves Q (with_pixels forget) (λ _. _) d1
            (with_pixels-Leaves Q forget d1
              (λ p. done-Leaves Q (record d1 { pixels = some (reset_source fs p) }) tt h1))
            (λ _ d2 h2.
              let e = record d2 { display = none; pixels = none } in
              then-Leaves Q (on_input (λ i. (stop k i).0)) (λ _. emit new_surface) e
                (on_input-Leaves Q _ e s.stops h2)
                (λ _ d3 h3. done-Leaves Q _ tt (s.emits new_surface d3.input d3.log refl h3))))

  pub take_window_size-Leaves :
      (w h : ℕ) (d : Desktop Float) → Q d.input d.log → Leaves Q (take_window_size fs k pf w h d)
  unfolding take_window_size
  take_window_size-Leaves w h d o =
      then-Leaves Q (listen fs k pf (set_window_size fs w h)) (λ _. _) d
        (listen-Leaves fs k pf Q s (set_window_size fs w h) d o)
        (λ _ d1 o1.
          then-Leaves Q (compute_screen_layout fs k pf) (λ _. _) d1
            (compute_screen_layout-Leaves fs k pf Q s d1 o1)
            (λ size d2 o2.
              then-Leaves Q (serve (set_screen_layout size.0 size.1)) (λ _. pure result_success) d2
                (serve-Leaves Q s _ d2 refl o2) (λ _ d3 o3. done-Leaves Q d3 result_success o3)))

  pub set_screen_layout_of-Leaves :
      (w h : ℤ) (d : Desktop Float)
      → Q d.input d.log
      → Leaves Q (set_screen_layout_of fs k pf w h d)
  unfolding set_screen_layout_of
  set_screen_layout_of-Leaves w h d o = elim (Bool-cases (is_negative d.layer_id)) [
    | inl y ↦
        rw y (done-Leaves Q _ result_invalid (s.emits (resize_display w h) d.input d.log refl o))
    | inr n ↦
        elim (Bool-cases
          (same_side w (get_width d.display_rect) && same_side h (get_height d.display_rect))) [
            | inl y ↦ rw (n, y) (done-Leaves Q d result_invalid o)
            | inr m ↦ elim (Bool-cases (is_positive w && is_positive h)) [
              | inl y ↦ rw (n, m, y) (take_window_size-Leaves (pos_part w) (pos_part h) d o)
              | inr l ↦ rw (n, m, l) (done-Leaves Q d result_invalid o)
            ]
          ]
  ]

  pub desktop_key_event-Leaves :
      (keysym : ℕ) (down : Bool) (d : Desktop Float)
      → Q d.input d.log
      → Leaves Q (desktop_key_event fs k pf keysym down d)
  unfolding desktop_key_event
  desktop_key_event-Leaves keysym down d o = on_input-Leaves Q _ d (s.types down keysym) o

  pub send_pointer-Leaves :
      (x y mask : ℕ) (d : Desktop Float)
      → Q d.input d.log
      → Leaves Q (send_pointer fs k pf x y mask d)
  unfolding send_pointer
  send_pointer-Leaves x y mask d o =
      then-Leaves Q (serve (cursor_pos x y)) (λ _. _) d (serve-Leaves Q s _ d refl o)
        (λ _ d1 o1. on_input-Leaves Q _ d1 (s.points mask (signed32 x) (signed32 y)) o1)

  pub desktop_pointer_event-Leaves :
      (x y : ℤ) (mask : ℕ) (d : Desktop Float)
      → Q d.input d.log
      → Leaves Q (desktop_pointer_event fs k pf x y mask d)
  unfolding desktop_pointer_event
  desktop_pointer_event-Leaves x y mask d o =
      let send : PixelBuffer Float → M Float (Unit {0}) = λ p.
        send_pointer fs k pf (scaled fs k pf x p.width (get_width d.display_rect) d.mode_width)
          (scaled fs k pf y p.height (get_height d.display_rect) d.mode_height) mask in
      elim (Bool-cases (outside d.display_rect x y)) [
        | inl off ↦ rw off (done-Leaves Q d tt o)
        | inr on ↦ rw on (with_pixels-Leaves Q send d (λ p. send_pointer-Leaves _ _ mask d o))
      ]
