-- ===== src/Desktop/Devices/Sizes.antt =====
-- The device through the methods of a desktop that follow the size, and through their listener.
use packages_services_vnc_fl.Pixels.{Floats, PixelBuffer, is_display_rotated, set_buffer_rotation}
use packages_services_vnc_fl.Desktop.Devices.{
  Steady, is_quiet, Leaves, then-Leaves, serve-Leaves, on_input-Leaves, with_pixels-Leaves,
  done-Leaves,
}
use packages_services_vnc_fl.Desktop.State.{
  pure, Desktop, Platform, ◌>>=◌, ◌>>◌, Event, on_input, serve, set_pixel_buffer, with_pixels,
  new_surface, get_token, get_mode, get_state, set_screen_layout,
}
use packages_services_vnc_fl.Input.Kernel.{Kernel, Device}
use packages_services_vnc_fl.Desktop.Size.{
  listen, compute_screen_layout, read_asked, update_display_info, set_pixels_info,
  on_buffer_dimensions_changed, read_internal, renew_display, replace_display, take_display_rect,
  is_int,
}
use packages_services_vnc_fl.Prelude.{
  ◌≡◌, refl, ◌∷◌, [], ℕ, Bool, List, Option, Option-cases, arith, if◌then◌else◌, [], inl, inr, some,
  true, false, Bool-cases,
}
use packages_services_vnc_fl.Input.Lifecycle.{reconfigure}

module _ (fs : Floats) (k : Kernel) (pf : Platform) (Q : Option Device → List Event → Type 0)
    {fits : Device → Bool} (s : Steady k pf fits Q) where
  open fs use {Float}

  abbrev pub Good : Desktop Float → Type 0
  Good d = Q d.input d.log

  abbrev pub Left : {A : Type 0} → Option (Desktop Float × A) → Type 0
  Left = Leaves Q

  replace_display-Leaves : (d : Desktop Float) → Good d → Left (replace_display fs k pf d)
  unfolding replace_display Leaves
  replace_display-Leaves d h = elim (Option-cases d.pixels) [
    | inl e ↦ simp (e, with_pixels) tt
    | inr (p, e) ↦ simp (e, with_pixels) (s.emits new_surface d.input d.log refl h)
  ]

  take_display_rect-Leaves : (d : Desktop Float) → Good d → Left (take_display_rect fs k pf d)
  unfolding take_display_rect Leaves
  take_display_rect-Leaves d h = elim (Option-cases d.display) [
    | inl e ↦ simp (e, take_display_rect) tt
    | inr (v, e) ↦ simp (e, take_display_rect) h
  ]

  renew_display-Leaves : (d : Desktop Float) → Good d → Left (renew_display fs k pf d)
  unfolding renew_display
  renew_display-Leaves d h =
      then-Leaves Q (replace_display fs k pf) (λ _. take_display_rect fs k pf) d
        (replace_display-Leaves d h) (λ _ d'. take_display_rect-Leaves d')

  pub compute_screen_layout-Leaves :
      (d : Desktop Float) → Good d → Left (compute_screen_layout fs k pf d)
  unfolding compute_screen_layout Leaves
  compute_screen_layout-Leaves d h = elim (Option-cases d.pixels) [
    | inl e ↦ simp (e, with_pixels) tt
    | inr (p, e) ↦ simp (e, with_pixels) h
  ]

  -- The size of the buffer is sent to the server.
  pub tell-Leaves :
      (e : ℕ × ℕ → Event) (d : Desktop Float)
      → ((size : ℕ × ℕ) → is_quiet (e size) ≡ true)
      → Good d
      → Left ((compute_screen_layout fs k pf >>= λ size. serve (e size)) d)
  tell-Leaves e d quiet h =
      then-Leaves Q (compute_screen_layout fs k pf) (λ size. serve (e size)) d
        (compute_screen_layout-Leaves d h) (λ size d'. serve-Leaves Q s (e size) d' (quiet size))

  on_buffer_dimensions_changed-Leaves :
      (d : Desktop Float) → Good d → Left (on_buffer_dimensions_changed fs k pf d)
  unfolding on_buffer_dimensions_changed
  on_buffer_dimensions_changed-Leaves d h =
      then-Leaves Q (renew_display fs k pf) (λ _. _) d (renew_display-Leaves d h)
        (λ _ d1 h1.
          then-Leaves Q
            (λ e.
              on_input (λ i. (reconfigure k e.mode_width e.mode_height e.touch e.relative i).0) e)
            (λ _. _) d1 (on_input-Leaves Q _ d1 (s.configures _ _ _ _) h1)
            (λ _ d2 h2.
              then-Leaves Q (compute_screen_layout fs k pf) (λ _. _) d2
                (compute_screen_layout-Leaves d2 h2)
                (λ size d3 h3.
                  then-Leaves Q (serve (set_pixel_buffer size.0 size.1)) (λ _. _) d3
                    (serve-Leaves Q s _ d3 refl h3)
                    (λ _ d4 h4. tell-Leaves (λ t. set_screen_layout t.0 t.1) d4 (λ t. refl) h4))))

  -- The listener is called if the operation has notified it.
  heard-Leaves :
      (calls : List (ℕ × ℕ)) (d : Desktop Float)
      → Good d
      → Left (elim calls [ [] ↦ some (d, tt) | _ ∷ _ ↦ on_buffer_dimensions_changed fs k pf d ])
  heard-Leaves [] d h = done-Leaves Q d tt h
  heard-Leaves (c ∷ cs) d h = on_buffer_dimensions_changed-Leaves d h

  pub listen-Leaves :
      (op : PixelBuffer Float → PixelBuffer Float) (d : Desktop Float)
      → Good d
      → Left (listen fs k pf op d)
  unfolding listen
  listen-Leaves op d h =
      with_pixels-Leaves Q
        (λ p e.
          let q = op (record p { notified = [] }) in
          let e' = record e { pixels = some (record q { notified = [] }) } in
          elim q.notified [ [] ↦ some (e', tt) | _ ∷ _ ↦ on_buffer_dimensions_changed fs k pf e' ])
        d (λ p. heard-Leaves (op (record p { notified = [] })).notified _ h)

  set_pixels_info-Leaves :
      (force : Bool) (d : Desktop Float) → Good d → Left (set_pixels_info fs k pf force d)
  unfolding set_pixels_info
  set_pixels_info-Leaves force d h = elim (Option-cases d.pixels) [
    | inl e ↦ simp (e, set_pixels_info) (done-Leaves Q d tt h)
    | inr (p, e) ↦
        let rotated = is_display_rotated d.display_state in
        simp (e, set_pixels_info)
          (then-Leaves Q (listen fs k pf (set_buffer_rotation fs rotated)) (λ _. _) d
            (listen-Leaves (set_buffer_rotation fs rotated) d h) (λ _ d1 h1. listen-Leaves _ d1 h1))
  ]

  read_internal-Leaves : (d : Desktop Float) → Good d → Left (read_internal fs k pf d)
  unfolding read_internal Leaves
  read_internal-Leaves d h =
      let asked = get_token ∷ d.log in
      let moded = get_mode ∷ asked in
      let a = s.emits get_token d.input d.log refl h in
      let b = s.emits get_mode d.input asked refl a in
      let c = s.emits get_state d.input moded refl b in ground arith

  read_asked-Leaves : (d : Desktop Float) → Good d → Left (read_asked fs k pf d)
  unfolding read_asked Leaves
  read_asked-Leaves d h = ground arith

  informed-Leaves :
      (known force : Bool) (d : Desktop Float)
      → Good d
      → Left ((if known then (do set_pixels_info fs k pf force; pure true) else pure false) d)
  informed-Leaves true force d h =
      then-Leaves Q (set_pixels_info fs k pf force) (λ _. pure true) d
        (set_pixels_info-Leaves force d h) (λ _ d1 h1. done-Leaves Q d1 true h1)
  informed-Leaves false force d h = done-Leaves Q d false h

  pub update_display_info-Leaves :
      (force : Bool) (d : Desktop Float) → Good d → Left (update_display_info fs k pf force d)
  unfolding update_display_info
  update_display_info-Leaves force d h =
      then-Leaves Q
        (λ e. (if is_int e.layer_id 0 then read_internal fs k pf else read_asked fs k pf) e)
        (λ known. if known then (do set_pixels_info fs k pf force; pure true) else pure false) d
        (elim (Bool-cases (is_int d.layer_id 0)) [
          | inl y ↦ rw y (read_internal-Leaves d h)
          | inr n ↦ rw n (read_asked-Leaves d h)
        ])
        (λ known d1 h1. informed-Leaves known force d1 h1)
