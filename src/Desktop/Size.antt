-- ===== src/Desktop/Size.antt =====
-- The methods of AndroidDesktop that follow the size of the display and of the viewers' window:
-- `onBufferDimensionsChanged`, `updateDisplayInfo`, `start`, `stop` and `setScreenLayout`.
use packages_services_vnc_fl.Prelude.Int.{
  is_positive, is_negative, ℤ, to_u32, pos, negsuc, pos_part,
}
use packages_services_vnc_fl.Pixels.{
  Floats, PixelBuffer, Rotation, construct_buffer, set_buffer_rotation, set_source, set_window_size,
  reset_source, is_display_rotated, rotation_270, rotation_180, rotation_90, rotation_0,
}
use packages_services_vnc_fl.Display.{virtual_display, get_display_rect, get_width, get_height}
use packages_services_vnc_fl.Input.Kernel.{Kernel, Device}
use packages_services_vnc_fl.Desktop.State.{
  Platform, M, ◌>>=◌, ◌>>◌, pure, modify, emit, serve, no_pixel_buffer, set_pixel_buffer, get_token,
  new_surface, resize_display, set_screen_layout, get_mode, get_state, on_input, with_pixels,
}
use packages_services_vnc_fl.Prelude.{
  [], Bool, ℕ, none, true, if◌then◌else◌, some, false, ◌∷◌, ◌==◌, ◌&&◌, not,
}
use packages_services_vnc_fl.Input.Lifecycle.{reconfigure, construct, stop}

abbrev pub is_int : ℤ → ℕ → Bool
is_int (pos n) m = n == m
is_int (negsuc n) m = false

abbrev pub same_side : ℤ → ℤ → Bool
same_side (pos n) (pos m) = n == m
same_side (negsuc n) (negsuc m) = n == m
same_side _ _ = false

-- `_rotation`, in degrees.
unfoldable pub rotation_of : ℤ → Rotation
rotation_of z =
    if is_int z 270
    then rotation_270
    else if is_int z 180
    then rotation_180
    else if is_int z 90
    then rotation_90
    else rotation_0

-- The results of `setScreenLayout`.
pub data LayoutResult : Type 0 where
  result_success result_invalid : LayoutResult

module _ (fs : Floats) (k : Kernel) (pf : Platform) where
  open fs use {Float}

  unfoldable pub compute_screen_layout : M Float (ℕ × ℕ)
  compute_screen_layout = with_pixels (λ p. pure (p.width, p.height))

  -- A new virtual display of the buffer's size, up to the callback `onNewSurfaceAvailable`, in which
  -- Java asks for the surface. `mLayerId` is converted to a uint32_t.
  unfoldable pub replace_display : M Float (Unit {0})
  replace_display = with_pixels (λ p d.
      let v =
        virtual_display d.mode_width d.mode_height d.display_state p.width p.height
          (to_u32 d.layer_id) in
      some (record d { display = some v; log = new_surface ∷ d.log }, tt))

  -- `mDisplayRect = mVirtualDisplay->getDisplayRect()`, after the callback.
  unfoldable pub take_display_rect : M Float (Unit {0})
  take_display_rect d = elim d.display [
    | none ↦ none
    | some v ↦ some (record d { display_rect = get_display_rect fs v }, tt)
  ]

  unfoldable pub renew_display : M Float (Unit {0})
  renew_display = do replace_display; take_display_rect

  -- The arguments are only logged.
  unfoldable pub on_buffer_dimensions_changed : M Float (Unit {0})
  on_buffer_dimensions_changed = do
    renew_display
    (λ d. on_input (λ i. (reconfigure k d.mode_width d.mode_height d.touch d.relative i).0) d)
    size ← compute_screen_layout
    serve (set_pixel_buffer size.0 size.1)
    size' ← compute_screen_layout
    serve (set_screen_layout size'.0 size'.1)

  -- A part of an operation of the frame buffer, at the end of which it calls its listener or not: the
  -- calls are taken from the buffer and made.
  unfoldable pub listen : (PixelBuffer Float → PixelBuffer Float) → M Float (Unit {0})
  listen op = with_pixels (λ p d.
      let q = op (record p { notified = [] }) in
      let d' = record d { pixels = some (record q { notified = [] }) } in
      elim q.notified [ [] ↦ some (d', tt) | _ ∷ _ ↦ on_buffer_dimensions_changed d' ])

  -- `mPixels->setDisplayInfo(&mDisplayMode, &mDisplayState, force)`, if there are pixels.
  unfoldable pub set_pixels_info : Bool → M Float (Unit {0})
  set_pixels_info force d = elim d.pixels [
    | none ↦ some (d, tt)
    | some _ ↦
        let rotated = is_display_rotated d.display_state in
        (do
          listen (set_buffer_rotation fs rotated)
          listen (
              set_source fs (if rotated then d.mode_height else d.mode_width)
                (if rotated then d.mode_width else d.mode_height) force))
          d
  ]

  -- The display's mode and state, from SurfaceFlinger for layer 0 and else from the service; false
  -- where they are not to be had.
  unfoldable pub read_internal : M Float Bool
  read_internal d =
      let asked = record d { log = get_token ∷ d.log } in
      let moded = record asked { log = get_mode ∷ asked.log } in
      if not (pf.internal_display d.log)
      then some (asked, false)
      else elim (pf.active_mode asked.log) [
        | none ↦ some (moded, false)
        | some (w, h) ↦
            let set = record moded {
              mode_width = w;
              mode_height = h;
              log = get_state ∷ moded.log;
            } in
            elim (pf.display_state moded.log) [
              | none ↦ some (set, false)
              | some r ↦ some (record set { display_state = r; layer_id = pos 0 }, true)
            ]
      ]

  unfoldable pub read_asked : M Float Bool
  read_asked d =
      if is_positive d.asked_width
        && (is_positive d.asked_height && not (is_negative d.asked_rotation))
      then some (
        record d {
          mode_width = pos_part d.asked_width;
          mode_height = pos_part d.asked_height;
          display_state = rotation_of d.asked_rotation;
        },
        true,
      )
      else some (d, false)

  unfoldable pub update_display_info : Bool → M Float Bool
  update_display_info force = do
    known ← (λ d. (if is_int d.layer_id 0 then read_internal else read_asked) d)
    if known then (do set_pixels_info force; pure true) else pure false

  -- `start`, with what the members that the two constructors leave alone happen to hold. An input
  -- device that was there before has been stopped by `stop`.
  unfoldable pub start_desktop : Device → PixelBuffer Float → M Float (Unit {0})
  start_desktop device buffer = do
    modify (λ d. record d {
      has_server = true;
      input = some (construct device);
      pixels = some (record (construct_buffer fs buffer) { has_listener = true });
    })
    known ← update_display_info true
    if known
        then (do size ← compute_screen_layout; serve (set_pixel_buffer size.0 size.1))
        else pure tt

  unfoldable pub stop_desktop : M Float (Unit {0})
  stop_desktop = do
    serve no_pixel_buffer
    with_pixels (λ p. modify (λ d. record d { pixels = some (reset_source fs p) }))
    modify (λ d. record d { display = none; pixels = none })
    on_input (λ i. (stop k i).0)
    emit new_surface

  -- The branch of `setScreenLayout` that takes the size.
  unfoldable pub take_window_size : ℕ → ℕ → M Float LayoutResult
  take_window_size width height = do
    listen (set_window_size fs width height)
    size ← compute_screen_layout
    serve (set_screen_layout size.0 size.1)
    pure result_success

  -- `layout` is only printed.
  unfoldable pub set_screen_layout_of : ℤ → ℤ → M Float LayoutResult
  set_screen_layout_of width height d =
      (if is_negative d.layer_id
          then (do emit (resize_display width height); pure result_invalid)
          else if same_side width (get_width d.display_rect)
              && same_side height (get_height d.display_rect)
          then pure result_invalid
          else if is_positive width && is_positive height
          then take_window_size (pos_part width) (pos_part height)
          else pure result_invalid)
        d
