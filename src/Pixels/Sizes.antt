-- ===== src/Pixels/Sizes.antt =====
-- The size of the buffer against the size that the client asked for.
use packages_services_vnc_fl.Pixels.{
  Floats, PixelBuffer, Rotation, set_window_size, set_display_info, is_display_rotated, rotation_90,
  set_buffer_rotation,
}
use packages_services_vnc_fl.Prelude.{
  ◌≡◌, ℕ, if◌then◌else◌, Bool, false, ◌≢◌, ◌&&◌, not, ◌==◌, ◌||◌, ◌∷◌, arith, true,
}

module _ (fs : Floats) where
  open fs use {Float}

  -- The buffer has the client's size.
  pub record Fits (b : PixelBuffer Float) : Type 0 where
    pub across : b.width ≡ b.client_width
    pub down : b.height ≡ b.client_height

  -- On a buffer that has the client's size, and for every float arithmetic, `setWindowSize` gives the
  -- buffer and the client the size asked for, keeps the source and the rotation, and tells the
  -- listener, once and with the new size, exactly if there is one and the size changes.
  pub set_window_size-Fits :
      (w h : ℕ) (b : PixelBuffer Float)
      → Fits b
      → let c = set_window_size fs w h b in
        Fits c
        × (c.width ≡ w)
        × (c.height ≡ h)
        × (c.source_width ≡ b.source_width)
        × (c.source_height ≡ b.source_height)
        × (c.rotated ≡ b.rotated)
        × (c.notified ≡ (
            if b.has_listener && not (b.width == w && b.height == h)
            then (w, h) ∷ b.notified
            else b.notified))
  unfolding set_window_size
  set_window_size-Fits w h b f = ground arith

  -- If the size that the display has after its rotation is not the source's, or the update is forced,
  -- `setDisplayInfo` leaves a buffer of the client's size, whatever it had before.
  pub set_display_info-Fits :
      (mode_width mode_height : ℕ) (state : Rotation) (force : Bool) (b : PixelBuffer Float)
      → (not ((if is_display_rotated state then mode_height else mode_width) == b.source_width)
          || (not
                ((if is_display_rotated state then mode_width else mode_height) == b.source_height)
              || force))
        ≡ true
      → Fits (set_display_info fs mode_width mode_height state force b)
  unfolding set_display_info
  set_display_info-Fits w h state force b e = ground arith

  -- A square display that turns: the buffer's sides are swapped and the client's are not, so that the
  -- client's request for the size that it already has leaves the buffer with the other one.
  pub square_turn_misfits :
      (side : ℕ) (b : PixelBuffer Float)
      → Fits b
      → b.rotated ≡ false
      → b.source_width ≡ side
      → b.source_height ≡ side
      → b.width ≢ b.height
      → let c =
          set_window_size fs b.client_width b.client_height
            (set_display_info fs side side rotation_90 false b) in
        (c.width ≡ b.client_height) × (c.height ≡ b.client_width) × ¬ Fits c
  unfolding set_display_info set_window_size
  square_turn_misfits side b f r sw sh ne = ground arith

  -- After `setBufferRotation` to any value and then back to the first one, the buffer has its size,
  -- its scales, its rotation and the client's size again.
  pub turn_back :
      (r : Bool) (b : PixelBuffer Float)
      → let c = set_buffer_rotation fs b.rotated (set_buffer_rotation fs r b) in
        (c.width ≡ b.width)
        × (c.height ≡ b.height)
        × (c.scale_x ≡ b.scale_x)
        × (c.scale_y ≡ b.scale_y)
        × (c.rotated ≡ b.rotated)
        × (c.client_width ≡ b.client_width)
        × (c.client_height ≡ b.client_height)
  unfolding set_buffer_rotation
  turn_back r b = ground arith
