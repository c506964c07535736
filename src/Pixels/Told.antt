-- ===== src/Pixels/Told.antt =====
-- What the listener of the buffer's size has been told.
use packages_services_vnc_fl.Prelude.{[], ◌∷◌, List, if◌then◌else◌, not, refl, false, ◌||◌}
use packages_services_vnc_fl.Pixels.{
  Floats, PixelBuffer, set_buffer_rotation, update_buffer_size, resize, set_window_size, set_source,
  reset_source, construct_buffer, set_display_info, Rotation, is_display_rotated,
}
use packages_services_vnc_fl.Prelude.{List, ◌≡◌, Bool, ℕ, arith, true, ◌==◌, ◌&&◌}

-- A call of one of the buffer's public operations.
pub data BufferCall : Type 0 where
  window_size : ℕ → ℕ → BufferCall
  display_info : ℕ → ℕ → Rotation → Bool → BufferCall
  forget_source : BufferCall

-- Whether the newest call of the listener gave these sides; with no call, whether they are 0.
unfoldable pub last_told : ℕ → ℕ → List (ℕ × ℕ) → Bool
last_told width height [] = width == 0 && height == 0
last_told width height ((w, h) ∷ _) = w == width && h == height

module _ (fs : Floats) where
  open fs use {Float}

  -- The listener, if there is one, was last told the size that the buffer has.
  unfoldable pub Told : PixelBuffer Float → Type 0
  Told b = b.has_listener ≡ true → last_told b.width b.height b.notified ≡ true

  pub either-Told :
      (c : Bool) (x y : PixelBuffer Float) → Told x → Told y → Told (if c then x else y)
  either-Told true x y tx ty = tx
  either-Told false x y tx ty = ty

  pub set_buffer_rotation-Told :
      (r : Bool) (b : PixelBuffer Float) → Told b → Told (set_buffer_rotation fs r b)
  unfolding set_buffer_rotation Told last_told
  set_buffer_rotation-Told r b t = ground arith

  pub resize-Told : (w h : ℕ) (b : PixelBuffer Float) → Told b → Told (resize fs w h b)
  unfolding resize Told last_told
  resize-Told w h b t = ground arith

  pub update_buffer_size-Told :
      (d : Bool) (b : PixelBuffer Float) → Told b → Told (update_buffer_size fs d b)
  unfolding update_buffer_size Told last_told
  update_buffer_size-Told d b t = ground arith

  pub set_window_size-Told :
      (w h : ℕ) (b : PixelBuffer Float) → Told b → Told (set_window_size fs w h b)
  unfolding set_window_size Told
  set_window_size-Told w h b t =
      either-Told (b.client_width == w && b.client_height == h) _ _ t
        (update_buffer_size-Told false (record b { client_width = w; client_height = h }) t)

  pub set_source-Told :
      (w h : ℕ) (force : Bool) (b : PixelBuffer Float) → Told b → Told (set_source fs w h force b)
  unfolding set_source Told
  set_source-Told w h force b t =
      either-Told (not (w == b.source_width) || (not (h == b.source_height) || force)) _ _
        (update_buffer_size-Told true (record b { source_width = w; source_height = h }) t) t

  pub set_display_info-Told :
      (w h : ℕ) (state : Rotation) (force : Bool) (b : PixelBuffer Float)
      → Told b
      → Told (set_display_info fs w h state force b)
  unfolding set_display_info
  set_display_info-Told w h state force b t =
      set_source-Told (if is_display_rotated state then h else w)
        (if is_display_rotated state then w else h) force
        (set_buffer_rotation fs (is_display_rotated state) b)
        (set_buffer_rotation-Told (is_display_rotated state) b t)

  unfoldable pub buffer_call : BufferCall → PixelBuffer Float → PixelBuffer Float
  buffer_call (window_size w h) b = set_window_size fs w h b
  buffer_call (display_info w h state force) b = set_display_info fs w h state force b
  buffer_call forget_source b = reset_source fs b

  unfoldable pub buffer_calls : List BufferCall → PixelBuffer Float → PixelBuffer Float
  buffer_calls [] b = b
  buffer_calls (r ∷ rs) b = buffer_calls rs (buffer_call r b)

  pub buffer_call-Told : (r : BufferCall) (b : PixelBuffer Float) → Told b → Told (buffer_call r b)
  unfolding buffer_call Told reset_source
  buffer_call-Told (window_size w h) b t = set_window_size-Told w h b t
  buffer_call-Told (display_info w h state force) b t = set_display_info-Told w h state force b t
  buffer_call-Told forget_source b t = t

  pub buffer_calls-keep-Told :
      (rs : List BufferCall) (b : PixelBuffer Float) → Told b → Told (buffer_calls rs b)
  unfolding buffer_calls
  buffer_calls-keep-Told [] b t = t
  buffer_calls-keep-Told (r ∷ rs) b t =
      buffer_calls-keep-Told rs (buffer_call r b) (buffer_call-Told r b t)

  -- From the constructor on, and after every sequence of window sizes, display infos and resets, the
  -- size that the listener was last told, 0 by 0 if it was told none, is the buffer's size.
  pub buffer_calls-Told :
      (rs : List BufferCall) (fresh : PixelBuffer Float)
      → Told (buffer_calls rs (construct_buffer fs fresh))
  unfolding construct_buffer Told last_told
  buffer_calls-Told rs fresh = buffer_calls-keep-Told rs (construct_buffer fs fresh) (λ _. refl)
