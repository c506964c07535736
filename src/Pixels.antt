-- ===== src/Pixels.antt =====
-- src/vncflinger/AndroidPixelBuffer.{h,cpp}: the size of the frame buffer that the viewers see.
-- `setSize`, `width` and `height` are those of the inherited ManagedPixelBuffer, which stores the size.
pub mod Sizes
pub mod Told
mod Tests
use packages_services_vnc_fl.Prelude.{
  ℕ, if◌then◌else◌, Bool, false, ◌==◌, not, true, ◌∷◌, List, [], ◌&&◌, ◌||◌,
}

-- The C++ floats, which are a parameter: conversions from and to uint32_t, product and quotient.
pub record Floats : Type 1 where
  pub Float : Type 0
  pub one : Float
  pub of_u32 : ℕ → Float
  pub to_u32 : Float → ℕ
  pub times : Float → Float → Float
  pub over : Float → Float → Float

-- `ui::Rotation`.
pub data Rotation : Type 0 where
  rotation_0 rotation_90 rotation_180 rotation_270 : Rotation

-- `notified` logs the calls of the listener, newest first (they leave the buffer as it is); `has_listener` is `mListener != nullptr`.
pub record PixelBuffer (F : Type 0) : Type 0 where
  pub width : ℕ
  pub height : ℕ
  pub rotated : Bool
  pub client_width : ℕ
  pub client_height : ℕ
  pub source_width : ℕ
  pub source_height : ℕ
  pub scale_x : F
  pub scale_y : F
  pub has_listener : Bool
  pub notified : List (ℕ × ℕ)

unfoldable pub is_display_rotated : Rotation → Bool
is_display_rotated rotation_0 = false
is_display_rotated rotation_90 = true
is_display_rotated rotation_180 = false
is_display_rotated rotation_270 = true

unfoldable pub same_bool : Bool → Bool → Bool
same_bool true b = b
same_bool false b = not b

-- `if (mListener != nullptr) mListener->onBufferDimensionsChanged(width(), height());`
abbrev pub notify : {F : Type 0} → PixelBuffer F → PixelBuffer F
notify b = if b.has_listener then record b { notified = (b.width, b.height) ∷ b.notified } else b

module _ (fs : Floats) where
  open fs use {Float, one, of_u32, to_u32, times, over}

  -- The constructor; `fresh` stands for the members that it leaves as they are.
  unfoldable pub construct_buffer : PixelBuffer Float → PixelBuffer Float
  construct_buffer fresh = record fresh {
    width = 0;
    height = 0;
    rotated = false;
    scale_x = one;
    scale_y = one;
    notified = [];
  }

  unfoldable pub set_buffer_rotation : Bool → PixelBuffer Float → PixelBuffer Float
  unfolding same_bool
  set_buffer_rotation rotated b =
      if same_bool rotated b.rotated
      then b
      else notify (record b {
        rotated = rotated;
        width = b.height;
        height = b.width;
        scale_x = b.scale_y;
        scale_y = b.scale_x;
      })

  -- From the scales on, where the client's size is set.
  unfoldable pub resize : ℕ → ℕ → PixelBuffer Float → PixelBuffer Float
  resize w h b =
      let c = record b {
        scale_x = over (of_u32 b.client_width) (of_u32 b.source_width);
        scale_y = over (of_u32 b.client_height) (of_u32 b.source_height);
      } in
      if w == b.width && h == b.height then c else notify (record c { width = w; height = h })

  unfoldable pub update_buffer_size : Bool → PixelBuffer Float → PixelBuffer Float
  unfolding resize
  update_buffer_size from_display b =
      let w = to_u32 (times (of_u32 b.source_width) b.scale_x) in
      let h = to_u32 (times (of_u32 b.source_height) b.scale_y) in
      if from_display
      then resize w h (record b { client_width = w; client_height = h })
      else resize b.client_width b.client_height b

  unfoldable pub set_window_size : ℕ → ℕ → PixelBuffer Float → PixelBuffer Float
  unfolding update_buffer_size
  set_window_size width height b =
      if b.client_width == width && b.client_height == height
      then b
      else update_buffer_size false (record b { client_width = width; client_height = height })

  -- What follows the rotation in `setDisplayInfo`.
  unfoldable pub set_source : ℕ → ℕ → Bool → PixelBuffer Float → PixelBuffer Float
  unfolding update_buffer_size
  set_source w h force b =
      if not (w == b.source_width) || (not (h == b.source_height) || force)
      then update_buffer_size true (record b { source_width = w; source_height = h })
      else b

  unfoldable pub set_display_info : ℕ → ℕ → Rotation → Bool → PixelBuffer Float → PixelBuffer Float
  unfolding set_source set_buffer_rotation is_display_rotated
  set_display_info mode_width mode_height state force b =
      let rotated = is_display_rotated state in
      set_source (if rotated then mode_height else mode_width)
        (if rotated then mode_width else mode_height) force (set_buffer_rotation rotated b)

  unfoldable pub reset_source : PixelBuffer Float → PixelBuffer Float
  reset_source b = record b { source_width = 0; source_height = 0 }
