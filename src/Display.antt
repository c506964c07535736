-- ===== src/Display.antt =====
-- src/vncflinger/VirtualDisplay.{h,cpp}: the display that SurfaceFlinger draws for the viewers.
-- The sides of a display mode are natural numbers below 2 ^ 31, as `ui::Size` has positive int32_t.
pub mod Viewport
pub mod Whole
mod Tests
use packages_services_vnc_fl.Pixels.{
  Floats, Rotation, rotation_0, rotation_90, rotation_180, rotation_270,
}
use packages_services_vnc_fl.Prelude.{
  Bool, if◌then◌else◌, ℕ, true, ◌/◌, leb, ◌+◌, Option, some, ◌^◌, ◌%◌, false, none, ◌-◌,
}
use packages_services_vnc_fl.Prelude.Int.{ℤ, i32, signed32, ◌-ℤ◌}

-- `android::Rect`, of four int32_t.
pub record Rect : Type 0 where
  pub left : ℤ
  pub top : ℤ
  pub right : ℤ
  pub bottom : ℤ

abbrev pub get_width : Rect → ℤ
get_width r = i32 (r.right -ℤ r.left)

abbrev pub get_height : Rect → ℤ
get_height r = i32 (r.bottom -ℤ r.top)

-- The members; `source_width` and `source_height` are the sides of `mSourceRect`, whose corner is 0.
-- `display` is the layer stack of the display made by SurfaceComposerClient, if one was made.
pub record VirtualDisplay : Type 0 where
  pub width : ℕ
  pub height : ℕ
  pub layer_id : ℕ
  pub source_width : ℕ
  pub source_height : ℕ
  pub display : Option ℕ

-- uint32_t a + b and a - b.
abbrev pub add32 : ℕ → ℕ → ℕ
add32 a b = (a + b) % 2 ^ 32

abbrev pub sub32 : ℕ → ℕ → ℕ
sub32 a b = (a + 2 ^ 32 - b) % 2 ^ 32

-- The rectangle of the sides `out_width` and `out_height` in the middle.
unfoldable pub centred : ℕ → ℕ → ℕ → ℕ → Rect
centred width height out_width out_height =
    let off_x = sub32 width out_width / 2 in
    let off_y = sub32 height out_height / 2 in
    record {
      left = signed32 off_x;
      top = signed32 off_y;
      right = signed32 (add32 off_x out_width);
      bottom = signed32 (add32 off_y out_height);
    }

unfoldable pub is_upright : Rotation → Bool
is_upright rotation_0 = true
is_upright rotation_90 = false
is_upright rotation_180 = true
is_upright rotation_270 = false

-- The constructor. `mLayerId >= 0` is a test of an unsigned number.
unfoldable pub virtual_display : ℕ → ℕ → Rotation → ℕ → ℕ → ℕ → VirtualDisplay
virtual_display mode_width mode_height state width height layer_id = record {
  width = width;
  height = height;
  layer_id = layer_id;
  source_width = if is_upright state then mode_width else mode_height;
  source_height = if is_upright state then mode_height else mode_width;
  display = if leb 0 layer_id then some layer_id else none;
}

module _ (fs : Floats) where
  open fs use {Float, of_u32, to_u32, times, over}

  unfoldable pub aspect_ratio : VirtualDisplay → Float
  aspect_ratio v = over (of_u32 v.source_width) (of_u32 v.source_height)

  unfoldable pub get_display_rect : VirtualDisplay → Rect
  unfolding aspect_ratio
  get_display_rect v =
      if leb v.width (to_u32 (times (of_u32 v.height) (aspect_ratio v)))
      then centred v.width v.height v.width (to_u32 (over (of_u32 v.width) (aspect_ratio v)))
      else centred v.width v.height (to_u32 (times (of_u32 v.height) (aspect_ratio v))) v.height
