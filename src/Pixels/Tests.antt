-- ===== src/Pixels/Tests.antt =====
-- The frame buffer's size on concrete displays, with fractions for the floats.
use packages_services_vnc_fl.Pixels.{
  Floats, PixelBuffer, set_window_size, set_display_info, set_buffer_rotation, rotation_90,
  construct_buffer, is_display_rotated,
}
use packages_services_vnc_fl.Prelude.{false, ℕ, ◌/◌, ◌≡◌, true, [], ◌*◌, ◌∷◌, arith, refl}
use packages_services_vnc_fl.Pixels.Told.{
  Told, buffer_calls, display_info, window_size, forget_source, buffer_calls-Told,
}
use packages_services_vnc_fl.Pixels.Sizes.{
  Fits, set_display_info-Fits, turn_back, square_turn_misfits, set_window_size-Fits,
}

abbrev fractions : Floats
fractions = record {
  Float = ℕ × ℕ;
  one = (1, 1);
  of_u32 = λ n. (n, 1);
  to_u32 = λ q. q.0 / q.1;
  times = λ p q. (p.0 * q.0, p.1 * q.1);
  over = λ p q. (p.0 * q.1, p.1 * q.0);
}

-- A phone's display of 1080 by 2340, seen at half its size.
abbrev half_size : PixelBuffer (ℕ × ℕ)
half_size = record {
  width = 540;
  height = 1170;
  rotated = false;
  client_width = 540;
  client_height = 1170;
  source_width = 1080;
  source_height = 2340;
  scale_x = (1, 2);
  scale_y = (1, 2);
  has_listener = true;
  notified = [];
}

-- A square display of 800 by 800, seen at 400 by 300.
abbrev square : PixelBuffer (ℕ × ℕ)
square = record half_size {
  width = 400;
  height = 300;
  client_width = 400;
  client_height = 300;
  source_width = 800;
  source_height = 800;
}

set_window_size-Fits_test :
    let c = set_window_size fractions 360 780 half_size in
    Fits fractions c
    × (c.width ≡ 360)
    × (c.height ≡ 780)
    × (c.source_width ≡ 1080)
    × (c.source_height ≡ 2340)
    × (c.rotated ≡ false)
    × (c.notified ≡ (360, 780) ∷ [])
set_window_size-Fits_test =
    set_window_size-Fits fractions 360 780 half_size (record { across = refl; down = refl })

set_display_info-Fits_test :
    Fits fractions (set_display_info fractions 1080 2340 rotation_90 false half_size)
unfolding is_display_rotated
set_display_info-Fits_test =
    set_display_info-Fits fractions 1080 2340 rotation_90 false half_size refl

-- The turned display is seen turned.
turned_size :
    let c = set_display_info fractions 1080 2340 rotation_90 false half_size in
    (c.width ≡ 1170) × (c.height ≡ 540)
unfolding set_display_info
turned_size = (refl, refl)

square_turn_misfits_example :
    let c =
      set_window_size fractions 400 300
        (set_display_info fractions 800 800 rotation_90 false square) in
    (c.width ≡ 300) × (c.height ≡ 400) × ¬ Fits fractions c
square_turn_misfits_example =
    square_turn_misfits fractions 800 square (record { across = refl; down = refl }) refl refl refl
      (λ e. omega arith)

buffer_calls-Told_example : Told fractions (
    buffer_calls fractions
      (display_info 1080 2340 rotation_90 true ∷ window_size 300 200 ∷ forget_source ∷ [])
      (construct_buffer fractions half_size))
buffer_calls-Told_example =
    buffer_calls-Told fractions
      (display_info 1080 2340 rotation_90 true ∷ window_size 300 200 ∷ forget_source ∷ []) half_size

turn_back_test :
    let c = set_buffer_rotation fractions false (set_buffer_rotation fractions true half_size) in
    (c.width ≡ 540)
    × (c.height ≡ 1170)
    × (c.scale_x ≡ (1, 2))
    × (c.scale_y ≡ (1, 2))
    × (c.rotated ≡ false)
    × (c.client_width ≡ 540)
    × (c.client_height ≡ 1170)
turn_back_test = turn_back fractions true half_size
