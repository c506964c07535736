-- ===== src/Desktop/Samples.antt =====
-- A desktop of 800 by 400, for tests: one that was never started and one that runs.
use packages_services_vnc_fl.Pixels.{PixelBuffer, rotation_0}
use packages_services_vnc_fl.Display.{VirtualDisplay, get_display_rect, centred, aspect_ratio}
use packages_services_vnc_fl.Input.Kernel.{Kernel, Device}
use packages_services_vnc_fl.Desktop.State.{Desktop, Platform, set_screen_layout}
use packages_services_vnc_fl.Prelude.Int.{pos, signed32}
use packages_services_vnc_fl.Prelude.{
  none, some, ℕ, true, false, ◌∷◌, [], refl, ◌≡◌, ◌<◌, ◌≤◌, ◌*◌, ◌/◌, arith, inl,
}
use packages_services_vnc_fl.Desktop.InStep.{served_size, InStep}
use packages_services_vnc_fl.Display.Whole.{whole}
use packages_services_vnc_fl.Display.Viewport.{IsCentred}
use packages_services_vnc_fl.Desktop.Pointer.{IsScaling}

abbrev pub willing : Kernel
willing = record { opens = λ cs. some 3; accepts = λ cs c. true; errno = λ cs. 0 }

abbrev pub blank : Device
blank = record {
  fd = none;
  opened = false;
  user_dev = record {
    bus = 0;
    vendor = 0;
    product = 0;
    version = 0;
    absmin_x = 0;
    absmax_x = 0;
    absmin_y = 0;
    absmax_y = 0;
  };
  left_clicked = false;
  right_clicked = false;
  middle_clicked = false;
  last_x = pos 0;
  last_y = pos 0;
  touch = false;
  use_relative_input = false;
  calls = [];
}

abbrev pub screen : Platform
screen = record {
  internal_display = λ es. true;
  active_mode = λ es. some (800, 400);
  display_state = λ es. some rotation_0;
  next_buffer = λ es. some (800, 400);
  clipboard = λ es. [];
}

abbrev pub full_buffer : PixelBuffer ℕ
full_buffer = record {
  width = 800;
  height = 400;
  rotated = false;
  client_width = 800;
  client_height = 400;
  source_width = 800;
  source_height = 400;
  scale_x = 1;
  scale_y = 1;
  has_listener = true;
  notified = [];
}

abbrev pub full_display : VirtualDisplay
full_display = record {
  width = 800;
  height = 400;
  layer_id = 0;
  source_width = 800;
  source_height = 400;
  display = some 0;
}

abbrev pub never_started : Desktop ℕ
never_started = record {
  layer_id = pos 0;
  asked_width = pos 1;
  asked_height = pos 1;
  asked_rotation = pos 0;
  touch = false;
  relative = false;
  pixels = none;
  display = none;
  display_rect = record { left = pos 0; top = pos 0; right = pos 0; bottom = pos 0 };
  mode_width = 0;
  mode_height = 0;
  display_state = rotation_0;
  input = none;
  frame_changed = false;
  cursor_changed = false;
  clipboard_changed = false;
  cursor = record { width = 0; height = 0; hot_x = pos 0; hot_y = pos 0; buffer = 0 };
  has_server = false;
  log = [];
}

abbrev pub running : Desktop ℕ
running = record never_started {
  pixels = some full_buffer;
  display = some full_display;
  display_rect = record { left = pos 0; top = pos 0; right = pos 800; bottom = pos 400 };
  mode_width = 800;
  mode_height = 400;
  input = some blank;
  has_server = true;
  log = set_screen_layout 800 400 ∷ [];
}

full_rect : running.display_rect ≡ get_display_rect whole full_display
unfolding get_display_rect centred aspect_ratio signed32
full_rect = refl

pub running-InStep : InStep whole running
unfolding served_size
running-InStep = (refl, refl, refl, (refl, refl, full_rect, refl))

pub div_mono : (x y r : ℕ) → x ≤ y → x / r ≤ y / r
div_mono x y r h = grind arith

pub mul-div-le : (m q : ℕ) → 0 < q → (q * m) / q ≤ m
mul-div-le m q h = grind arith

abbrev pub whole-IsScaling : IsScaling whole
whole-IsScaling = record {
  Le = λ a b. a ≤ b;
  of_u32-mono = λ m n h. h;
  to_u32-mono = λ x y h. h;
  over-mono = λ x y q hq h. div_mono x y q h;
  over-product = λ m q hm hq hq'. mul-div-le m q hq;
}

abbrev pub full_centred : IsCentred 800 400 running.display_rect
full_centred = record {
  off_x = 0;
  off_y = 0;
  out_width = 800;
  out_height = 400;
  place = refl;
  across = omega arith;
  down = omega arith;
  fills = inl refl;
}
