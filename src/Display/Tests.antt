-- ===== src/Display/Tests.antt =====
-- The rectangle of a display of 800 by 400 in a buffer of 600 by 600.
use packages_services_vnc_fl.Display.{
  VirtualDisplay, virtual_display, get_display_rect, centred, is_upright, aspect_ratio,
}
use packages_services_vnc_fl.Display.Viewport.{IsCentred, get_display_rect-IsCentred}
use packages_services_vnc_fl.Display.Whole.{whole, whole-IsRounded}
use packages_services_vnc_fl.Prelude.{some, arith, ◌^◌, ◌-◌, ◌≡◌, refl}
use packages_services_vnc_fl.Pixels.{rotation_0, rotation_180}
use packages_services_vnc_fl.Prelude.Int.{signed32, pos}

abbrev wide : VirtualDisplay
wide = record {
  width = 600;
  height = 600;
  layer_id = 0;
  source_width = 800;
  source_height = 400;
  display = some 0;
}

made_upright : virtual_display 800 400 rotation_180 600 600 0 ≡ wide
unfolding virtual_display is_upright
made_upright = refl

get_display_rect-IsCentred_example : IsCentred 600 600 (get_display_rect whole wide)
get_display_rect-IsCentred_example =
    get_display_rect-IsCentred whole whole-IsRounded wide (omega arith) (omega arith) (omega arith)
      (omega arith)

letterbox :
    get_display_rect whole wide
    ≡ record { left = pos 0; top = pos 150; right = pos 600; bottom = pos 450 }
unfolding get_display_rect centred aspect_ratio signed32
letterbox = refl

-- The layer stack -1 of a desktop that has none passes the test, and a display is made for it.
no_layer : (virtual_display 800 400 rotation_0 600 600 (2 ^ 32 - 1)).display ≡ some (2 ^ 32 - 1)
unfolding virtual_display
no_layer = refl
