-- ===== src/Desktop/Tests.antt =====
-- A desktop of 800 by 400 with whole numbers for the floats, and what it goes through.
use packages_services_vnc_fl.Pixels.{rotation_0, set_display_info}
use packages_services_vnc_fl.Display.{get_width, get_height}
use packages_services_vnc_fl.Display.Whole.{whole}
use packages_services_vnc_fl.Desktop.State.{Desktop, resize_display, cursor_pos}
use packages_services_vnc_fl.Desktop.Size.{
  set_screen_layout_of, set_pixels_info, result_success, result_invalid, same_side,
}
use packages_services_vnc_fl.Desktop.InStep.{InStep, quiet}
use packages_services_vnc_fl.Desktop.Layout.{set_pixels_info-InStep}
use packages_services_vnc_fl.Desktop.History.{
  DesktopCall, starts, lays_out, moves, frame_arrives, processes_frames, stops, processes_clipboard,
}
use packages_services_vnc_fl.Desktop.Viewer.{Shows, set_screen_layout_resizes}
use packages_services_vnc_fl.Desktop.Running.{Takes}
use packages_services_vnc_fl.Desktop.Pointer.{desktop_pointer_event_bounds}
use packages_services_vnc_fl.Prelude.Int.{
  signed32, is_negative, pos, is_positive, to_u32, i32, ◌-ℤ◌,
}
use packages_services_vnc_fl.Prelude.{
  arith, some, ◌≤◌, ℕ, List, true, ◌≡◌, false, ◌∷◌, refl, [], ◌⊎◌, ◌&&◌,
}
use packages_services_vnc_fl.Desktop.Server.{desktop_pointer_event, outside, send_pointer, scaled}
use packages_services_vnc_fl.Input.Pointer.{pointer_event}
use packages_services_vnc_fl.Desktop.Samples.{
  whole-IsScaling, full_centred, running-InStep, willing, blank, screen, full_buffer, running,
}

abbrev day : List (DesktopCall ℕ)
day =
    starts blank full_buffer
    ∷ lays_out (pos 400) (pos 200)
    ∷ moves (pos 10) (pos 10) 1
    ∷ frame_arrives
    ∷ processes_frames
    ∷ stops
    ∷ processes_clipboard
    ∷ []

set_screen_layout_resizes_example :
    ((is_negative running.layer_id ≡ true)
      × (set_screen_layout_of whole willing screen (pos 400) (pos 200) running
          ≡ some (
            record running { log = resize_display (pos 400) (pos 200) ∷ running.log },
            result_invalid,
          )))
    ⊎ ((is_negative running.layer_id ≡ false)
        × (((same_side (pos 400) (get_width running.display_rect)
                && same_side (pos 200) (get_height running.display_rect))
              ≡ true)
            ⊎ ((is_positive (pos 400) && is_positive (pos 200)) ≡ false))
        × (set_screen_layout_of whole willing screen (pos 400) (pos 200) running
            ≡ some (running, result_invalid)))
    ⊎ (Takes whole willing screen (pos 400) (pos 200) running
        × (d : Desktop ℕ) × (set_screen_layout_of whole willing screen (pos 400) (pos 200) running
            ≡ some (d, result_success))
        × InStep whole d
        × Shows whole 400 200 d)
set_screen_layout_resizes_example =
    set_screen_layout_resizes whole willing screen (pos 400) (pos 200) running full_buffer refl
      running-InStep (record { across = refl; down = refl })

set_pixels_info-InStep_example :
    (d : Desktop ℕ) × (set_pixels_info whole willing screen true running ≡ some (d, tt))
    × InStep whole d
    × (d.pixels ≡ some (quiet whole (set_display_info whole 800 400 rotation_0 true full_buffer)))
set_pixels_info-InStep_example =
    set_pixels_info-InStep whole willing screen true running full_buffer running-InStep refl

desktop_pointer_event_bounds_example :
    ((outside running.display_rect (pos 800) (pos 200) ≡ true)
      × (desktop_pointer_event whole willing screen (pos 800) (pos 200) 1 running
          ≡ some (running, tt)))
    ⊎ ((outside running.display_rect (pos 800) (pos 200) ≡ false)
        × (x : ℕ) × (y : ℕ) × (x ≤ 800)
        × (y ≤ 400)
        × (desktop_pointer_event whole willing screen (pos 800) (pos 200) 1 running
            ≡ some (
              record running {
                input = some (pointer_event willing 1 (pos x) (pos y) blank).0;
                log = cursor_pos x y ∷ running.log;
              },
              tt,
            )))
desktop_pointer_event_bounds_example =
    desktop_pointer_event_bounds whole willing screen whole-IsScaling running full_buffer refl
      full_centred (omega arith, omega arith) (omega arith, omega arith) (omega arith, omega arith)
      blank refl refl (pos 800) (pos 200) 1

-- The right edge passes the test: the server is given column 800 of a display with columns 0 to 799.
edge_event :
    (d : Desktop ℕ) × (desktop_pointer_event whole willing screen (pos 800) (pos 200) 0 running
      ≡ some (d, tt))
    × (d.log ≡ cursor_pos 800 200 ∷ running.log)
unfolding desktop_pointer_event outside send_pointer scaled to_u32 signed32 i32 ◌-ℤ◌
edge_event = (_, refl, refl)
