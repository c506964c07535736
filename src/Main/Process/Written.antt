-- ===== src/Main/Process/Written.antt =====
-- A run in which a viewer types and points at a desktop that shows its display.
use packages_services_vnc_fl.Main.Process.{
  processes, Process, Entry, serves, enter, run_entries, initialize_vnc_flinger, with_env,
  set_props, begin_service, serve_call, notify_server_cursor_changed, process_display_events,
}
use packages_services_vnc_fl.Main.Process.Runs.{no_params, new_process, until_shown}
use packages_services_vnc_fl.Main.Process.Rules.{follows_rules}
use packages_services_vnc_fl.Main.Process.Devices.{OfDesktop, all_entries_fit}
use packages_services_vnc_fl.Main.Process.Events.{is_closed, IsHeard, run_entries-IsHeard}
use packages_services_vnc_fl.Main.Arguments.{desktop_setup}
use packages_services_vnc_fl.Jni.{copy_arguments}
use packages_services_vnc_fl.Desktop.History.{
  types, moves, turn, make_call, run_calls, set_display_props, frame_arrives,
}
use packages_services_vnc_fl.Desktop.Samples.{willing, screen}
use packages_services_vnc_fl.Desktop.Server.{
  construct_desktop, set_cursor, process_clipboard, process_frames, process_cursor,
  desktop_key_event, desktop_pointer_event, send_pointer, outside, on_frame_available, take_frame,
  draw_frame,
}
use packages_services_vnc_fl.Desktop.Size.{
  compute_screen_layout, renew_display, replace_display, take_display_rect,
  on_buffer_dimensions_changed, rotation_of, listen, start_desktop, update_display_info, read_asked,
  set_pixels_info,
}
use packages_services_vnc_fl.Display.{get_display_rect, virtual_display, is_upright, centred}
use packages_services_vnc_fl.Display.Whole.{whole}
use packages_services_vnc_fl.Pixels.{
  set_source, construct_buffer, is_display_rotated, set_buffer_rotation,
}
use packages_services_vnc_fl.Prelude.Int.{pos, signed32}
use packages_services_vnc_fl.Prelude.{List, true, false, ◌≡◌, ◌∷◌, refl, [], some, ◌++◌}
use packages_services_vnc_fl.Desktop.Drawn.{IsDrawn}
use packages_services_vnc_fl.Main.Process.Frames.{run_entries-IsDrawn}

abbrev viewer_works : List (Entry no_params whole willing screen)
viewer_works =
    until_shown
    ++ serves (types b'A' true)
      ∷ serves (types b'A' false)
      ∷ serves (moves (pos 100) (pos 50) 1)
      ∷ []

works_rules : follows_rules no_params whole willing screen viewer_works new_process ≡ true
unfolding follows_rules enter initialize_vnc_flinger desktop_setup copy_arguments with_env
    construct_desktop set_props begin_service turn set_display_props serve_call make_call
    start_desktop update_display_info read_asked set_pixels_info listen set_buffer_rotation
    is_display_rotated rotation_of construct_buffer set_source on_buffer_dimensions_changed
    renew_display replace_display take_display_rect compute_screen_layout
    notify_server_cursor_changed set_cursor process_display_events run_calls process_cursor
    process_frames process_clipboard desktop_key_event desktop_pointer_event outside
    get_display_rect virtual_display is_upright centred signed32 send_pointer
works_rules = refl

works_fit : all_entries_fit no_params whole willing screen is_closed viewer_works ≡ true
unfolding all_entries_fit
works_fit = refl

run_entries-IsHeard_example :
    (q : Process no_params whole willing screen) × (run_entries no_params whole willing screen
        viewer_works new_process
      ≡ some q)
    × OfDesktop (IsHeard willing) q.desktop
run_entries-IsHeard_example =
    run_entries-IsHeard no_params whole willing screen viewer_works new_process refl refl
      works_rules works_fit

-- A frame arrives and is processed.
abbrev shows_frame : List (Entry no_params whole willing screen)
shows_frame = until_shown ++ serves frame_arrives ∷ processes ∷ []

frame_rules : follows_rules no_params whole willing screen shows_frame new_process ≡ true
unfolding follows_rules enter initialize_vnc_flinger desktop_setup copy_arguments with_env
    construct_desktop set_props begin_service turn set_display_props serve_call make_call
    start_desktop update_display_info read_asked set_pixels_info listen set_buffer_rotation
    is_display_rotated rotation_of construct_buffer set_source on_buffer_dimensions_changed
    renew_display replace_display take_display_rect compute_screen_layout
    notify_server_cursor_changed set_cursor process_display_events run_calls process_cursor
    process_frames process_clipboard on_frame_available take_frame draw_frame
frame_rules = refl

run_entries-IsDrawn_example :
    (q : Process no_params whole willing screen) × (run_entries no_params whole willing screen
        shows_frame new_process
      ≡ some q)
    × OfDesktop (λ o l. IsDrawn screen l) q.desktop
run_entries-IsDrawn_example =
    run_entries-IsDrawn no_params whole willing screen shows_frame new_process refl refl frame_rules
