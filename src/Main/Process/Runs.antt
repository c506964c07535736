-- ===== src/Main/Process/Runs.antt =====
-- Runs of a process of one viewer, from its arguments to its end.
use packages_services_vnc_fl.Main.Tests.{config, busy_round}
use packages_services_vnc_fl.Main.Service.{
  process_display, add_socket, LoopCall, Service, start_service, run_service, Round, ready,
}
use packages_services_vnc_fl.Main.Process.Whole.{steps, AllInner, start_service_comes_to_end}
use packages_services_vnc_fl.Pixels.{
  set_source, construct_buffer, is_display_rotated, set_buffer_rotation, reset_source, PixelBuffer,
}
use packages_services_vnc_fl.Main.Process.{
  ends, quits, process_display_events, notify_server_cursor_changed, initializes, begins, serves,
  processes, tells_cursor, sets_props, Entry, Process, Icon, enter, initialize_vnc_flinger,
  with_env, set_props, begin_service, serve_call, run_entries,
}
use packages_services_vnc_fl.Desktop.Size.{
  compute_screen_layout, renew_display, replace_display, take_display_rect,
  on_buffer_dimensions_changed, rotation_of, listen, stop_desktop,
}
use packages_services_vnc_fl.Desktop.Samples.{willing, screen, blank, full_buffer, never_started}
use packages_services_vnc_fl.Prelude.{List, true, ◌≡◌, ◌∷◌, false, none, refl, [], some, ◌++◌, ℕ}
use packages_services_vnc_fl.Display.Whole.{whole}
use packages_services_vnc_fl.Main.Arguments.{Params, desktop_setup}
use packages_services_vnc_fl.Main.Process.Rules.{follows_rules}
use packages_services_vnc_fl.Prelude.Int.{pos}
use packages_services_vnc_fl.Desktop.History.{
  run_calls, starts, turn, set_display_props, make_call, stops, connects,
}
use packages_services_vnc_fl.Jni.{copy_arguments}
use packages_services_vnc_fl.Desktop.Server.{
  query_connection, process_clipboard, process_frames, process_cursor, set_cursor,
  construct_desktop,
}
use packages_services_vnc_fl.Desktop.Size.{
  start_desktop, update_display_info, read_asked, set_pixels_info,
}
use packages_services_vnc_fl.Main.Ends.{quits}
use packages_services_vnc_fl.Input.Lifecycle.{stop}
use packages_services_vnc_fl.Main.Process.Sound.{run_entries-IsSound}
use packages_services_vnc_fl.Main.Process.Invariant.{IsSound}
use packages_services_vnc_fl.Desktop.State.{Desktop}

-- A parameter library that knows no name.
abbrev pub no_params : Params
no_params = record { Config = Unit {0}; set_pair = λ a b c. none; set_one = λ a c. none }

abbrev pub new_process : Process no_params whole willing screen
new_process = record {
  env = false;
  caught_signal = false;
  serving = false;
  config = tt;
  pid_file = [];
  desktop = none;
  copies = 0;
}

abbrev pub arrow : Icon
arrow = record {
  loaded = true;
  is_valid = true;
  cursor = record { width = 16; height = 16; hot_x = pos 0; hot_y = pos 0; buffer = 4096 };
}

abbrev pub until_shown : List (Entry no_params whole willing screen)
until_shown =
    initializes ((b'v' ∷ []) ∷ []) true never_started
    ∷ sets_props (pos 800) (pos 400) (pos 0) (pos 1) true false
    ∷ begins (some (5 ∷ []))
    ∷ serves (starts blank full_buffer)
    ∷ tells_cursor arrow
    ∷ processes
    ∷ []

abbrev at_end : List (Entry no_params whole willing screen)
at_end = serves stops ∷ quits ∷ ends ∷ []

whole_rules :
    follows_rules no_params whole willing screen (until_shown ++ at_end) new_process ≡ true
unfolding follows_rules enter initialize_vnc_flinger desktop_setup copy_arguments with_env
    construct_desktop set_props begin_service turn set_display_props serve_call make_call
    start_desktop update_display_info read_asked set_pixels_info listen set_buffer_rotation
    is_display_rotated rotation_of construct_buffer set_source on_buffer_dimensions_changed
    renew_display replace_display take_display_rect compute_screen_layout
    notify_server_cursor_changed set_cursor process_display_events run_calls process_cursor
    process_frames process_clipboard stop_desktop reset_source stop
whole_rules = refl

run_entries-IsSound_example :
    (q : Process no_params whole willing screen) × (run_entries no_params whole willing screen
        (until_shown ++ at_end)
        new_process
      ≡ some q)
    × IsSound no_params whole willing screen q
run_entries-IsSound_example =
    run_entries-IsSound no_params whole willing screen (until_shown ++ at_end) new_process refl
      whole_rules

-- The buffer turns upright.
abbrev upright_buffer : PixelBuffer ℕ
upright_buffer = record full_buffer { width = 400; height = 800 }

-- A process with a desktop that was given its size.
abbrev set_up_process : Process no_params whole willing screen
set_up_process = record new_process {
  env = true;
  desktop =
      some
        (record never_started { asked_width = pos 800; asked_height = pos 400; layer_id = pos 1 });
}

-- The server starts the desktop when a viewer connects; the viewer leaves after the first display
-- event, and Java quits.
abbrev reacts_to : LoopCall → List (Entry no_params whole willing screen)
reacts_to (add_socket sock) = serves (starts blank full_buffer) ∷ serves (connects sock) ∷ []
reacts_to process_display = serves stops ∷ quits ∷ []
reacts_to _ = []

abbrev react : List LoopCall → List (Entry no_params whole willing screen)
react [] = []
react (c ∷ log) = reacts_to c

reacts_to-inner : (c : LoopCall) → AllInner no_params whole willing screen (reacts_to c)
reacts_to-inner (add_socket sock) = (refl, (refl, tt))
reacts_to-inner process_display = (refl, (refl, tt))
reacts_to-inner c = tt

react-inner : (log : List LoopCall) → AllInner no_params whole willing screen (react log)
react-inner [] = tt
react-inner (c ∷ log) = reacts_to-inner c

abbrev first_round : Round
first_round = record busy_round { accepted = λ l. some 8; selected = ready (5 ∷ []) [] }

abbrev started : Service
started =
    run_service config 3 (some (5 ∷ [])) (first_round ∷ [])
      (record { caught_signal = false; has_desktop = true })

start_service_comes_to_end_test :
    (q : Process no_params whole willing screen) × (run_entries no_params whole willing screen
        (steps no_params whole willing screen (5 ∷ []) react started.log)
        set_up_process
      ≡ some q)
    × (q.desktop ≡ none)
    × (q.serving ≡ false)
    × (q.env ≡ false)
unfolding follows_rules enter initialize_vnc_flinger desktop_setup copy_arguments with_env
    construct_desktop set_props begin_service turn set_display_props serve_call make_call
    start_desktop update_display_info read_asked set_pixels_info listen set_buffer_rotation
    is_display_rotated rotation_of construct_buffer set_source on_buffer_dimensions_changed
    renew_display replace_display take_display_rect compute_screen_layout
    notify_server_cursor_changed set_cursor process_display_events run_calls process_cursor
    process_frames process_clipboard stop_desktop reset_source stop steps start_service run_service
    query_connection
start_service_comes_to_end_test =
    start_service_comes_to_end no_params whole willing screen (5 ∷ []) react react-inner
      set_up_process (refl, refl, refl) config 3 (first_round ∷ [])
      (record { caught_signal = false; has_desktop = true }) started refl refl
