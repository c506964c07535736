-- ===== src/Main/Process/Tests.antt =====
-- Single calls of a process, and its set-up.
use packages_services_vnc_fl.Main.Tests.{params}
use packages_services_vnc_fl.Main.Reading.{wanted, format_opts, ServerOpt, with_value, pid_in}
use packages_services_vnc_fl.Main.Process.{
  process_display_events, notify_server_cursor_changed, Process, initialize_vnc_flinger, with_env,
  serve_call, run_entries,
}
use packages_services_vnc_fl.Desktop.Samples.{
  willing, screen, blank, full_buffer, never_started, running, whole-IsScaling, full_centred,
}
use packages_services_vnc_fl.Prelude.{
  List, true, ◌≡◌, ◌∷◌, false, none, refl, [], some, ◌++◌, ℕ, ◌⊎◌, ◌≤◌, arith, ◌&&◌, not,
}
use packages_services_vnc_fl.Display.Whole.{whole}
use packages_services_vnc_fl.Main.Arguments.{Server}
use packages_services_vnc_fl.Prelude.Int.{pos}
use packages_services_vnc_fl.Desktop.History.{moves}
use packages_services_vnc_fl.Desktop.Server.{set_cursor, outside}
use packages_services_vnc_fl.Main.Process.Surface.{cursor_before_start}
use packages_services_vnc_fl.Desktop.State.{notify_event, Desktop, cursor_pos}
use packages_services_vnc_fl.Input.Kernel.{Device}
use packages_services_vnc_fl.Input.Pointer.Reading.{down}
use packages_services_vnc_fl.Main.Process.Typing.{typing, with_input, viewer_types_text}
use packages_services_vnc_fl.Input.Pointer.Buttons.{Agrees}
use packages_services_vnc_fl.Input.Keyboard.Actions.{Actions}
use packages_services_vnc_fl.Input.Writes.{key_writes, held}
use packages_services_vnc_fl.Main.Process.Pointing.{Points, viewer_moves_pointer}
use packages_services_vnc_fl.Input.Keyboard.Layout.{typed}
use packages_services_vnc_fl.Main.Process.Initializing.{HasNew, initialize_reads_options}
use packages_services_vnc_fl.Main.Process.Runs.{no_params, new_process, arrow}
use packages_services_vnc_fl.Input.Keyboard.Released.{lets_all_go, KeyEvents, keys_actions}
use packages_services_vnc_fl.Main.Process.Holding.{sending, viewer_lets_go}
use packages_services_vnc_fl.Input.Keyboard.Balance.{touches}

-- A service whose viewer is yet to be accepted.
abbrev early : Process no_params whole willing screen
early = record new_process { env = true; serving = true; desktop = some never_started }

abbrev told_early : Process no_params whole willing screen
told_early = record early {
  desktop = some (record never_started {
    cursor = arrow.cursor;
    cursor_changed = true;
    log = notify_event ∷ [];
  });
}

cursor_before_start_example :
    process_display_events no_params whole willing screen told_early ≡ none
unfolding notify_server_cursor_changed set_cursor with_env
cursor_before_start_example =
    cursor_before_start no_params whole willing screen arrow early told_early never_started refl
      refl refl refl refl

-- A desktop at work with an open mouse.
abbrev mouse : Device
mouse = record blank { fd = some 3; opened = true }

abbrev with_mouse : Desktop ℕ
with_mouse = record running { input = some mouse }

abbrev at_work : Process no_params whole willing screen
at_work = record new_process { env = true; serving = true; desktop = some with_mouse }

abbrev hi : List ℕ
hi = b'H' ∷ b'i' ∷ b'!' ∷ []

viewer_types_text_example :
    (j : Device) × (run_entries no_params whole willing screen
        (typing no_params whole willing screen hi)
        at_work
      ≡ some (with_input no_params whole willing screen at_work with_mouse j))
    × (j ≡ record mouse { calls = j.calls })
    × (acts : Actions) × (key_writes j.calls ≡ key_writes mouse.calls ++ acts)
    × (typed acts ≡ hi)
viewer_types_text_example =
    viewer_types_text no_params whole willing screen hi at_work with_mouse mouse refl refl refl refl
      (omega arith)

-- Shift is held for the A while a ! is typed.
abbrev overlapping : KeyEvents
overlapping = (true, b'A') ∷ (true, b'!') ∷ (false, b'A') ∷ (false, b'!') ∷ []

viewer_lets_go_example :
    (j : Device) × (run_entries no_params whole willing screen
        (sending no_params whole willing screen overlapping)
        at_work
      ≡ some (with_input no_params whole willing screen at_work with_mouse j))
    × ((code : ℕ)
        → held code false (key_writes j.calls) ≡ (
            held code false (key_writes mouse.calls)
            && not (touches code (keys_actions overlapping))))
unfolding lets_all_go
viewer_lets_go_example =
    viewer_lets_go no_params whole willing screen overlapping at_work with_mouse mouse refl refl
      refl refl refl

mouse-Agrees : Agrees mouse
unfolding down
mouse-Agrees = record { left = refl; right = refl; middle = refl }

viewer_moves_pointer_example :
    ((outside with_mouse.display_rect (pos 200) (pos 100) ≡ true)
      × (serve_call no_params whole willing screen (moves (pos 200) (pos 100) 1) at_work
          ≡ some (record at_work { desktop = some with_mouse })))
    ⊎ ((outside with_mouse.display_rect (pos 200) (pos 100) ≡ false)
        × (x : ℕ) × (y : ℕ) × (j : Device) × (x ≤ 800)
        × (y ≤ 400)
        × (serve_call no_params whole willing screen (moves (pos 200) (pos 100) 1) at_work
            ≡ some (record at_work {
              desktop =
                  some
                    (record with_mouse { input = some j; log = cursor_pos x y ∷ with_mouse.log });
            }))
        × Points no_params whole willing screen whole-IsScaling mouse j 1 x y)
viewer_moves_pointer_example =
    viewer_moves_pointer no_params whole willing screen whole-IsScaling at_work with_mouse
      full_buffer mouse (pos 200) (pos 100) 1 refl refl refl refl refl full_centred
      (omega arith, omega arith) (omega arith, omega arith) (omega arith, omega arith) refl refl
      refl mouse-Agrees

-- The same process with a library that takes some parameters.
abbrev with_params : Process params whole willing screen
with_params = record {
  env = false;
  caught_signal = false;
  serving = false;
  config = [];
  pid_file = [];
  desktop = none;
  copies = 0;
}

abbrev some_opts : List ServerOpt
some_opts = with_value (b'r' ∷ []) (b'1' ∷ []) ∷ pid_in (b'f' ∷ []) ∷ []

abbrev asked_server : Server params
asked_server = record { config = (b'1' ∷ []) ∷ []; pid_file = b'f' ∷ []; has_desktop = true }

initialize_reads_options_example :
    let r =
      initialize_vnc_flinger params whole willing screen
        ((b'v' ∷ []) ∷ format_opts some_opts)
        true
        never_started
        with_params in
    (r.code ≡ 0)
    × (r.locals.pinned ≡ [])
    × (r.locals.peak ≤ 6)
    × (q : Process params whole willing screen) × (r.process ≡ some q)
    × HasNew params whole willing screen true asked_server with_params q
    × (q.copies ≡ 5)
unfolding wanted format_opts
initialize_reads_options_example =
    initialize_reads_options params whole willing screen (b'v' ∷ []) some_opts true never_started
      with_params asked_server (λ value c. refl) (λ c. refl) (ground arith) refl
