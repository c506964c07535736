-- ===== src/Main/Process.antt =====
-- The process of src/vncflinger/main.cpp between its JNI calls: the statics, and what each call makes
-- of them and of the desktop. `startService` runs while the others come in: its beginning, what the
-- server makes of the desktop in it and its end are steps of their own.
mod Parts
pub mod Rules
pub mod Invariant
pub mod Sound
pub mod Surface
pub mod Callback
pub mod Whole
pub mod Initializing
pub mod Typing
pub mod Holding
pub mod Pointing
pub mod Devices
pub mod Events
pub mod Frames
mod Runs
mod Written
mod Tests
use packages_services_vnc_fl.Audio.Args.{Arg}
use packages_services_vnc_fl.Jni.{Locals, copy_arguments, new_ref}
use packages_services_vnc_fl.Main.Arguments.{Params, Server, desktop_setup}
use packages_services_vnc_fl.Pixels.{Floats, rotation_0}
use packages_services_vnc_fl.Display.{VirtualDisplay}
use packages_services_vnc_fl.Input.Kernel.{Kernel}
use packages_services_vnc_fl.Desktop.State.{
  Desktop, Platform, Cursor, Event, new_surface, get_clipboard, set_clipboard, resize_display,
}
use packages_services_vnc_fl.Desktop.Server.{
  construct_desktop, set_cursor, notify_clipboard_changed,
}
use packages_services_vnc_fl.Desktop.History.{
  DesktopCall, make_call, run_calls, set_display_props, left_by, processes_cursor, processes_frames,
  processes_clipboard,
}
use packages_services_vnc_fl.Prelude.{
  ℕ, List, [], ◌∷◌, Bool, true, false, Option, some, none, if◌then◌else◌, ◌||◌, ◌==◌, ◌+◌, not,
}
use packages_services_vnc_fl.Prelude.Int.{ℤ, pos, negsuc}
unfoldable pub use Parts.{callbacks, fresh_desktop, find_methods}
pub use Parts.{is_callback, Icon, is_there, at_entry}

module _ (ps : Params) (fs : Floats) (k : Kernel) (pf : Platform) where
  open ps use {Config}
  open fs use {Float}

  -- `env` tells whether `gEnv` and `gThiz` are set, `serving` whether `startService` has made its
  -- server and its listeners and has not ended; `copies` counts the strings that are never freed.
  pub record Process : Type 0 where
    pub env : Bool
    pub caught_signal : Bool
    pub serving : Bool
    pub config : Config
    pub pid_file : Arg
    pub desktop : Option (Desktop Float)
    pub copies : ℕ

  -- A call of the desktop: the callbacks that it made use `gEnv`, which must not be null.
  unfoldable pub with_env : Process → Desktop Float → Option (Desktop Float) → Option Process
  unfolding callbacks
  with_env p d none = none
  with_env p d (some d') =
      if p.env || callbacks d'.log == callbacks d.log
      then some (record p { desktop = some d' })
      else none

  -- `initializeVncFlinger`, with the Java array's strings, whether `eventfd` succeeds, and the memory
  -- of a new desktop. A desktop that was there is given up for the new one.
  pub record Initialized : Type 0 where
    pub code : ℕ
    pub locals : Locals
    pub process : Option Process

  unfoldable pub initialize_vnc_flinger : List Arg → Bool → Desktop Float → Process → Initialized
  unfolding find_methods fresh_desktop
  initialize_vnc_flinger texts created memory p =
      let (l, argv) = copy_arguments 1 texts (at_entry p.copies) in
      let setup =
        desktop_setup ps argv
          (record { config = p.config; pid_file = p.pid_file; has_desktop = is_there p.desktop }) in
      let q = record p {
        env = true;
        config = setup.server.config;
        pid_file = setup.server.pid_file;
        copies = l.copies;
      } in
      record {
        code = setup.code;
        locals = find_methods l;
        process =
            if setup.code == 0
            then with_env q (fresh_desktop memory)
                (left_by (construct_desktop created (fresh_desktop memory)))
            else some q;
      }

  -- The end of `startService`, with or without an exception.
  unfoldable pub end_service : Process → Process
  end_service p = record p { env = false; serving = false; desktop = none }

  -- `startService` up to its loop; `none` for the listeners is the exception of their making.
  unfoldable pub begin_service : Option (List ℕ) → Process → Option Process
  unfolding end_service
  begin_service none p = some (end_service p)
  begin_service (some ls) p = elim p.desktop [
    | none ↦ none
    | some _ ↦ some (record p { env = true; serving = true })
  ]

  -- A call that the server or the frame consumer makes of the desktop, which they hold by a pointer.
  unfoldable pub serve_call : DesktopCall Float → Process → Option Process
  unfolding with_env
  serve_call c p = elim p.desktop [ none ↦ none | some d ↦ with_env p d (make_call fs k pf c d) ]

  abbrev pub display_calls : List (DesktopCall Float)
  display_calls = processes_cursor ∷ processes_frames ∷ processes_clipboard ∷ []

  -- The end of a round of the event loop whose event descriptor had something.
  unfoldable pub process_display_events : Process → Option Process
  unfolding with_env
  process_display_events p = elim p.desktop [
    | none ↦ none
    | some d ↦ with_env p d (run_calls fs k pf display_calls d)
  ]

  unfoldable pub notify_server_cursor_changed : Icon → Process → Option Process
  unfolding with_env
  notify_server_cursor_changed icon p = elim p.desktop [
    | none ↦ some p
    | some d ↦
        if not icon.loaded
        then some p
        else if not icon.is_valid
        then some p
        else with_env p d (left_by (set_cursor icon.cursor d))
  ]

  unfoldable pub notify_server_clipboard_changed : Process → Option Process
  unfolding with_env
  notify_server_clipboard_changed p = elim p.desktop [
    | none ↦ some p
    | some d ↦ with_env p d (left_by (notify_clipboard_changed d))
  ]

  unfoldable pub set_props : ℤ → ℤ → ℤ → ℤ → Bool → Bool → Process → Process
  set_props w h rotation layer touch relative p = elim p.desktop [
    | none ↦ p
    | some d ↦ record p { desktop = some (set_display_props w h rotation layer touch relative d) }
  ]

  -- Java calls it in the callback `onNewSurfaceAvailable`, where the process has the desktop that
  -- `replace_display` leaves. The display whose surface Java is given, by whether the display has its producer and the window
  -- and the surface can be made; a surface that cannot be made is null as well.
  unfoldable pub get_surface : Bool → Bool → Bool → Process → Option VirtualDisplay
  get_surface producer window surface p = elim p.desktop [
    | none ↦ none
    | some d ↦ elim d.display [
      | none ↦ none
      | some v ↦
          if not producer
          then none
          else if not window
          then none
          else if surface
          then some v
          else none
    ]
  ]

  -- The signal handler: the process, and the file that is removed before it exits with 1.
  unfoldable pub cleanup_signal_handler : Process → Process × Option Arg
  cleanup_signal_handler p =
      (record p { desktop = none }, elim p.pid_file [ [] ↦ none | c ∷ cs ↦ some (c ∷ cs) ])

  pub data Entry : Type 0 where
    initializes : List Arg → Bool → Desktop Float → Entry
    begins : Option (List ℕ) → Entry
    serves : DesktopCall Float → Entry
    processes ends quits tells_clipboard : Entry
    sets_props : ℤ → ℤ → ℤ → ℤ → Bool → Bool → Entry
    tells_cursor : Icon → Entry

  -- `none` is the use of a null pointer.
  unfoldable pub enter : Entry → Process → Option Process
  enter (initializes texts created memory) p =
      (initialize_vnc_flinger texts created memory p).process
  enter (begins ls) p = begin_service ls p
  enter (serves c) p = serve_call c p
  enter processes p = process_display_events p
  enter ends p = some (end_service p)
  enter quits p = some (record p { caught_signal = true })
  enter tells_clipboard p = notify_server_clipboard_changed p
  enter (sets_props w h rotation layer touch relative) p =
      some (set_props w h rotation layer touch relative p)
  enter (tells_cursor icon) p = notify_server_cursor_changed icon p

  unfoldable pub run_entries : List Entry → Process → Option Process
  run_entries [] p = some p
  run_entries (e ∷ es) p = elim (enter e p) [ none ↦ none | some q ↦ run_entries es q ]
