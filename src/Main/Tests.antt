-- ===== src/Main/Tests.antt =====
-- The arguments of a server with a parameter library of two names.
use packages_services_vnc_fl.Audio.Args.{Arg}
use packages_services_vnc_fl.Main.Arguments.{
  Params, Server, desktop_setup, dash_v, is_dashed, setup_loop, refuse_argument, after_dash,
}
use packages_services_vnc_fl.Main.Reading.{
  desktop_setup-format_opts, desktop_setup-SetsUp, SetsUp, format_opts, wanted, with_value, in_one,
  pid_in,
}
use packages_services_vnc_fl.Prelude.{
  false, List, [], ◌∷◌, true, Option, ◌≡◌, refl, none, if◌then◌else◌, ◌==◌, some,
}
use packages_services_vnc_fl.Main.Service.{
  ServerConfig, Round, start_service, choose_listener, Statics, ready, on_abs_unix, quit, Service,
  set_up,
}
use packages_services_vnc_fl.Main.Loop.{count}
use packages_services_vnc_fl.Main.Ends.{
  after_entries, start_service_processes, start_service_ends, quit_is_final, Entry, starts, sets_up,
}
use packages_services_vnc_fl.Main.Counts.{
  is_deletion, is_read_event, is_remove_pid, is_select_call, is_process_display,
}

abbrev pid_name : Arg
pid_name = b'p' ∷ b'i' ∷ b'd' ∷ []

-- Takes a value for a name that starts with r, and "l..." in one argument; it keeps the arguments.
abbrev pub set_named : Arg → Arg → List Arg → Option (List Arg)
set_named [] value c = none
set_named (x ∷ xs) value c = if x == b'r' then some (value ∷ c) else none

abbrev pub set_whole : Arg → List Arg → Option (List Arg)
set_whole [] c = none
set_whole (x ∷ xs) c = if x == b'l' then some ((x ∷ xs) ∷ c) else none

abbrev pub params : Params
params = record { Config = List Arg; set_pair = set_named; set_one = set_whole }

abbrev new_server : Server params
new_server = record { config = []; pid_file = []; has_desktop = false }

abbrev set_server : Server params
set_server = record {
  config = (b'l' ∷ []) ∷ (b'1' ∷ []) ∷ [];
  pid_file = b'f' ∷ [];
  has_desktop = true;
}

desktop_setup-format_opts_test :
    desktop_setup params
      ([]
        ∷ format_opts
            (with_value (b'r' ∷ []) (b'1' ∷ []) ∷ pid_in (b'f' ∷ []) ∷ in_one (b'l' ∷ []) ∷ []))
      new_server
    ≡ record { code = 0; printed = false; server = set_server }
unfolding wanted is_dashed
desktop_setup-format_opts_test =
    desktop_setup-format_opts params (λ value c. refl) (λ c. refl) []
      (with_value (b'r' ∷ []) (b'1' ∷ []) ∷ pid_in (b'f' ∷ []) ∷ in_one (b'l' ∷ []) ∷ []) new_server
      set_server refl

desktop_setup-SetsUp_example :
    SetsUp params false (desktop_setup params ([] ∷ dash_v ∷ []) new_server)
desktop_setup-SetsUp_example = desktop_setup-SetsUp params ([] ∷ dash_v ∷ []) new_server

-- "-v" prints the version.
version_code : (desktop_setup params ([] ∷ dash_v ∷ []) new_server).code ≡ 4
unfolding desktop_setup setup_loop refuse_argument is_dashed
version_code = refl

-- A name that the library does not know is refused, and its value is not read.
unknown_code :
    (desktop_setup params ([] ∷ (b'-' ∷ b'x' ∷ []) ∷ (b'1' ∷ []) ∷ []) new_server).code ≡ 2
unfolding desktop_setup setup_loop refuse_argument is_dashed after_dash
unknown_code = refl

-- Two viewers, of whom one is gone, and a display event; then a round without viewers.
abbrev pub config : ServerConfig
config = record {
  rfbport = 5900;
  localhost_only = false;
  rfbunixandroid = true;
  rfbunixpath = [];
  rfbunixmode = 384;
  pid_file = b'f' ∷ [];
}

abbrev pub busy_round : Round
busy_round = record {
  clients =
      record { fd = 8; is_shutdown = false; has_buffered_data = true }
      ∷ record { fd = 9; is_shutdown = true; has_buffered_data = false }
      ∷ [];
  wait_ms = 1500;
  selected = ready (3 ∷ 8 ∷ []) (8 ∷ []);
  accepted = λ l. none;
  sockets = 8 ∷ [];
  event = true;
}

abbrev lonely_round : Round
lonely_round = record busy_round { clients = []; sockets = [] }

abbrev some_rounds : List Round
some_rounds = busy_round ∷ lonely_round ∷ []

abbrev statics : Statics
statics = record { caught_signal = false; has_desktop = true }

start_service_ends_example :
    (r : Service) × (start_service config 3 (some (5 ∷ 6 ∷ [])) some_rounds statics ≡ some r)
    × (r.code ≡ 0)
    × (r.statics.has_desktop ≡ false)
    × (count (is_deletion 6) r.log ≡ 1)
    × (count is_remove_pid r.log ≡ 1)
start_service_ends_example =
    start_service_ends config 3 (some (5 ∷ 6 ∷ [])) some_rounds statics 6 refl

start_service_processes_example :
    (r : Service) × (start_service config 3 (some (5 ∷ [])) some_rounds statics ≡ some r)
    × (count is_read_event r.log ≡ 1)
    × (count is_process_display r.log ≡ 1)
start_service_processes_example = start_service_processes config 3 (5 ∷ []) some_rounds statics refl

-- A service that ends, and a second set-up.
abbrev between : List Entry
between =
    starts
      (record { config = config; event_fd = 3; listeners = some (5 ∷ []); rounds = some_rounds })
    ∷ sets_up true
    ∷ []

quit_is_final_example :
    (r : Service) × (start_service config 3
        (some (5 ∷ []))
        some_rounds
        (record { caught_signal = true; has_desktop = true })
      ≡ some r)
    × (r.code ≡ 0)
    × (count is_select_call r.log ≡ 0)
unfolding after_entries start_service set_up quit
quit_is_final_example =
    quit_is_final between config 3 (5 ∷ []) some_rounds statics
      (record { caught_signal = true; has_desktop = true }) refl refl

-- A second `startService` with no `initializeVncFlinger` in between uses a null pointer.
second_start :
    start_service config 3 (some (5 ∷ [])) some_rounds (record statics { has_desktop = false })
    ≡ none
unfolding start_service
second_start = refl

abs_listener :
    choose_listener (record config { rfbunixandroid = false; rfbunixpath = b'@' ∷ b'v' ∷ [] })
    ≡ on_abs_unix (b'@' ∷ b'v' ∷ [])
unfolding choose_listener
abs_listener = refl
