-- ===== src/Main/Service.antt =====
-- `startService` of src/vncflinger/main.cpp: the listeners, the event loop and the cleaning up. The
-- library of the RFB server is not part of the program: `Round` has what its calls, `select` and the
-- descriptors return in one round of the loop, and `log` the calls, newest first.
use packages_services_vnc_fl.Audio.Args.{Arg}
use packages_services_vnc_fl.Prelude.{
  List, ℕ, Option, if◌then◌else◌, Bool, true, false, ◌==◌, [], ◌∷◌, none, ◌++◌, ◌||◌, some, not,
  ◌&&◌, ◌/◌, ◌%◌, ◌*◌,
}

-- The parameters that `desktopSetup` has read.
pub record ServerConfig : Type 0 where
  pub rfbport : ℕ
  pub localhost_only : Bool
  pub rfbunixandroid : Bool
  pub rfbunixpath : Arg
  pub rfbunixmode : ℕ
  pub pid_file : Arg

pub data ServerListener : Type 0 where
  on_android : Arg → ServerListener
  on_unix : Arg → ℕ → ServerListener
  on_abs_unix : Arg → ServerListener
  on_local_tcp on_all_tcp : ℕ → ServerListener

pub data LoopCall : Type 0 where
  make_listeners : ServerListener → LoopCall
  write_pid remove_pid release_desktop check_timeouts : LoopCall
  remove_socket add_socket read_socket write_socket delete_listener : ℕ → LoopCall
  select_call : List ℕ → List ℕ → Option (ℕ × ℕ) → LoopCall
  reject_connection read_event process_display : LoopCall

-- A viewer's socket, as the first `getSockets` of a round finds it.
pub record Client : Type 0 where
  pub fd : ℕ
  pub is_shutdown : Bool
  pub has_buffered_data : Bool

pub data Selected : Type 0 where
  interrupted failed : Selected
  ready : List ℕ → List ℕ → Selected

-- One round in which `gCaughtSignal` is seen false: the sockets, the soonest timeout, what `select`
-- says, the sockets that the listeners accept (`none` for a connection that is refused), the sockets
-- after that, and whether `read` gives a positive value of the event descriptor.
pub record Round : Type 0 where
  pub clients : List Client
  pub wait_ms : ℕ
  pub selected : Selected
  pub accepted : ℕ → Option ℕ
  pub sockets : List ℕ
  pub event : Bool

abbrev pub mem : ℕ → List ℕ → Bool
mem x [] = false
mem x (y ∷ ys) = x == y || mem x ys

-- The kinds of listener, by the path of the socket; the first byte of an empty path is its end.
unfoldable pub choose_for : ServerConfig → Arg → ServerListener
choose_for c [] = if c.localhost_only then on_local_tcp c.rfbport else on_all_tcp c.rfbport
choose_for c (b ∷ bs) =
    if c.rfbunixandroid
    then on_android (b ∷ bs)
    else if not (b == b'@')
    then on_unix (b ∷ bs) c.rfbunixmode
    else on_abs_unix (b ∷ bs)

unfoldable pub choose_listener : ServerConfig → ServerListener
unfolding choose_for
choose_listener c = choose_for c c.rfbunixpath

-- The first loop of a round: sockets that are shut down are removed, the others are watched.
unfoldable pub shutdown_clients : List Client → List LoopCall → List LoopCall
shutdown_clients [] log = log
shutdown_clients (c ∷ cs) log =
    shutdown_clients cs (if c.is_shutdown then remove_socket c.fd ∷ log else log)

unfoldable pub read_fds : List Client → List ℕ
read_fds [] = []
read_fds (c ∷ cs) = let fds = read_fds cs in if c.is_shutdown then fds else c.fd ∷ fds

unfoldable pub write_fds : List Client → List ℕ
write_fds [] = []
write_fds (c ∷ cs) =
    let fds = write_fds cs in if not c.is_shutdown && c.has_buffered_data then c.fd ∷ fds else fds

-- `timeval` of the soonest timeout; with none, `select` waits with no limit.
unfoldable pub wait_time : ℕ → Option (ℕ × ℕ)
wait_time ms = if ms == 0 then none else some (ms / 1000, ms % 1000 * 1000)

-- The loop over the listeners.
unfoldable pub accept_clients : Round → List ℕ → List ℕ → List LoopCall → List LoopCall
accept_clients r readable [] log = log
accept_clients r readable (l ∷ ls) log = accept_clients r readable ls (
    if mem l readable
    then elim (r.accepted l) [ none ↦ reject_connection ∷ log | some sock ↦ add_socket sock ∷ log ]
    else log)

-- The loop over the viewers' sockets.
unfoldable pub serve_clients : List ℕ → List ℕ → List ℕ → List LoopCall → List LoopCall
serve_clients readable writable [] log = log
serve_clients readable writable (s ∷ ss) log =
    let log' = if mem s readable then read_socket s ∷ log else log in
    serve_clients readable writable ss (if mem s writable then write_socket s ∷ log' else log')

-- The end of a round, once there are viewers: the event descriptor is read.
unfoldable pub read_event_fd : Round → List LoopCall → List LoopCall
read_event_fd r log = if r.event then process_display ∷ read_event ∷ log else read_event ∷ log

-- From `select` on; `false` is the exception.
unfoldable pub after_select : List ℕ → Round → List LoopCall → Selected → List LoopCall × Bool
unfolding accept_clients serve_clients read_event_fd
after_select listeners r log interrupted = (log, true)
after_select listeners r log failed = (log, false)
after_select listeners r log (ready readable writable) =
    let log' = check_timeouts ∷ accept_clients r readable listeners log in
    elim r.sockets [
      | [] ↦ (log', true)
      | s ∷ ss ↦ (read_event_fd r (serve_clients readable writable (s ∷ ss) log'), true)
    ]

unfoldable pub round : ℕ → List ℕ → Round → List LoopCall → List LoopCall × Bool
unfolding shutdown_clients read_fds write_fds wait_time after_select
round event_fd listeners r log =
    let watched = check_timeouts ∷ shutdown_clients r.clients log in
    after_select listeners r
      (select_call (event_fd ∷ listeners ++ read_fds r.clients) (write_fds r.clients)
          (wait_time r.wait_ms)
        ∷ watched)
      r.selected

unfoldable pub event_loop : ℕ → List ℕ → List Round → List LoopCall → List LoopCall × Bool
unfolding round
event_loop event_fd listeners [] log = (log, true)
event_loop event_fd listeners (r ∷ rs) log =
    let (log', went) = round event_fd listeners r log in
    elim went [ true ↦ event_loop event_fd listeners rs log' | false ↦ (log', false) ]

unfoldable pub delete_listeners : List ℕ → List LoopCall → List LoopCall
delete_listeners [] log = log
delete_listeners (l ∷ ls) log = delete_listeners ls (delete_listener l ∷ log)

abbrev pub with_pid : Arg → LoopCall → List LoopCall → List LoopCall
with_pid [] call log = log
with_pid (c ∷ cs) call log = call ∷ log

-- The statics of the file that the service uses.
pub record Statics : Type 0 where
  pub caught_signal : Bool
  pub has_desktop : Bool

-- What `startService` returns, the statics and the calls.
pub record Service : Type 0 where
  pub code : ℕ
  pub statics : Statics
  pub log : List LoopCall

-- The try block: the descriptors of the listeners, or `none` if their making throws, and the rounds
-- until `gCaughtSignal` is set, of which there are none if it is set before; `false` is an exception.
unfoldable pub service_body :
    ServerConfig → ℕ → Option (List ℕ) → Bool → List Round → List LoopCall → List LoopCall × Bool
unfolding event_loop
service_body c event_fd none caught rounds log = (make_listeners (choose_listener c) ∷ log, false)
service_body c event_fd (some listeners) caught rounds log =
    event_loop event_fd listeners (if caught then [] else rounds)
      (with_pid c.pid_file write_pid (make_listeners (choose_listener c) ∷ log))

abbrev pub all_of : Option (List ℕ) → List ℕ
all_of none = []
all_of (some ls) = ls

-- `startService` where the listeners cannot be made, or with a desktop.
unfoldable pub run_service : ServerConfig → ℕ → Option (List ℕ) → List Round → Statics → Service
unfolding service_body delete_listeners
run_service c event_fd listeners rounds s =
    let (log, went) = service_body c event_fd listeners s.caught_signal rounds [] in
    record {
      code = if went then 0 else 3;
      statics = record { caught_signal = s.caught_signal || went; has_desktop = false };
      log =
          with_pid c.pid_file remove_pid
            (delete_listeners (all_of listeners) (release_desktop ∷ log));
    }

-- `desktop->getEventFd()`, once the listeners are made, uses a null pointer if there is no desktop.
abbrev pub uses_null : Option (List ℕ) → Statics → Bool
uses_null none s = false
uses_null (some ls) s = not s.has_desktop

-- `none` is this use of a null `desktop`. The log has the calls that the service makes; what a call of
-- the desktop does inside, its own uses of null pointers included, is in Main.Process, whose
-- `process_display_events` is the entry `process_display` and is `none` where `processCursor` uses an
-- unset `mServer`.
unfoldable pub start_service :
    ServerConfig → ℕ → Option (List ℕ) → List Round → Statics → Option Service
unfolding run_service
start_service c event_fd listeners rounds s =
    if uses_null listeners s then none else some (run_service c event_fd listeners rounds s)

-- The JNI call `quit`.
unfoldable pub quit : Statics → Statics
quit s = record s { caught_signal = true }

-- What the JNI call `initializeVncFlinger` leaves, by whether `desktopSetup` returns 0.
unfoldable pub set_up : Bool → Statics → Statics
set_up done s = record s { has_desktop = s.has_desktop || done }
