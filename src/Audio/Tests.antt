-- ===== src/Audio/Tests.antt =====
-- The audio streamer on concrete arguments, sockets and reads.
use packages_services_vnc_fl.Audio.Args.{
  initial, parse, parse-format, opt_unix, opt_tcp, no_more, is_tcp, Arg, listener, format,
  dash_unix, settings_of, audio_main_args, dash_tcp, unix_is_sticky, unix_socket, options, meant,
}
use packages_services_vnc_fl.Sockets.Net.{
  Net, NetCall, send, accept, open_unix, open_tcp, control_socket, set_reuse_address, bind_unix,
  bind_tcp, listen, select_write, shutdown, close,
}
use packages_services_vnc_fl.Sockets.Delivery.{SendsAtMost}
use packages_services_vnc_fl.Prelude.Int.{ℤ, pos}
use packages_services_vnc_fl.Audio.Record.{
  Ended, record_thread, null, stop_record, start_record, present,
}
use packages_services_vnc_fl.Prelude.{
  ℕ, arith, true, ◌∷◌, length, false, ◌-◌, [], ◌≡◌, some, refl, List,
}
use packages_services_vnc_fl.Audio.Streams.{failed_init_is_kept, Streams, record_thread-Streams}
use packages_services_vnc_fl.Audio.Serve.{Session, create_thread, MainResult, start_audio_streamer}
use packages_services_vnc_fl.Sockets.Closed.{open_fds}
use packages_services_vnc_fl.Audio.Leak.{create_thread_leaks, LeavesListening, ZeroIsTaken}
use packages_services_vnc_fl.Jni.{Locals}
use packages_services_vnc_fl.Audio.Streamer.{start_audio_streamer_leaks}

-- A decimal digit or nothing.
abbrev digit : Arg → ℕ
digit [] = 0
digit (c ∷ cs) = c - b'0'

parse-format_test :
    parse digit initial (dash_unix ∷ (b'@' ∷ []) ∷ dash_tcp ∷ (b'9' ∷ []) ∷ [])
    ≡ options (meant digit initial (opt_unix (b'@' ∷ []) ∷ opt_tcp (b'9' ∷ []) ∷ []) no_more)
unfolding format
parse-format_test =
    parse-format digit initial (opt_unix (b'@' ∷ []) ∷ opt_tcp (b'9' ∷ []) ∷ []) no_more

-- A TCP port asked for after a Unix name: the Unix socket is made.
tcp_is_ignored :
    listener
      (settings_of (parse digit initial (dash_unix ∷ (b'@' ∷ []) ∷ dash_tcp ∷ (b'9' ∷ []) ∷ [])))
    ≡ unix_socket (b'@' ∷ [])
unfolding listener parse initial
tcp_is_ignored = refl

unix_is_sticky_test :
    is_tcp (
      listener (
        settings_of (
          audio_main_args digit
            (record initial { using_socket_unix = true })
            (dash_tcp ∷ (b'9' ∷ []) ∷ []))))
    ≡ false
unix_is_sticky_test =
    unix_is_sticky digit (record initial { using_socket_unix = true }) (dash_tcp ∷ (b'9' ∷ []) ∷ [])
      refl

-- Each send takes all of its buffer.
abbrev full : NetCall → ℤ
full (send s buffer) = pos (length buffer)
full _ = pos 0

abbrev full_net : Net
full_net = record { answer = λ cs c. full c }

full-SendsAtMost : SendsAtMost full_net
full-SendsAtMost cs s buffer = omega arith

-- The listening socket is descriptor 5 and each client's 6.
abbrev busy : NetCall → ℤ
busy open_tcp = pos 5
busy open_unix = pos 5
busy (control_socket name) = pos 5
busy (accept s) = pos 6
busy (send s buffer) = pos (length buffer)
busy _ = pos 0

abbrev busy_net : Net
busy_net = record { answer = λ cs c. busy c }

busy-SendsAtMost : SendsAtMost busy_net
busy-SendsAtMost cs s buffer = omega arith

busy-ZeroIsTaken : ZeroIsTaken busy_net
busy-ZeroIsTaken cs open_unix h = refl
busy-ZeroIsTaken cs open_tcp h = refl
busy-ZeroIsTaken cs (control_socket name) h = refl
busy-ZeroIsTaken cs (accept s) h = refl
busy-ZeroIsTaken cs (set_reuse_address s) h = cc
busy-ZeroIsTaken cs (bind_unix s path) h = cc
busy-ZeroIsTaken cs (bind_tcp s port) h = cc
busy-ZeroIsTaken cs (listen s) h = cc
busy-ZeroIsTaken cs (select_write s sec usec) h = cc
busy-ZeroIsTaken cs (send s buffer) h = cc
busy-ZeroIsTaken cs (shutdown s) h = cc
busy-ZeroIsTaken cs (close s) h = cc

record_thread-Streams_example :
    (e : Ended) × (record_thread full_net true true
        (pos 6)
        ((1 ∷ []) ∷ [] ∷ (2 ∷ 3 ∷ []) ∷ [])
        null
        []
        []
      ≡ some e)
    × (e.audio ≡ stop_record ∷ start_record ∷ [])
    × (rest : List NetCall) × (e.calls ≡ close (pos 6) ∷ shutdown (pos 6) ∷ rest)
    × Streams full_net ((1 ∷ []) ∷ [] ∷ (2 ∷ 3 ∷ []) ∷ []) [] rest
record_thread-Streams_example =
    record_thread-Streams full_net true (pos 6) ((1 ∷ []) ∷ [] ∷ (2 ∷ 3 ∷ []) ∷ []) null [] []
      full-SendsAtMost refl refl

failed_init_is_kept_example :
    (e f : Ended) × (record_thread full_net false true (pos 6) ((1 ∷ []) ∷ []) null [] [] ≡ some e)
    × (e.calls ≡ [])
    × (e.audio ≡ [])
    × (record_thread full_net true true (pos 7) ((2 ∷ []) ∷ []) e.recorder e.audio e.calls ≡ some f)
    × (f.audio ≡ stop_record ∷ start_record ∷ [])
    × (f.recorder ≡ present false)
failed_init_is_kept_example =
    failed_init_is_kept full_net true true (pos 6) (pos 7) ((1 ∷ []) ∷ []) ((2 ∷ []) ∷ []) [] []
      full-SendsAtMost refl

-- One client on the TCP socket, whose session reads twice.
abbrev one_session : List Session
one_session = record { check = true; allocated = true; reads = (1 ∷ 2 ∷ []) ∷ (3 ∷ []) ∷ [] } ∷ []

abbrev idle : Ended
idle = record { recorder = null; audio = []; calls = [] }

create_thread_leaks_test :
    (e : Ended) × (create_thread busy_net initial one_session idle ≡ some e)
    × LeavesListening busy_net (listener initial) [] e.calls
unfolding listener initial open_fds
create_thread_leaks_test =
    create_thread_leaks busy_net initial one_session idle tt busy-SendsAtMost busy-ZeroIsTaken refl

abbrev from_java : Locals
from_java = record { next = 2; refs = 1 ∷ 0 ∷ []; peak = 2; pinned = []; copies = 0 }

start_audio_streamer_leaks_example :
    (l : Locals) × (r : MainResult) × (start_audio_streamer busy_net digit 1
        ((b'a' ∷ []) ∷ format (opt_unix (b'@' ∷ b'a' ∷ []) ∷ []) no_more)
        one_session
        initial
        idle
        from_java
      ≡ some (l, r))
    × (r.code ≡ 0)
    × (r.settings ≡ meant digit initial (opt_unix (b'@' ∷ b'a' ∷ []) ∷ []) no_more)
    × (e : Ended) × (r.ended ≡ some e)
    × LeavesListening busy_net
        (listener (meant digit initial (opt_unix (b'@' ∷ b'a' ∷ []) ∷ []) no_more))
        []
        e.calls
unfolding format listener initial open_fds meant
start_audio_streamer_leaks_example =
    start_audio_streamer_leaks busy_net digit 1 (b'a' ∷ []) (opt_unix (b'@' ∷ b'a' ∷ []) ∷ [])
      no_more one_session initial idle from_java (ground arith) refl (omega arith, refl)
      busy-SendsAtMost busy-ZeroIsTaken refl
