-- ===== src/Audio/Serve.antt =====
-- `audiostreamer_create_thread` and `audio_main` of src/audiostreamer/audiostreamer.cpp.
use packages_services_vnc_fl.Sockets.Net.{Net, NetCall}
use packages_services_vnc_fl.Sockets.Create.{
  create_android_socket, create_unix_socket, create_tcp_socket, accept_socket,
}
use packages_services_vnc_fl.Audio.Args.{
  Settings, Listener, listener, options, usage, audio_main_args, Arg, default_socket_unix_name,
  unix_socket, tcp_socket, android_socket,
}
use packages_services_vnc_fl.Audio.Record.{Ended, record_thread}
use packages_services_vnc_fl.Prelude.{
  ℕ, List, Bool, some, Option, none, ◌∷◌, if◌then◌else◌, true, not, [], false,
}
use packages_services_vnc_fl.Prelude.Int.{ℤ, is_positive}
use packages_services_vnc_fl.Jni.{Locals, copy_arguments}

-- One round of `while (gRunning)` in which it is seen true: what AudioRecord and `malloc` say if a
-- client comes, and what is read for that client.
pub record Session : Type 0 where
  pub check : Bool
  pub allocated : Bool
  pub reads : List (List ℕ)

-- `none` is the overflow in `createUnixSocket`.
unfoldable pub make_socket : Net → Listener → List NetCall → Option (List NetCall × ℤ)
make_socket net android_socket cs = some (create_android_socket net default_socket_unix_name cs)
make_socket net (unix_socket name) cs = create_unix_socket net name cs
make_socket net (tcp_socket port) cs = some (create_tcp_socket net port cs)

unfoldable pub accept_loop : Net → ℤ → List Session → Ended → Option Ended
accept_loop net sock [] e = some e
accept_loop net sock (x ∷ xs) e =
    let (cs, client) = accept_socket net sock e.calls in
    elim (is_positive client) [
      | true ↦ elim (record_thread net x.check x.allocated client x.reads e.recorder e.audio cs) [
        | none ↦ none
        | some e' ↦ accept_loop net sock xs e'
      ]
      | false ↦ accept_loop net sock xs (record e { calls = cs })
    ]

unfoldable pub create_thread : Net → Settings → List Session → Ended → Option Ended
create_thread net s sessions e = elim (make_socket net (listener s) e.calls) [
  | none ↦ none
  | some (cs, sock) ↦
      if not (is_positive sock)
      then some (record e { calls = cs })
      else accept_loop net sock sessions (record e { calls = cs })
]

-- `audio_main`, with the arguments after the program's name: the result and the settings that stay.
pub record MainResult : Type 0 where
  pub code : ℕ
  pub settings : Settings
  pub ended : Option Ended

unfoldable pub audio_main :
    Net → (Arg → ℕ) → List Arg → List Session → Settings → Ended → MainResult
audio_main net atoi args sessions s e = elim (audio_main_args atoi s args) [
  | usage s' ↦ record { code = 1; settings = s'; ended = some e }
  | options s' ↦ record { code = 0; settings = s'; ended = create_thread net s' sessions e }
]

-- The JNI call `startAudioStreamer`, with the Java array and its strings; the program's name is the
-- first. `none` is the reading of that name where there is none.
unfoldable pub start_audio_streamer :
    Net
    → (Arg → ℕ)
    → ℕ
    → List Arg
    → List Session
    → Settings
    → Ended
    → Locals
    → Option (Locals × MainResult)
start_audio_streamer net atoi array texts sessions s e l =
    let (l', argv) = copy_arguments array texts l in
    elim argv [ [] ↦ none | program ∷ args ↦ some (l', audio_main net atoi args sessions s e) ]
