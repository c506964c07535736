-- ===== src/Audio/Streamer.antt =====
-- The JNI function `startAudioStreamer`, from the Java array to the end of its thread.
use packages_services_vnc_fl.Audio.Args.{
  Arg, Settings, Opt, LastOpt, no_more, last_tcp, last_android, last_unix, opt_tcp, opt_unix,
  format, meant, parse-format, audio_main_args, options, listener,
}
use packages_services_vnc_fl.Audio.Record.{Ended}
use packages_services_vnc_fl.Audio.Serve.{
  Session, MainResult, audio_main, create_thread, start_audio_streamer,
}
use packages_services_vnc_fl.Audio.Leak.{
  create_thread_leaks, CanBeMade, all_ready, ZeroIsTaken, LeavesListening,
}
use packages_services_vnc_fl.Jni.{Locals, copy_arguments}
use packages_services_vnc_fl.Jni.Balance.{HaveNoNul, copy_arguments_lem}
use packages_services_vnc_fl.Sockets.Net.{Net}
use packages_services_vnc_fl.Sockets.Delivery.{SendsAtMost}
use packages_services_vnc_fl.Prelude.{
  ℕ, List, [], ◌∷◌, Bool, true, false, some, ◌≡◌, refl, ap, ◌∙◌, arith,
}

-- There is an argument after the program's name.
abbrev pub asks : List Opt → LastOpt → Bool
asks [] no_more = false
asks _ _ = true

audio_main_args-format :
    (atoi : Arg → ℕ) (s : Settings) (opts : List Opt) (end : LastOpt)
    → asks opts end ≡ true
    → audio_main_args atoi s (format opts end) ≡ options (meant atoi s opts end)
unfolding audio_main_args format
audio_main_args-format atoi s [] no_more h = cc
audio_main_args-format atoi s [] last_tcp h = parse-format atoi s [] last_tcp
audio_main_args-format atoi s [] last_android h = parse-format atoi s [] last_android
audio_main_args-format atoi s [] last_unix h = parse-format atoi s [] last_unix
audio_main_args-format atoi s (opt_tcp port ∷ opts) end h =
    parse-format atoi s (opt_tcp port ∷ opts) end
audio_main_args-format atoi s (opt_unix name ∷ opts) end h =
    parse-format atoi s (opt_unix name ∷ opts) end

start_audio_streamer-main :
    (net : Net) (atoi : Arg → ℕ) (array : ℕ) (program : Arg) (args : List Arg) (xs : List Session)
    (s : Settings) (e : Ended) (l : Locals)
    → (copy_arguments array (program ∷ args) l).1 ≡ program ∷ args
    → start_audio_streamer net atoi array (program ∷ args) xs s e l
      ≡ some ((copy_arguments array (program ∷ args) l).0, audio_main net atoi args xs s e)
unfolding start_audio_streamer
start_audio_streamer-main net atoi array program args xs s e l h = ground (arith, h)

audio_main-options :
    (net : Net) (atoi : Arg → ℕ) (args : List Arg) (xs : List Session) (s s' : Settings) (e : Ended)
    → audio_main_args atoi s args ≡ options s'
    → audio_main net atoi args xs s e
      ≡ record { code = 0; settings = s'; ended = create_thread net s' xs e }
unfolding audio_main
audio_main-options net atoi args xs s s' e h = ground arith

-- With the arguments that a caller writes from options, as strings without a NUL and at least one,
-- where the name of a Unix socket, if it asks for one, has less than 108 bytes and its call answers no
-- descriptor that is open, each session has its recorder and buffer, a socket takes at most the bytes it is given and no new descriptor is 0:
-- `startAudioStreamer` returns 0 with the settings that the options ask for, in their order; if no
-- listening socket could be made, no descriptor is new; else every client's socket is closed at the
-- end, and the listening socket is still open and the only one that is new.
pub start_audio_streamer_leaks :
    (net : Net) (atoi : Arg → ℕ) (array : ℕ) (program : Arg) (opts : List Opt) (end : LastOpt)
    (xs : List Session) (s : Settings) (e : Ended) (l : Locals)
    → HaveNoNul (program ∷ format opts end)
    → asks opts end ≡ true
    → CanBeMade net (listener (meant atoi s opts end)) e.calls
    → SendsAtMost net
    → ZeroIsTaken net
    → all_ready xs ≡ true
    → (l' : Locals) × (r : MainResult) × (start_audio_streamer net atoi array
          (program ∷ format opts end)
          xs
          s
          e
          l
        ≡ some (l', r))
      × (r.code ≡ 0)
      × (r.settings ≡ meant atoi s opts end)
      × (e' : Ended) × (r.ended ≡ some e')
      × LeavesListening net (listener (meant atoi s opts end)) e.calls e'.calls
start_audio_streamer_leaks net atoi array program opts end xs s e l texts asked kind most taken
      ready =
    let args = program ∷ format opts end in
    let s' = meant atoi s opts end in
    let (same, _, _, _, _) = copy_arguments_lem array args l texts in
    let (e', run, fds) = create_thread_leaks net s' xs e kind most taken ready in
    let streamer_run =
      start_audio_streamer-main net atoi array program (format opts end) xs s e l same
      ∙ ap (λ (r : MainResult). some ((copy_arguments array args l).0, r))
          (audio_main-options net atoi (format opts end) xs s s' e
            (audio_main_args-format atoi s opts end asked)) in
    (
      (copy_arguments array args l).0,
      record { code = 0; settings = s'; ended = create_thread net s' xs e },
      streamer_run,
      refl,
      refl,
      e',
      run,
      fds,
    )
