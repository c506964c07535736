-- ===== src/Main/Process/Sound.antt =====
-- A process that follows the rules uses no null pointer.
use packages_services_vnc_fl.Audio.Args.{Arg}
use packages_services_vnc_fl.Jni.{copy_arguments}
use packages_services_vnc_fl.Main.Arguments.{Params, desktop_setup}
use packages_services_vnc_fl.Main.Process.{
  tells_clipboard, tells_cursor, begins, initializes, ends, quits, sets_props, Process, is_there,
  serves, processes, with_env, initialize_vnc_flinger, serve_call, process_display_events,
  fresh_desktop, at_entry, display_calls, run_entries, notify_server_clipboard_changed,
  begin_service, enter, set_props, notify_server_cursor_changed, Icon, end_service, Entry,
}
use packages_services_vnc_fl.Main.Process.Rules.{permits, follows_rules}
use packages_services_vnc_fl.Pixels.{Floats}
use packages_services_vnc_fl.Input.Kernel.{Kernel}
use packages_services_vnc_fl.Desktop.State.{Desktop, Platform}
use packages_services_vnc_fl.Desktop.Server.{construct_desktop}
use packages_services_vnc_fl.Desktop.History.{
  DesktopCall, turn, left_by, make_call, set_display_props, clipboard_changes, cursor_changes,
}
use packages_services_vnc_fl.Desktop.InStep.{is_present, InStep-Keeps, same_parts-Keeps}
use packages_services_vnc_fl.Desktop.Steps.{make_call-Served, run_calls-InStep_from, turns}
use packages_services_vnc_fl.Prelude.{
  List, Bool, true, false, Option, some, none, ◌==◌, ◌≡◌, refl, arith, Bool-cases, Option-cases,
  inl, inr, subst, ℕ, ◌∷◌, [], sym,
}
use packages_services_vnc_fl.Desktop.Calls.{Served}
use packages_services_vnc_fl.Prelude.Int.{ℤ}
use packages_services_vnc_fl.Main.Process.Invariant.{
  SoundOf-same, SoundOf, IsSound, Enters, with_env-Enters, with_desktop,
}

module _ (ps : Params) (fs : Floats) (k : Kernel) (pf : Platform) where
  open fs use {Float}

  construct-Enters :
      (p : Process ps fs k pf) (created : Bool) (memory : Desktop Float)
      → p.env ≡ true
      → Enters ps fs k pf (
          with_env ps fs k pf p
            (fresh_desktop memory)
            (left_by (construct_desktop created (fresh_desktop memory))))
  unfolding construct_desktop fresh_desktop
  construct-Enters p true memory env =
      with_env-Enters ps fs k pf p (fresh_desktop memory) _ _ refl env refl (ground arith)
  construct-Enters p false memory env =
      with_env-Enters ps fs k pf p (fresh_desktop memory) _ _ refl env refl (ground arith)

  initialize-Enters :
      (texts : List Arg) (created : Bool) (memory : Desktop Float) (p : Process ps fs k pf)
      → IsSound ps fs k pf p
      → Enters ps fs k pf (initialize_vnc_flinger ps fs k pf texts created memory p).process
  unfolding initialize_vnc_flinger
  initialize-Enters texts created memory p s =
      let (l, argv) = copy_arguments 1 texts (at_entry p.copies) in
      let setup =
        desktop_setup ps argv
          (record { config = p.config; pid_file = p.pid_file; has_desktop = is_there p.desktop }) in
      let q = record p {
        env = true;
        config = setup.server.config;
        pid_file = setup.server.pid_file;
        copies = l.copies;
      } in
      elim (Bool-cases (setup.code == 0)) [
        | inl done ↦ rw done (construct-Enters q created memory refl)
        | inr refused ↦ (q, rw refused, SoundOf-same ps fs k pf p.desktop p q (λ h. refl) refl s)
      ]

  serve_call-Enters :
      (c : DesktopCall Float) (p : Process ps fs k pf)
      → IsSound ps fs k pf p
      → permits ps fs k pf (serves c) p ≡ true
      → Enters ps fs k pf (serve_call ps fs k pf c p)
  unfolding permits serve_call Served
  serve_call-Enters c p s rule = elim (Option-cases p.desktop) [
    | inl gone ↦ ground (arith, gone)
    | inr (d, h) ↦
        let t = with_desktop ps fs k pf p d h s in
        elim (Option-cases (turn c (is_present d.pixels))) [
          | inl never ↦ ground (arith, h, never)
          | inr (next, e) ↦
              let (d', run, s', there) =
                make_call-Served fs k pf c (is_present d.pixels) next d e refl t.1 in
              rw h (with_env-Enters ps fs k pf p d d' _ run t.0 s' (ground arith))
        ]
  ]

  process_display_events-Enters :
      (p : Process ps fs k pf)
      → IsSound ps fs k pf p
      → permits ps fs k pf processes p ≡ true
      → Enters ps fs k pf (process_display_events ps fs k pf p)
  unfolding permits process_display_events turns turn
  process_display_events-Enters p s rule = elim (Option-cases p.desktop) [
    | inl gone ↦ ground (arith, gone)
    | inr (d, h) ↦
        let t = with_desktop ps fs k pf p d h s in
        let (d', run, s', there) =
          run_calls-InStep_from fs k pf (display_calls ps fs k pf) true true d refl
            (ground (arith, h)) t.1 in
        rw h (with_env-Enters ps fs k pf p d d' _ run t.0 s' (ground arith))
  ]

  -- A call that another thread may make at any time.
  any_time-Enters :
      (c : DesktopCall Float) (p : Process ps fs k pf) (d : Desktop Float)
      → turn c (is_present d.pixels) ≡ some (is_present d.pixels)
      → SoundOf ps fs k pf (some d) p
      → Enters ps fs k pf (with_env ps fs k pf p d (make_call fs k pf c d))
  unfolding Served
  any_time-Enters c p d e s =
      let (d', run, s', there) =
        make_call-Served fs k pf c (is_present d.pixels) (is_present d.pixels) d e refl s.1 in
      with_env-Enters ps fs k pf p d d' _ run s.0 s' (rw there s.2)

  notify_server_clipboard_changed-Enters :
      (p : Process ps fs k pf)
      → IsSound ps fs k pf p
      → Enters ps fs k pf (notify_server_clipboard_changed ps fs k pf p)
  unfolding notify_server_clipboard_changed make_call turn
  notify_server_clipboard_changed-Enters p s = elim (Option-cases p.desktop) [
    | inl gone ↦ (p, rw gone, s)
    | inr (d, h) ↦
        rw h (any_time-Enters clipboard_changes p d refl (with_desktop ps fs k pf p d h s))
  ]

  notify_server_cursor_changed-Enters :
      (icon : Icon) (p : Process ps fs k pf)
      → IsSound ps fs k pf p
      → Enters ps fs k pf (notify_server_cursor_changed ps fs k pf icon p)
  unfolding notify_server_cursor_changed make_call turn
  notify_server_cursor_changed-Enters icon p s = elim (Option-cases p.desktop) [
    | inl gone ↦ (p, rw gone, s)
    | inr (d, h) ↦ elim (Bool-cases icon.loaded) [
      | inr failed ↦ (p, rw (h, failed), s)
      | inl loaded ↦ elim (Bool-cases icon.is_valid) [
        | inr invalid ↦ (p, rw (h, loaded, invalid), s)
        | inl valid ↦
            rw (h, loaded, valid)
              (any_time-Enters (cursor_changes icon.cursor) p d refl
                (with_desktop ps fs k pf p d h s))
      ]
    ]
  ]

  set_props-IsSound :
      (w h rotation layer : ℤ) (touch relative : Bool) (p : Process ps fs k pf)
      → IsSound ps fs k pf p
      → IsSound ps fs k pf (set_props ps fs k pf w h rotation layer touch relative p)
  unfolding set_props set_display_props
  set_props-IsSound w h rotation layer touch relative p s = elim (Option-cases p.desktop) [
    | inl gone ↦
        let same : set_props ps fs k pf w h rotation layer touch relative p ≡ p =
          simp (gone, set_props) in
        subst (IsSound ps fs k pf) (sym same) s
    | inr (d, e) ↦
        let t = with_desktop ps fs k pf p d e s in
        let d' = set_display_props w h rotation layer touch relative d in
        let q = record p { desktop = some d' } in
        let set : set_props ps fs k pf w h rotation layer touch relative p ≡ q =
          simp (e, set_props) in
        let kept : IsSound ps fs k pf q =
          (t.0, InStep-Keeps fs d d' (same_parts-Keeps fs d d' refl refl refl) t.1, t.2) in
        subst (IsSound ps fs k pf) (sym set) kept
  ]

  begin_service-Enters :
      (ls : Option (List ℕ)) (p : Process ps fs k pf)
      → IsSound ps fs k pf p
      → permits ps fs k pf (begins ls) p ≡ true
      → Enters ps fs k pf (begin_service ps fs k pf ls p)
  unfolding permits begin_service end_service
  begin_service-Enters none p s rule = (end_service ps fs k pf p, refl, refl)
  begin_service-Enters (some ls) p s rule = elim (Option-cases p.desktop) [
    | inl gone ↦ ground (arith, gone)
    | inr (d, h) ↦ (
      record p { env = true; serving = true },
      rw h,
      rw h (refl, (with_desktop ps fs k pf p d h s).1, refl),
    )
  ]

  enter-Enters :
      (e : Entry ps fs k pf) (p : Process ps fs k pf)
      → IsSound ps fs k pf p
      → permits ps fs k pf e p ≡ true
      → Enters ps fs k pf (enter ps fs k pf e p)
  unfolding enter end_service
  enter-Enters (initializes texts created memory) p s rule =
      initialize-Enters texts created memory p s
  enter-Enters (begins ls) p s rule = begin_service-Enters ls p s rule
  enter-Enters (serves c) p s rule = serve_call-Enters c p s rule
  enter-Enters processes p s rule = process_display_events-Enters p s rule
  enter-Enters ends p s rule = (end_service ps fs k pf p, refl, refl)
  enter-Enters quits p s rule = (
    record p { caught_signal = true },
    refl,
    SoundOf-same ps fs k pf p.desktop p (record p { caught_signal = true }) (λ h. h) refl s,
  )
  enter-Enters tells_clipboard p s rule = notify_server_clipboard_changed-Enters p s
  enter-Enters (sets_props w h rotation layer touch relative) p s rule = (
    set_props ps fs k pf w h rotation layer touch relative p,
    refl,
    set_props-IsSound w h rotation layer touch relative p s,
  )
  enter-Enters (tells_cursor icon) p s rule = notify_server_cursor_changed-Enters icon p s

  -- From a sound process, every history of JNI calls, and of calls of the RFB server and of the
  -- frame consumer while a service runs, that follows the rules uses no null pointer, neither of a
  -- desktop, its parts or its server nor of `gEnv`, and leaves a sound process: with a desktop,
  -- `gEnv` is set, the parts are in step, and the desktop runs only while a service does; with
  -- none, no service runs.
  pub run_entries-IsSound :
      (es : List (Entry ps fs k pf)) (p : Process ps fs k pf)
      → IsSound ps fs k pf p
      → follows_rules ps fs k pf es p ≡ true
      → (q : Process ps fs k pf) × (run_entries ps fs k pf es p ≡ some q) × IsSound ps fs k pf q
  unfolding run_entries follows_rules
  run_entries-IsSound [] p s rules = (p, refl, s)
  run_entries-IsSound (e ∷ es) p s rules =
      let (q, entered, t) = enter-Enters e p s (ground arith) in
      let (r, rest, u) = run_entries-IsSound es q t (ground arith) in
      (r, rw (entered, run_entries) rest, u)
