-- ===== src/Main/Process/Devices.antt =====
-- The input device of the process, through the JNI calls and the calls that come while a service
-- runs.
use packages_services_vnc_fl.Main.Arguments.{Params, desktop_setup}
use packages_services_vnc_fl.Main.Process.{
  Process, Entry, serves, with_env, end_service, begin_service, serve_call, process_display_events,
  notify_server_clipboard_changed, notify_server_cursor_changed, Icon, initialize_vnc_flinger,
  fresh_desktop, display_calls, at_entry, is_there,
}
use packages_services_vnc_fl.Jni.{copy_arguments}
use packages_services_vnc_fl.Audio.Args.{Arg}
use packages_services_vnc_fl.Pixels.{Floats}
use packages_services_vnc_fl.Input.Kernel.{Kernel, Device}
use packages_services_vnc_fl.Desktop.State.{Event, new_surface, Desktop, Platform}
use packages_services_vnc_fl.Desktop.Server.{construct_desktop}
use packages_services_vnc_fl.Desktop.History.{
  DesktopCall, make_call, run_calls, left_by, clipboard_changes, cursor_changes,
}
use packages_services_vnc_fl.Desktop.Devices.{Steady}
use packages_services_vnc_fl.Desktop.Devices.Histories.{
  all_fit, fits_memory, make_call-Good, run_calls-Good,
}
use packages_services_vnc_fl.Prelude.{
  ℕ, List, [], ◌∷◌, Bool, true, false, Option, some, none, ◌&&◌, ◌==◌, ◌≡◌, refl, arith, Bool-cases,
  Option-cases, inl, inr, subst, sym,
}

-- A property of the input device and the log of the process's desktop, if there is one.
abbrev pub OfDesktop :
    {F : Type 0} → (Option Device → List Event → Type 0) → Option (Desktop F) → Type 0
OfDesktop Q none = Unit {0}
OfDesktop Q (some d) = Q d.input d.log

module _ (ps : Params) (fs : Floats) (k : Kernel) (pf : Platform) where
  open fs use {Float}

  -- The memory of each new input device passes a test.
  abbrev pub fits_entry : (Device → Bool) → Entry ps fs k pf → Bool
  fits_entry fits (serves c) = fits_memory fits c
  fits_entry fits _ = true

  unfoldable pub all_entries_fit : (Device → Bool) → List (Entry ps fs k pf) → Bool
  all_entries_fit fits [] = true
  all_entries_fit fits (e ∷ es) = fits_entry fits e && all_entries_fit fits es

  module _ (Q : Option Device → List Event → Type 0) {fits : Device → Bool}
      (s : Steady k pf fits Q) where
    with_env-OfDesktop :
        (p : Process ps fs k pf) (d : Desktop Float) (r : Option (Desktop Float))
        {q : Process ps fs k pf}
        → ((d' : Desktop Float) → r ≡ some d' → Q d'.input d'.log)
        → with_env ps fs k pf p d r ≡ some q
        → OfDesktop Q q.desktop
    unfolding with_env
    with_env-OfDesktop p d none g e = cc
    with_env-OfDesktop p d (some d') {q} g e =
        let same : q.desktop ≡ some d' = ground (arith, e) in
        subst (OfDesktop Q) (sym same) (g d' refl)

    -- A call of a desktop that the process has.
    called-OfDesktop :
        (c : DesktopCall Float) (p : Process ps fs k pf) (d : Desktop Float)
        {q : Process ps fs k pf}
        → fits_memory fits c ≡ true
        → Q d.input d.log
        → with_env ps fs k pf p d (make_call fs k pf c d) ≡ some q
        → OfDesktop Q q.desktop
    called-OfDesktop c p d h o e =
        with_env-OfDesktop p d (make_call fs k pf c d)
          (λ d' run. make_call-Good fs k pf Q s c d h o run) e

    pub serve_call-OfDesktop :
        (c : DesktopCall Float) (p : Process ps fs k pf) {q : Process ps fs k pf}
        → fits_memory fits c ≡ true
        → OfDesktop Q p.desktop
        → serve_call ps fs k pf c p ≡ some q
        → OfDesktop Q q.desktop
    unfolding serve_call
    serve_call-OfDesktop c p h o e = elim (Option-cases p.desktop) [
      | inl gone ↦ cc (simp (gone, serve_call) at e)
      | inr (d, there) ↦ called-OfDesktop c p d h (rw there at o) (simp (there, serve_call) at e)
    ]

    pub process_display_events-OfDesktop :
        (p : Process ps fs k pf) {q : Process ps fs k pf}
        → OfDesktop Q p.desktop
        → process_display_events ps fs k pf p ≡ some q
        → OfDesktop Q q.desktop
    unfolding process_display_events all_fit
    process_display_events-OfDesktop p o e = elim (Option-cases p.desktop) [
      | inl gone ↦ cc (simp (gone, process_display_events) at e)
      | inr (d, there) ↦
          with_env-OfDesktop p d (run_calls fs k pf (display_calls ps fs k pf) d)
            (λ d' run.
              run_calls-Good fs k pf Q s (display_calls ps fs k pf) d refl (rw there at o) run)
            (simp (there, process_display_events) at e)
    ]

    constructed-Good :
        (created : Bool) (memory : Desktop Float) (d' : Desktop Float)
        → left_by (construct_desktop created (fresh_desktop memory)) ≡ some d'
        → Q d'.input d'.log
    unfolding construct_desktop fresh_desktop
    constructed-Good true memory d' e =
        subst
          (λ (o : Option (Desktop Float)). elim o [ none ↦ Unit {0} | some x ↦ Q x.input x.log ]) e
          (s.emits new_surface none [] refl s.begins)
    constructed-Good false memory d' e =
        subst
          (λ (o : Option (Desktop Float)). elim o [ none ↦ Unit {0} | some x ↦ Q x.input x.log ]) e
          s.begins

    pub initialize-OfDesktop :
        (texts : List Arg) (created : Bool) (memory : Desktop Float) (p : Process ps fs k pf)
        {q : Process ps fs k pf}
        → OfDesktop Q p.desktop
        → (initialize_vnc_flinger ps fs k pf texts created memory p).process ≡ some q
        → OfDesktop Q q.desktop
    unfolding initialize_vnc_flinger
    initialize-OfDesktop texts created memory p {q} o e =
        let (l, argv) = copy_arguments 1 texts (at_entry p.copies) in
        let setup =
          desktop_setup ps argv (record {
            config = p.config;
            pid_file = p.pid_file;
            has_desktop = is_there p.desktop;
          }) in
        let r = record p {
          env = true;
          config = setup.server.config;
          pid_file = setup.server.pid_file;
          copies = l.copies;
        } in
        elim (Bool-cases (setup.code == 0)) [
          | inl done ↦
              with_env-OfDesktop r (fresh_desktop memory)
                (left_by (construct_desktop created (fresh_desktop memory)))
                (constructed-Good created memory) (simp done at e)
          | inr refused ↦
              let same : q.desktop ≡ p.desktop = ground (arith, refused, e) in
              subst (OfDesktop Q) (sym same) o
        ]

    pub begin_service-OfDesktop :
        (ls : Option (List ℕ)) (p : Process ps fs k pf) {q : Process ps fs k pf}
        → OfDesktop Q p.desktop
        → begin_service ps fs k pf ls p ≡ some q
        → OfDesktop Q q.desktop
    unfolding begin_service end_service
    begin_service-OfDesktop none p {q} o e =
        let same : q.desktop ≡ none = ground (arith, e) in subst (OfDesktop Q) (sym same) tt
    begin_service-OfDesktop (some ls) p {q} o e =
        let same : q.desktop ≡ p.desktop = ground (arith, e) in subst (OfDesktop Q) (sym same) o

    pub notify_server_clipboard_changed-OfDesktop :
        (p : Process ps fs k pf) {q : Process ps fs k pf}
        → OfDesktop Q p.desktop
        → notify_server_clipboard_changed ps fs k pf p ≡ some q
        → OfDesktop Q q.desktop
    unfolding notify_server_clipboard_changed make_call
    notify_server_clipboard_changed-OfDesktop p {q} o e = elim (Option-cases p.desktop) [
      | inl gone ↦
          let same : q.desktop ≡ none = ground (arith, gone, e) in subst (OfDesktop Q) (sym same) tt
      | inr (d, there) ↦
          called-OfDesktop clipboard_changes p d refl (rw there at o)
            (simp (there, notify_server_clipboard_changed) at e)
    ]

    pub notify_server_cursor_changed-OfDesktop :
        (icon : Icon) (p : Process ps fs k pf) {q : Process ps fs k pf}
        → OfDesktop Q p.desktop
        → notify_server_cursor_changed ps fs k pf icon p ≡ some q
        → OfDesktop Q q.desktop
    unfolding notify_server_cursor_changed make_call
    notify_server_cursor_changed-OfDesktop icon p {q} o e = elim (Option-cases p.desktop) [
      | inl gone ↦
          let same : q.desktop ≡ none = ground (arith, gone, e) in subst (OfDesktop Q) (sym same) tt
      | inr (d, there) ↦ elim (Bool-cases (icon.loaded && icon.is_valid)) [
        | inl given ↦
            called-OfDesktop (cursor_changes icon.cursor) p d {q = q} refl (rw there at o)
              (ground (arith, there, given, e))
        | inr refused ↦
            let same : q.desktop ≡ p.desktop = ground (arith, there, refused, e) in
            subst (OfDesktop Q) (sym same) o
      ]
    ]
