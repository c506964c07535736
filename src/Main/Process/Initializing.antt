-- ===== src/Main/Process/Initializing.antt =====
-- `initializeVncFlinger`, from the Java array to the desktop.
use packages_services_vnc_fl.Jni.{Locals, larger, new_ref, copy_arguments}
use packages_services_vnc_fl.Main.Arguments.{Params, Server, dash_pid, desktop_setup, Setup}
use packages_services_vnc_fl.Main.Process.{
  Process, is_there, with_env, callbacks, fresh_desktop, find_methods, initialize_vnc_flinger,
  at_entry,
}
use packages_services_vnc_fl.Main.Process.Invariant.{with_env-runs}
use packages_services_vnc_fl.Pixels.{Floats}
use packages_services_vnc_fl.Input.Kernel.{Kernel}
use packages_services_vnc_fl.Desktop.State.{Desktop, Platform}
use packages_services_vnc_fl.Desktop.Server.{construct_desktop}
use packages_services_vnc_fl.Desktop.History.{left_by}
use packages_services_vnc_fl.Prelude.{
  Bool, true, false, some, none, ◌≡◌, ◌+◌, ◌≤◌, refl, arith, length, if◌then◌else◌, ap, ◌∙◌, List,
  ◌∷◌, [],
}
use packages_services_vnc_fl.Audio.Args.{Arg}
use packages_services_vnc_fl.Main.Reading.{
  wanted, ServerOpt, format_opts, desktop_setup-format_opts,
}
use packages_services_vnc_fl.Jni.Balance.{HaveNoNul, copy_arguments_lem}

module _ (ps : Params) (fs : Floats) (k : Kernel) (pf : Platform) where
  open ps use {Config, set_pair, set_one}
  open fs use {Float}

  abbrev pub server_of : Process ps fs k pf → Server ps
  server_of p = record {
    config = p.config;
    pid_file = p.pid_file;
    has_desktop = is_there p.desktop;
  }

  -- The process has what the server asks for, and a new desktop that is not started; Java was told of
  -- the surface if the event descriptor could be made.
  pub record HasNew (created : Bool) (t : Server ps) (p q : Process ps fs k pf) : Type 0 where
    pub desktop : Desktop Float
    pub held : q.desktop ≡ some desktop
    pub no_pixels : desktop.pixels ≡ none
    pub no_display : desktop.display ≡ none
    pub told : callbacks desktop.log ≡ (if created then 1 else 0)
    pub config : q.config ≡ t.config
    pub pid_file : q.pid_file ≡ t.pid_file
    pub env : q.env ≡ true
    pub serving : q.serving ≡ p.serving

  construct_desktop_lem :
      (created : Bool) (memory : Desktop Float)
      → (d : Desktop Float) × (construct_desktop created (fresh_desktop memory) ≡ some (d, tt))
        × (d.pixels ≡ none)
        × (d.display ≡ none)
        × (callbacks d.log ≡ (if created then 1 else 0))
  unfolding construct_desktop fresh_desktop callbacks
  construct_desktop_lem true memory = (_, refl, refl, refl, refl)
  construct_desktop_lem false memory = (_, refl, refl, refl, refl)

  -- The end of a set-up that succeeds.
  construct-HasNew :
      (created : Bool) (memory : Desktop Float) (p q : Process ps fs k pf) (t : Server ps)
      → q.config ≡ t.config
      → q.pid_file ≡ t.pid_file
      → q.env ≡ true
      → q.serving ≡ p.serving
      → (r : Process ps fs k pf) × (with_env ps fs k pf q
            (fresh_desktop memory)
            (left_by (construct_desktop created (fresh_desktop memory)))
          ≡ some r)
        × HasNew created t p r
        × (r.copies ≡ q.copies)
  construct-HasNew created memory p q t c f e s =
      let (d, runs, no_pixels, no_display, told) = construct_desktop_lem created memory in
      (
        record q { desktop = some d },
        ap (λ o. with_env ps fs k pf q (fresh_desktop memory) (left_by o)) runs
            ∙ with_env-runs ps fs k pf q (fresh_desktop memory) d e,
        record {
          desktop = d;
          held = refl;
          no_pixels = no_pixels;
          no_display = no_display;
          told = told;
          config = c;
          pid_file = f;
          env = e;
          serving = s;
        },
        refl,
      )

  find_methods_lem :
      (l : Locals)
      → ((find_methods l).pinned ≡ l.pinned)
        × ((find_methods l).peak ≤ larger l.peak (length l.refs + 4))
  unfolding find_methods new_ref
  find_methods_lem l = ground arith

  -- With a library that has no parameter of the name "pid", and whenever it takes the options that
  -- Java writes into the array, as strings without a NUL and those in one argument starting without
  -- a dash: `initializeVncFlinger` returns 0 and leaves the configuration and the pid file that the
  -- options ask for, in their order, `gEnv` set, and a new desktop that is not started, in place of
  -- one that was there; Java is told of its surface exactly if the event descriptor could be made.
  -- No string stays pinned, and never more than six local references are live; a copy of each
  -- argument stays in memory.
  pub initialize_reads_options :
      (program : Arg) (opts : List ServerOpt) (created : Bool) (memory : Desktop Float)
      (p : Process ps fs k pf) (t : Server ps)
      → ((value : Arg) (c : Config) → set_pair (b'p' ∷ b'i' ∷ b'd' ∷ []) value c ≡ none)
      → ((c : Config) → set_one dash_pid c ≡ none)
      → HaveNoNul (program ∷ format_opts opts)
      → wanted ps opts (server_of p) ≡ some t
      → let r = initialize_vnc_flinger ps fs k pf (program ∷ format_opts opts) created memory p in
        (r.code ≡ 0)
        × (r.locals.pinned ≡ [])
        × (r.locals.peak ≤ 6)
        × (q : Process ps fs k pf) × (r.process ≡ some q)
        × HasNew created t p q
        × (q.copies ≡ p.copies + length (program ∷ format_opts opts))
  unfolding initialize_vnc_flinger
  initialize_reads_options program opts created memory p t np ns texts asked =
      let args = program ∷ format_opts opts in
      let (l, argv) = copy_arguments 1 args (at_entry p.copies) in
      let (same, refs, pinned, peak, copies) =
        copy_arguments_lem 1 args (at_entry p.copies) texts in
      let (pinned', peak') = find_methods_lem l in
      let e : desktop_setup ps argv (server_of p)
          ≡ record { code = 0; printed = false; server = t } =
        ap (λ a. desktop_setup ps a (server_of p)) same
        ∙ desktop_setup-format_opts ps np ns program opts (server_of p) t asked in
      let q = record p {
        env = true;
        config = t.config;
        pid_file = t.pid_file;
        copies = l.copies;
      } in
      let (r, runs, new, kept) = construct-HasNew created memory p q t refl refl refl refl in
      (
        ap (λ (u : Setup ps). u.code) e,
        pinned' ∙ pinned,
        ground (arith, refs, peak, peak'),
        r,
        rw e runs,
        new,
        kept ∙ copies,
      )
