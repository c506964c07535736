-- ===== src/Main/Process/Whole.antt =====
-- A whole run of `startService`: the calls of its event loop, and between them what the RFB server
-- makes of the desktop and what other threads call.
use packages_services_vnc_fl.Main.Arguments.{Params}
use packages_services_vnc_fl.Main.Service.{
  LoopCall, make_listeners, release_desktop, process_display, delete_listeners, start_service,
  with_pid, run_service, delete_listener, remove_pid, ServerConfig, Round, Statics, Service,
  service_body,
}
use packages_services_vnc_fl.Main.Process.{
  Process, Entry, run_entries, enter, begins, serves, processes, ends, quits, initializes,
  tells_clipboard, tells_cursor, sets_props, notify_server_clipboard_changed,
  notify_server_cursor_changed, set_props, end_service,
}
use packages_services_vnc_fl.Main.Process.Rules.{follows_rules, permits}
use packages_services_vnc_fl.Pixels.{Floats}
use packages_services_vnc_fl.Input.Kernel.{Kernel}
use packages_services_vnc_fl.Desktop.State.{Platform}
use packages_services_vnc_fl.Prelude.{
  ℕ, List, [], ◌∷◌, ◌++◌, Bool, true, false, some, none, ◌≡◌, refl, arith, Option-cases, inl, inr,
  ap, subst, ◌∙◌,
}
use packages_services_vnc_fl.Main.Process.Sound.{run_entries-IsSound}
use packages_services_vnc_fl.Main.Process.Invariant.{IsSound}
use packages_services_vnc_fl.Audio.Args.{Arg}

module _ (ps : Params) (fs : Floats) (k : Kernel) (pf : Platform) where
  -- Neither the beginning nor the end of a service, nor a step of its loop.
  abbrev pub is_inner : Entry ps fs k pf → Bool
  is_inner (initializes _ _ _) = false
  is_inner (begins _) = false
  is_inner processes = false
  is_inner ends = false
  is_inner (serves _) = true
  is_inner quits = true
  is_inner tells_clipboard = true
  is_inner (sets_props _ _ _ _ _ _) = true
  is_inner (tells_cursor _) = true

  abbrev pub AllInner : List (Entry ps fs k pf) → Type 0
  AllInner [] = Unit {0}
  AllInner (e ∷ es) = (is_inner e ≡ true) × AllInner es

  -- What a call of the loop is for the process.
  abbrev pub steps_of_call : List ℕ → LoopCall → List (Entry ps fs k pf)
  steps_of_call ls (make_listeners _) = begins (some ls) ∷ []
  steps_of_call ls process_display = processes ∷ []
  steps_of_call ls release_desktop = ends ∷ []
  steps_of_call ls _ = []

  -- The steps of a log, with what comes in after each call, by the calls so far.
  unfoldable pub steps :
      List ℕ → (List LoopCall → List (Entry ps fs k pf)) → List LoopCall → List (Entry ps fs k pf)
  steps ls react [] = []
  steps ls react (c ∷ older) = steps ls react older ++ (steps_of_call ls c ++ react (c ∷ older))

  run_entries-append :
      (xs ys : List (Entry ps fs k pf)) (p q : Process ps fs k pf)
      → run_entries ps fs k pf xs p ≡ some q
      → run_entries ps fs k pf (xs ++ ys) p ≡ run_entries ps fs k pf ys q
  unfolding run_entries
  run_entries-append [] ys p q e = ground (arith, e)
  run_entries-append (x ∷ xs) ys p q e = elim (Option-cases (enter ps fs k pf x p)) [
    | inl null ↦ ground (arith, null)
    | inr (r, h) ↦ ground (arith, h, run_entries-append xs ys r q)
  ]

  follows_rules-append :
      (xs ys : List (Entry ps fs k pf)) (p q : Process ps fs k pf)
      → follows_rules ps fs k pf (xs ++ ys) p ≡ true
      → run_entries ps fs k pf xs p ≡ some q
      → follows_rules ps fs k pf ys q ≡ true
  unfolding run_entries follows_rules
  follows_rules-append [] ys p q h e = ground (arith, e)
  follows_rules-append (x ∷ xs) ys p q h e = elim (Option-cases (enter ps fs k pf x p)) [
    | inl null ↦ ground (arith, null)
    | inr (r, g) ↦ ground (arith, g, follows_rules-append xs ys r q)
  ]

  -- With no service and no desktop.
  record IsOver (q : Process ps fs k pf) : Type 0 where
    pub desktop : q.desktop ≡ none
    pub serving : q.serving ≡ false
    pub env : q.env ≡ false

  enter-IsOver :
      (e : Entry ps fs k pf) (p : Process ps fs k pf)
      → is_inner e ≡ true
      → permits ps fs k pf e p ≡ true
      → IsOver p
      → (q : Process ps fs k pf) × (enter ps fs k pf e p ≡ some q) × IsOver q
  unfolding enter permits notify_server_clipboard_changed notify_server_cursor_changed set_props
  enter-IsOver (serves c) p i r o = ground (arith, o.serving)
  enter-IsOver quits p i r o = (
    record p { caught_signal = true },
    refl,
    record { desktop = o.desktop; serving = o.serving; env = o.env },
  )
  enter-IsOver tells_clipboard p i r o = (p, ground (arith, o.desktop), o)
  enter-IsOver (tells_cursor icon) p i r o = (p, ground (arith, o.desktop), o)
  enter-IsOver (sets_props w h rotation layer touch relative) p i r o =
      (p, ground (arith, o.desktop), o)
  enter-IsOver (initializes a b c) p i r o = cc
  enter-IsOver (begins ls) p i r o = cc
  enter-IsOver processes p i r o = cc
  enter-IsOver ends p i r o = cc

  run_entries-IsOver :
      (es : List (Entry ps fs k pf)) (p : Process ps fs k pf)
      → AllInner es
      → follows_rules ps fs k pf es p ≡ true
      → IsOver p
      → (q : Process ps fs k pf) × (run_entries ps fs k pf es p ≡ some q) × IsOver q
  unfolding run_entries follows_rules
  run_entries-IsOver [] p i r o = (p, refl, o)
  run_entries-IsOver (e ∷ es) p i r o =
      let (q, entered, o') = enter-IsOver e p i.0 (ground arith) o in
      let (q', rest, o'') = run_entries-IsOver es q i.1 (ground arith) o' in
      (q', rw (entered, run_entries) rest, o'')

  follows_rules-prefix :
      (xs ys : List (Entry ps fs k pf)) (p : Process ps fs k pf)
      → follows_rules ps fs k pf (xs ++ ys) p ≡ true
      → follows_rules ps fs k pf xs p ≡ true
  unfolding follows_rules
  follows_rules-prefix [] ys p h = refl
  follows_rules-prefix (x ∷ xs) ys p h = elim (Option-cases (enter ps fs k pf x p)) [
    | inl null ↦ ground (arith, null)
    | inr (r, g) ↦ ground (arith, g, follows_rules-prefix xs ys r)
  ]

  module _ (ls : List ℕ) (react : List LoopCall → List (Entry ps fs k pf))
      (inner : (log : List LoopCall) → AllInner (react log)) (p : Process ps fs k pf)
      (sound : IsSound ps fs k pf p) where
    -- A log whose steps, if they follow the rules, come to the end of the service.
    record ComesToEnd (log : List LoopCall) : Type 0 where
      pub over :
          follows_rules ps fs k pf (steps ls react log) p ≡ true
          → (q : Process ps fs k pf) × (run_entries ps fs k pf (steps ls react log) p ≡ some q)
            × IsOver q

    release_desktop-ComesToEnd : (log : List LoopCall) → ComesToEnd (release_desktop ∷ log)
    unfolding steps follows_rules run_entries enter end_service
    release_desktop-ComesToEnd log = record {
      over = λ rules.
          let es = react (release_desktop ∷ log) in
          let before = steps ls react log in
          let (q, ran, _) =
            run_entries-IsSound ps fs k pf before p sound
              (follows_rules-prefix before (ends ∷ es) p rules) in
          let rest = follows_rules-append before (ends ∷ es) p q rules ran in
          let (r, ended, o) =
            run_entries-IsOver es (end_service ps fs k pf q) (inner (release_desktop ∷ log))
              (ground arith) (record { desktop = refl; serving = refl; env = refl }) in
          (r, run_entries-append before (ends ∷ es) p q ran ∙ ended, o);
    }

    -- A call that is no step of the process.
    aside-ComesToEnd :
        (c : LoopCall) (log : List LoopCall)
        → steps_of_call ls c ≡ []
        → ComesToEnd log
        → ComesToEnd (c ∷ log)
    unfolding steps
    aside-ComesToEnd c log h ends_there = record {
      over = λ rules.
          let es = react (c ∷ log) in
          let before = steps ls react log in
          let alike : steps ls react (c ∷ log) ≡ before ++ es = ap (λ l. before ++ (l ++ es)) h in
          let rules' : follows_rules ps fs k pf (before ++ es) p ≡ true =
            subst (λ l. follows_rules ps fs k pf l p ≡ true) alike rules in
          let (q, ran, o) = ends_there.over (follows_rules-prefix before es p rules') in
          let (r, rest, o') =
            run_entries-IsOver es q (inner (c ∷ log))
              (follows_rules-append before es p q rules' ran) o in
          (
            r,
            ap (λ l. run_entries ps fs k pf l p) alike
                ∙ run_entries-append before es p q ran
                ∙ rest,
            o',
          );
    }

    delete_listeners-ComesToEnd :
        (ms : List ℕ) (log : List LoopCall) → ComesToEnd log → ComesToEnd (delete_listeners ms log)
    unfolding delete_listeners
    delete_listeners-ComesToEnd [] log h = h
    delete_listeners-ComesToEnd (m ∷ ms) log h =
        delete_listeners-ComesToEnd ms (delete_listener m ∷ log)
          (aside-ComesToEnd (delete_listener m) log refl h)

    remove_pid-ComesToEnd :
        (path : Arg) (log : List LoopCall)
        → ComesToEnd log
        → ComesToEnd (with_pid path remove_pid log)
    remove_pid-ComesToEnd [] log h = h
    remove_pid-ComesToEnd (b ∷ bs) log h = aside-ComesToEnd remove_pid log refl h

    -- The calls of a `startService` with its listeners made, with what the RFB server makes of the
    -- desktop and what other threads call after each, as steps of any sound process: if they follow
    -- the rules, no null pointer is used in them, and no step after the service's end brings back the
    -- desktop, the service or `gEnv`.
    pub start_service_comes_to_end :
        (c : ServerConfig) (event_fd : ℕ) (rounds : List Round) (st : Statics) (r : Service)
        → start_service c event_fd (some ls) rounds st ≡ some r
        → follows_rules ps fs k pf (steps ls react r.log) p ≡ true
        → (q : Process ps fs k pf) × (run_entries ps fs k pf (steps ls react r.log) p ≡ some q)
          × (q.desktop ≡ none)
          × (q.serving ≡ false)
          × (q.env ≡ false)
    unfolding start_service run_service
    start_service_comes_to_end c event_fd rounds st r e rules =
        let body = (service_body c event_fd (some ls) st.caught_signal rounds []).0 in
        let ended : ComesToEnd (run_service c event_fd (some ls) rounds st).log =
          remove_pid-ComesToEnd c.pid_file (delete_listeners ls (release_desktop ∷ body)) (
            delete_listeners-ComesToEnd ls (release_desktop ∷ body)
              (release_desktop-ComesToEnd body)) in
        let same : (run_service c event_fd (some ls) rounds st).log ≡ r.log = ground arith in
        let (q, ran, o) = (subst ComesToEnd same ended).over rules in
        (q, ran, o.desktop, o.serving, o.env)
