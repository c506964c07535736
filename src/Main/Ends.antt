-- ===== src/Main/Ends.antt =====
-- How `startService` ends, what its rounds do for the display, and what `quit` leaves.
use packages_services_vnc_fl.Main.Service.{
  ServerConfig, Round, Statics, service_body, start_service, quit, all_of, Service, run_service,
  uses_null, set_up,
}
use packages_services_vnc_fl.Main.Loop.{
  count, total, until_failure, rounds_with, has_viewers, has_display_event,
}
use packages_services_vnc_fl.Prelude.{
  ℕ, List, Option, false, ◌∷◌, true, if◌then◌else◌, refl, ◌≡◌, ◌+◌, ◌∙◌, some, arith, [], ap, Bool,
  Option-cases, none, inr, inl,
}
use packages_services_vnc_fl.Sockets.Delivery.{is_empty}
use packages_services_vnc_fl.Main.Counts.{
  is_read_event, is_process_display, is_select_call, is_remove_pid, is_deletion, occurrences,
  rounds_of, raises, none_of, count-service_body, count-finished, deletions-finished, pids-finished,
  read_aside, process_aside, pid_aside, deletion_aside, select_aside, total-read, total-process,
  total-pid, total-deletion,
}

run_service_ends :
    (c : ServerConfig) (event_fd : ℕ) (ls : Option (List ℕ)) (rounds : List Round) (s : Statics)
    (l : ℕ)
    → let r = run_service c event_fd ls rounds s in
      (r.code ≡ (if raises ls (rounds_of s.caught_signal rounds) then 3 else 0))
      × (r.statics.has_desktop ≡ false)
      × (count (is_deletion l) r.log ≡ occurrences l (all_of ls))
      × (count is_remove_pid r.log ≡ (if is_empty c.pid_file then 0 else 1))
unfolding run_service
run_service_ends c event_fd ls rounds s l =
    let body = (service_body c event_fd ls s.caught_signal rounds []).0 in
    let (d, went) =
      count-service_body (is_deletion l) (deletion_aside l) c event_fd ls s.caught_signal rounds
        refl (λ k. refl) in
    let (q, _) =
      count-service_body is_remove_pid pid_aside c event_fd ls s.caught_signal rounds refl
        (λ k. refl) in
    (
      ground (arith, went),
      refl,
      deletions-finished l c (all_of ls) body
          ∙ ap (λ n. occurrences l (all_of ls) + n)
              (d ∙ none_of ls (total-deletion l (until_failure (rounds_of s.caught_signal rounds))))
          ∙ omega arith,
      pids-finished c (all_of ls) body
          ∙ ap (λ n. (if is_empty c.pid_file then 0 else 1) + n)
              (q ∙ none_of ls (total-pid (until_failure (rounds_of s.caught_signal rounds))))
          ∙ omega arith,
    )

run_service_processes :
    (c : ServerConfig) (event_fd : ℕ) (ls : List ℕ) (rounds : List Round) (s : Statics)
    → let r = run_service c event_fd (some ls) rounds s in
      let seen = until_failure (rounds_of s.caught_signal rounds) in
      (count is_read_event r.log ≡ rounds_with has_viewers seen)
      × (count is_process_display r.log ≡ rounds_with has_display_event seen)
unfolding run_service
run_service_processes c event_fd ls rounds s =
    let body = (service_body c event_fd (some ls) s.caught_signal rounds []).0 in
    let seen = until_failure (rounds_of s.caught_signal rounds) in
    (
      count-finished is_read_event c ls body refl refl (λ n. refl)
          ∙ (count-service_body is_read_event read_aside c event_fd (some ls) s.caught_signal rounds
              refl (λ k. refl)).0
          ∙ total-read seen,
      count-finished is_process_display c ls body refl refl (λ n. refl)
          ∙ (count-service_body is_process_display process_aside c event_fd (some ls)
              s.caught_signal rounds refl (λ k. refl)).0
          ∙ total-process seen,
    )

-- With a desktop, or where its listeners cannot be made, and with calls of the desktop and of the RFB
-- server that return, `startService` returns: without exceptions, which are a failed making of the
-- listeners and a `select` that fails for another reason than a signal, 0, and with one 3. In both
-- cases the desktop is given up, each listener that was made is deleted, and no other, and the pid file
-- is removed if there is one.
pub start_service_ends :
    (c : ServerConfig) (event_fd : ℕ) (ls : Option (List ℕ)) (rounds : List Round) (s : Statics)
    (l : ℕ)
    → uses_null ls s ≡ false
    → (r : Service) × (start_service c event_fd ls rounds s ≡ some r)
      × (r.code ≡ (if raises ls (rounds_of s.caught_signal rounds) then 3 else 0))
      × (r.statics.has_desktop ≡ false)
      × (count (is_deletion l) r.log ≡ occurrences l (all_of ls))
      × (count is_remove_pid r.log ≡ (if is_empty c.pid_file then 0 else 1))
unfolding start_service
start_service_ends c event_fd ls rounds s l there =
    let (code, gone, deleted, unlinked) = run_service_ends c event_fd ls rounds s l in
    (run_service c event_fd ls rounds s, rw there, code, gone, deleted, unlinked)

-- With its listeners made and a desktop, `startService` reads the event descriptor in exactly those
-- rounds, up to a failure, in which `select` was not interrupted and there are viewers, and lets the
-- desktop process its changes in exactly those of them in which the descriptor had something. So a
-- change that comes while there are no viewers stays in the descriptor, however many rounds follow.
pub start_service_processes :
    (c : ServerConfig) (event_fd : ℕ) (ls : List ℕ) (rounds : List Round) (s : Statics)
    → s.has_desktop ≡ true
    → let seen = until_failure (rounds_of s.caught_signal rounds) in
      (r : Service) × (start_service c event_fd (some ls) rounds s ≡ some r)
      × (count is_read_event r.log ≡ rounds_with has_viewers seen)
      × (count is_process_display r.log ≡ rounds_with has_display_event seen)
unfolding start_service
start_service_processes c event_fd ls rounds s h =
    let (reads, processes) = run_service_processes c event_fd ls rounds s in
    (run_service c event_fd (some ls) rounds s, rw h, reads, processes)

-- A call of `startService`, with its configuration, its descriptors and its rounds.
pub record Start : Type 0 where
  pub config : ServerConfig
  pub event_fd : ℕ
  pub listeners : Option (List ℕ)
  pub rounds : List Round

-- The JNI calls, `initializeVncFlinger` by whether it returns 0.
pub data Entry : Type 0 where
  sets_up : Bool → Entry
  starts : Start → Entry
  quits : Entry

unfoldable pub after_entries : List Entry → Statics → Option Statics
after_entries [] s = some s
after_entries (sets_up done ∷ es) s = after_entries es (set_up done s)
after_entries (quits ∷ es) s = after_entries es (quit s)
after_entries (starts t ∷ es) s = elim (start_service t.config t.event_fd t.listeners t.rounds s) [
  | none ↦ none
  | some r ↦ after_entries es r.statics
]

start_service-caught :
    (t : Start) (s : Statics) {r : Service}
    → s.caught_signal ≡ true
    → start_service t.config t.event_fd t.listeners t.rounds s ≡ some r
    → r.statics.caught_signal ≡ true
unfolding start_service run_service
start_service-caught t s h e = ground (arith, h)

after_entries-caught :
    (es : List Entry) (s : Statics) {t : Statics}
    → s.caught_signal ≡ true
    → after_entries es s ≡ some t
    → t.caught_signal ≡ true
unfolding after_entries set_up quit
after_entries-caught [] s h e = ground arith
after_entries-caught (sets_up done ∷ es) s h e = after_entries-caught es (set_up done s) h e
after_entries-caught (quits ∷ es) s h e = after_entries-caught es (quit s) refl e
after_entries-caught (starts b ∷ es) s h e =
    elim (Option-cases (start_service b.config b.event_fd b.listeners b.rounds s)) [
      | inl null ↦ cc (rw (null, after_entries) at e)
      | inr (r, went) ↦
          after_entries-caught es r.statics (start_service-caught b s h went)
            (rw (went, after_entries) at e)
    ]

caught_lem :
    (c : ServerConfig) (event_fd : ℕ) (ls : List ℕ) (rounds : List Round) (s : Statics)
    → s.caught_signal ≡ true
    → ((run_service c event_fd (some ls) rounds s).code ≡ 0)
      × (count is_select_call (run_service c event_fd (some ls) rounds s).log ≡ 0)
unfolding run_service total
caught_lem c event_fd ls rounds s h =
    let body = (service_body c event_fd (some ls) s.caught_signal rounds []).0 in
    let (n, went) =
      count-service_body is_select_call select_aside c event_fd (some ls) s.caught_signal rounds
        refl (λ k. refl) in
    (
      ground (arith, h, went),
      count-finished is_select_call c ls body refl refl (λ m. refl) ∙ ground (arith, h, n),
    )

-- After `quit` no call of `startService` ever serves a viewer again: whatever JNI calls came in
-- between that used no null pointer, `initializeVncFlinger` included, the next `startService` with
-- its listeners made and a desktop returns 0 with no `select` at all, whatever there would be to
-- do, since `gCaughtSignal` is set for good.
pub quit_is_final :
    (before : List Entry) (c : ServerConfig) (event_fd : ℕ) (ls : List ℕ) (rounds : List Round)
    (s t : Statics)
    → after_entries before (quit s) ≡ some t
    → t.has_desktop ≡ true
    → (r : Service) × (start_service c event_fd (some ls) rounds t ≡ some r)
      × (r.code ≡ 0)
      × (count is_select_call r.log ≡ 0)
unfolding start_service quit
quit_is_final before c event_fd ls rounds s t e h =
    let (code, none_seen) =
      caught_lem c event_fd ls rounds t (after_entries-caught before (quit s) refl e) in
    (run_service c event_fd (some ls) rounds t, rw h, code, none_seen)
