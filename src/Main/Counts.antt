-- ===== src/Main/Counts.antt =====
-- src/vncflinger/main.cpp: counting the calls that `startService` makes.
use packages_services_vnc_fl.Main.Service.{
  ServerConfig, LoopCall, Round, delete_listeners, service_body, with_pid, select_call, write_pid,
  delete_listener, read_event, ServerListener, remove_pid, process_display, make_listeners,
  choose_listener, release_desktop,
}
use packages_services_vnc_fl.Main.Loop.{
  Aside, count, weight, total, own, count-event_loop, until_failure, has_failure, rounds_with,
  has_viewers, has_display_event,
}
use packages_services_vnc_fl.Prelude.{
  ℕ, List, Option, false, Bool, ◌∷◌, true, if◌then◌else◌, refl, ◌≡◌, ◌+◌, ◌∙◌, some, ◌==◌, arith,
  [], none, not,
}
use packages_services_vnc_fl.Sockets.Delivery.{is_empty}
use packages_services_vnc_fl.Audio.Args.{Arg}

abbrev pub is_read_event : LoopCall → Bool
is_read_event read_event = true
is_read_event _ = false

abbrev pub is_process_display : LoopCall → Bool
is_process_display process_display = true
is_process_display _ = false

abbrev pub is_select_call : LoopCall → Bool
is_select_call (select_call _ _ _) = true
is_select_call _ = false

abbrev pub is_remove_pid : LoopCall → Bool
is_remove_pid remove_pid = true
is_remove_pid _ = false

abbrev pub is_deletion : ℕ → LoopCall → Bool
is_deletion l (delete_listener m) = l == m
is_deletion l _ = false

abbrev pub occurrences : ℕ → List ℕ → ℕ
occurrences l [] = 0
occurrences l (m ∷ ms) = weight (l == m) + occurrences l ms

pub read_aside : Aside is_read_event
read_aside = record {
  removes = λ n. refl;
  adds = λ n. refl;
  rejects = refl;
  reads = λ n. refl;
  writes = λ n. refl;
  checks = refl;
  selects = false;
  select_is = λ a b t. refl;
}

pub process_aside : Aside is_process_display
process_aside = record {
  removes = λ n. refl;
  adds = λ n. refl;
  rejects = refl;
  reads = λ n. refl;
  writes = λ n. refl;
  checks = refl;
  selects = false;
  select_is = λ a b t. refl;
}

pub pid_aside : Aside is_remove_pid
pid_aside = record {
  removes = λ n. refl;
  adds = λ n. refl;
  rejects = refl;
  reads = λ n. refl;
  writes = λ n. refl;
  checks = refl;
  selects = false;
  select_is = λ a b t. refl;
}

pub deletion_aside : (l : ℕ) → Aside (is_deletion l)
deletion_aside l = record {
  removes = λ n. refl;
  adds = λ n. refl;
  rejects = refl;
  reads = λ n. refl;
  writes = λ n. refl;
  checks = refl;
  selects = false;
  select_is = λ a b t. refl;
}

pub total-read : (rs : List Round) → total is_read_event read_aside rs ≡ rounds_with has_viewers rs
unfolding total own read_aside
total-read [] = refl
total-read (r ∷ rs) = omega (arith, total-read rs)

pub total-process :
    (rs : List Round) → total is_process_display process_aside rs ≡ rounds_with has_display_event rs
unfolding total own process_aside
total-process [] = refl
total-process (r ∷ rs) = omega (arith, total-process rs)

pub total-pid : (rs : List Round) → total is_remove_pid pid_aside rs ≡ 0
unfolding total own pid_aside
total-pid [] = refl
total-pid (r ∷ rs) = omega (arith, total-pid rs)

pub total-deletion : (l : ℕ) (rs : List Round) → total (is_deletion l) (deletion_aside l) rs ≡ 0
unfolding total own deletion_aside
total-deletion l [] = refl
total-deletion l (r ∷ rs) = omega (arith, total-deletion l rs)

count-delete_listeners :
    (p : LoopCall → Bool) (ls : List ℕ) (log : List LoopCall)
    → ((n : ℕ) → p (delete_listener n) ≡ false)
    → count p (delete_listeners ls log) ≡ count p log
unfolding delete_listeners count
count-delete_listeners p [] log h = refl
count-delete_listeners p (l ∷ ls) log h =
    count-delete_listeners p ls (delete_listener l ∷ log) h ∙ ground (arith, h l)

deletions_lem :
    (l : ℕ) (ls : List ℕ) (log : List LoopCall)
    → count (is_deletion l) (delete_listeners ls log) ≡ occurrences l ls + count (is_deletion l) log
unfolding delete_listeners count
deletions_lem l [] log = omega arith
deletions_lem l (m ∷ ms) log = omega (arith, deletions_lem l ms (delete_listener m ∷ log))

count-with_pid :
    (p : LoopCall → Bool) (path : Arg) (call : LoopCall) (log : List LoopCall)
    → p call ≡ false
    → count p (with_pid path call log) ≡ count p log
unfolding count
count-with_pid p [] call log h = refl
count-with_pid p (b ∷ bs) call log h = ground (arith, h)

-- The rounds that a call of `startService` comes to.
abbrev pub rounds_of : Bool → List Round → List Round
rounds_of caught rounds = if caught then [] else rounds

-- The listeners cannot be made, or `select` fails in a round.
abbrev pub raises : Option (List ℕ) → List Round → Bool
raises none rounds = true
raises (some ls) rounds = has_failure rounds

abbrev if_made : Option (List ℕ) → ℕ → ℕ
if_made none t = 0
if_made (some ls) t = t

pub none_of : {t : ℕ} (ls : Option (List ℕ)) → t ≡ 0 → if_made ls t ≡ 0
none_of none e = refl
none_of (some ls) e = e

pub count-service_body :
    (p : LoopCall → Bool) (a : Aside p) (c : ServerConfig) (event_fd : ℕ) (ls : Option (List ℕ))
    (caught : Bool) (rounds : List Round)
    → p write_pid ≡ false
    → ((l : ServerListener) → p (make_listeners l) ≡ false)
    → (count p (service_body c event_fd ls caught rounds []).0
        ≡ if_made ls (total p a (until_failure (rounds_of caught rounds))))
      × ((service_body c event_fd ls caught rounds []).1
          ≡ not (raises ls (rounds_of caught rounds)))
unfolding service_body count
count-service_body p a c event_fd none caught rounds w m = ground (arith, m (choose_listener c))
count-service_body p a c event_fd (some ls) caught rounds w m =
    let begun = with_pid c.pid_file write_pid (make_listeners (choose_listener c) ∷ []) in
    let (n, went) = count-event_loop p a event_fd ls (rounds_of caught rounds) begun in
    let none_yet : count p begun ≡ 0 =
      count-with_pid p c.pid_file write_pid (make_listeners (choose_listener c) ∷ []) w
      ∙ ground (arith, m (choose_listener c)) in
    (omega (arith, n, none_yet), went)

-- The end of `startService` after a log.
abbrev finished : ServerConfig → List ℕ → List LoopCall → List LoopCall
finished c ls log = with_pid c.pid_file remove_pid (delete_listeners ls (release_desktop ∷ log))

pub count-finished :
    (p : LoopCall → Bool) (c : ServerConfig) (ls : List ℕ) (log : List LoopCall)
    → p remove_pid ≡ false
    → p release_desktop ≡ false
    → ((n : ℕ) → p (delete_listener n) ≡ false)
    → count p (finished c ls log) ≡ count p log
unfolding count
count-finished p c ls log hr hd hl =
    count-with_pid p c.pid_file remove_pid (delete_listeners ls (release_desktop ∷ log)) hr
    ∙ count-delete_listeners p ls (release_desktop ∷ log) hl
    ∙ ground (arith, hd)

pub deletions-finished :
    (l : ℕ) (c : ServerConfig) (ls : List ℕ) (log : List LoopCall)
    → count (is_deletion l) (finished c ls log) ≡ occurrences l ls + count (is_deletion l) log
unfolding count
deletions-finished l c ls log =
    count-with_pid (is_deletion l) c.pid_file remove_pid
      (delete_listeners ls (release_desktop ∷ log)) refl
    ∙ omega (arith, deletions_lem l ls (release_desktop ∷ log))

pids_lem :
    (path : Arg) (log : List LoopCall)
    → count is_remove_pid (with_pid path remove_pid log)
      ≡ (if is_empty path then 0 else 1) + count is_remove_pid log
unfolding count
pids_lem [] log = omega arith
pids_lem (b ∷ bs) log = refl

pub pids-finished :
    (c : ServerConfig) (ls : List ℕ) (log : List LoopCall)
    → count is_remove_pid (finished c ls log)
      ≡ (if is_empty c.pid_file then 0 else 1) + count is_remove_pid log
unfolding count
pids-finished c ls log = omega (
  arith,
  pids_lem c.pid_file (delete_listeners ls (release_desktop ∷ log)),
  count-delete_listeners is_remove_pid ls (release_desktop ∷ log) (λ n. refl),
)

pub select_aside : Aside is_select_call
select_aside = record {
  removes = λ n. refl;
  adds = λ n. refl;
  rejects = refl;
  reads = λ n. refl;
  writes = λ n. refl;
  checks = refl;
  selects = true;
  select_is = λ a b t. refl;
}
