-- ===== src/Main/Loop.antt =====
-- What the event loop and the end of `startService` do, counted in the log of calls.
use packages_services_vnc_fl.Main.Service.{
  LoopCall, Client, Round, Selected, shutdown_clients, accept_clients, serve_clients, read_event_fd,
  after_select, remove_socket, add_socket, reject_connection, read_socket, write_socket,
  check_timeouts, select_call, ready, read_event, interrupted, failed, process_display, round,
  event_loop, read_fds, write_fds, wait_time,
}
use packages_services_vnc_fl.Prelude.{
  Bool, ℕ, List, ◌∷◌, true, ◌≡◌, ◌∙◌, false, ◌+◌, if◌then◌else◌, arith, [], Option, refl, ◌||◌,
  ◌&&◌, Option-cases, not, inl, ◌*◌, inr, ◌++◌, Bool-cases,
}

abbrev pub weight : Bool → ℕ
weight true = 1
weight false = 0

unfoldable pub count : (LoopCall → Bool) → List LoopCall → ℕ
count p [] = 0
count p (c ∷ cs) = weight (p c) + count p cs

-- A kind of call that only `select` and the reading of the event descriptor make.
pub record Aside (p : LoopCall → Bool) : Type 0 where
  pub removes : (n : ℕ) → p (remove_socket n) ≡ false
  pub adds : (n : ℕ) → p (add_socket n) ≡ false
  pub rejects : p reject_connection ≡ false
  pub reads : (n : ℕ) → p (read_socket n) ≡ false
  pub writes : (n : ℕ) → p (write_socket n) ≡ false
  pub checks : p check_timeouts ≡ false
  pub selects : Bool
  pub select_is : (a b : List ℕ) (t : Option (ℕ × ℕ)) → p (select_call a b t) ≡ selects

abbrev pub is_failed : Selected → Bool
is_failed interrupted = false
is_failed failed = true
is_failed (ready _ _) = false

abbrev pub is_ready : Selected → Bool
is_ready interrupted = false
is_ready failed = false
is_ready (ready _ _) = true

abbrev pub any_of : List ℕ → Bool
any_of [] = false
any_of (s ∷ ss) = true

-- The rounds up to one in which `select` fails for another reason than a signal, that one included.
abbrev pub until_failure : List Round → List Round
until_failure [] = []
until_failure (r ∷ rs) =
    let rest = until_failure rs in r ∷ (if is_failed r.selected then [] else rest)

abbrev pub has_failure : List Round → Bool
has_failure [] = false
has_failure (r ∷ rs) = is_failed r.selected || has_failure rs

-- The rounds for which a test holds.
abbrev pub rounds_with : (Round → Bool) → List Round → ℕ
rounds_with test [] = 0
rounds_with test (r ∷ rs) = weight (test r) + rounds_with test rs

-- A round that comes to its viewers, and one whose event descriptor has something then.
abbrev pub has_viewers : Round → Bool
has_viewers r = is_ready r.selected && any_of r.sockets

abbrev pub has_display_event : Round → Bool
has_display_event r = has_viewers r && r.event

module _ (p : LoopCall → Bool) (a : Aside p) where
  open a use {removes, adds, rejects, reads, writes, checks, selects, select_is}

  count-shutdown_clients :
      (cs : List Client) (log : List LoopCall) → count p (shutdown_clients cs log) ≡ count p log
  unfolding shutdown_clients count
  count-shutdown_clients [] log = refl
  count-shutdown_clients (c ∷ cs) log =
      count-shutdown_clients cs (if c.is_shutdown then remove_socket c.fd ∷ log else log)
      ∙ ground (arith, removes c.fd)

  count-accept_clients :
      (r : Round) (readable ls : List ℕ) (log : List LoopCall)
      → count p (accept_clients r readable ls log) ≡ count p log
  unfolding accept_clients count
  count-accept_clients r readable [] log = refl
  count-accept_clients r readable (l ∷ ls) log =
      count-accept_clients r readable ls _ ∙ elim (Option-cases (r.accepted l)) [
        | inl refused ↦ ground (arith, refused, rejects)
        | inr (sock, e) ↦ ground (arith, e, adds sock)
      ]

  count-serve_clients :
      (readable writable ss : List ℕ) (log : List LoopCall)
      → count p (serve_clients readable writable ss log) ≡ count p log
  unfolding serve_clients count
  count-serve_clients readable writable [] log = refl
  count-serve_clients readable writable (s ∷ ss) log =
      count-serve_clients readable writable ss _ ∙ ground (arith, reads s, writes s)

  unfoldable pub own : Round → ℕ
  own r =
      weight selects
      + (weight (p read_event) * weight (has_viewers r)
          + weight (p process_display) * weight (has_display_event r))

  count-after_select :
      (ls : List ℕ) (r : Round) (log : List LoopCall) (selected : Selected) (sockets : List ℕ)
      → r.selected ≡ selected
      → r.sockets ≡ sockets
      → (count p (after_select ls r log selected).0 + weight selects ≡ own r + count p log)
        × ((after_select ls r log selected).1 ≡ not (is_failed selected))
  unfolding after_select own read_event_fd count
  count-after_select ls r log interrupted sockets e f = ground arith
  count-after_select ls r log failed sockets e f = ground arith
  count-after_select ls r log (ready readable writable) [] e f =
      ground (arith, checks, count-accept_clients r readable ls log)
  count-after_select ls r log (ready readable writable) (s ∷ ss) e f = ground (
    arith,
    checks,
    count-accept_clients r readable ls log,
    count-serve_clients readable writable (s ∷ ss)
        (check_timeouts ∷ accept_clients r readable ls log),
  )

  unfoldable pub total : List Round → ℕ
  total [] = 0
  total (r ∷ rs) = own r + total rs

  count-round :
      (event_fd : ℕ) (ls : List ℕ) (r : Round) (log : List LoopCall)
      → (count p (round event_fd ls r log).0 ≡ own r + count p log)
        × ((round event_fd ls r log).1 ≡ not (is_failed r.selected))
  unfolding round count
  count-round event_fd ls r log =
      let watched = check_timeouts ∷ shutdown_clients r.clients log in
      let waits =
        select_call (event_fd ∷ ls ++ read_fds r.clients) (write_fds r.clients)
          (wait_time r.wait_ms) in
      let (c, went) = count-after_select ls r (waits ∷ watched) r.selected r.sockets refl refl in
      let s =
        select_is (event_fd ∷ ls ++ read_fds r.clients) (write_fds r.clients)
          (wait_time r.wait_ms) in
      let here : count p (waits ∷ watched) ≡ weight selects + count p log =
        ground (arith, s, checks, count-shutdown_clients r.clients log) in
      (omega (arith, c, here), went)

  pub count-event_loop :
      (event_fd : ℕ) (ls : List ℕ) (rs : List Round) (log : List LoopCall)
      → (count p (event_loop event_fd ls rs log).0 ≡ total (until_failure rs) + count p log)
        × ((event_loop event_fd ls rs log).1 ≡ not (has_failure rs))
  unfolding event_loop total
  count-event_loop event_fd ls [] log = (omega arith, refl)
  count-event_loop event_fd ls (r ∷ rs) log =
      let (c, went) = count-round event_fd ls r log in
      let (c', went') = count-event_loop event_fd ls rs (round event_fd ls r log).0 in
      elim (Bool-cases (is_failed r.selected)) [
        | inl fails ↦ ground (arith, fails, c, went)
        | inr goes ↦ ground (arith, goes, c, went, c', went')
      ]
