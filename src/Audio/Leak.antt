-- ===== src/Audio/Leak.antt =====
-- Which sockets are open after the audio streamer has served its clients.
use packages_services_vnc_fl.Sockets.Net.{
  Net, NetCall, send, accept, open_unix, open_tcp, control_socket, set_reuse_address, bind_unix,
  bind_tcp, listen, select_write, shutdown, close,
}
use packages_services_vnc_fl.Sockets.Send.{send_loop, send_data_socket, ready_log, can_send}
use packages_services_vnc_fl.Sockets.Closed.{
  opened, open_fds, remove, OneOrNone, create_android_socket_clean, create_tcp_socket_clean, Leaves,
  remove-opened, has_fd,
}
use packages_services_vnc_fl.Audio.Record.{
  record_loop, Recorder, AudioCall, Ended, record_thread, present, audiostreamer_init, null,
}
use packages_services_vnc_fl.Prelude.Int.{ℤ, pos_part, is_positive, pos, negsuc, is_zero}
use packages_services_vnc_fl.Prelude.{
  ℕ, List, ◌≡◌, Bool, some, suc, ◌∷◌, [], zero, length, Option-cases, arith, drop, inl, inr, true,
  refl, false, ◌&&◌, Bool-cases, ◌∙◌, ◌⊎◌, ◌<◌,
}
use packages_services_vnc_fl.Sockets.Delivery.{SendsAtMost}
use packages_services_vnc_fl.Audio.Streams.{available, record_thread-Streams}
use packages_services_vnc_fl.Sockets.Create.{close_socket, accept_socket}
use packages_services_vnc_fl.Audio.Serve.{accept_loop, create_thread, Session, make_socket}
use packages_services_vnc_fl.Audio.Args.{
  listener, Settings, Listener, unix_socket, tcp_socket, android_socket, default_socket_unix_name,
}
use packages_services_vnc_fl.Sockets.Unix.{create_unix_socket_clean}

module _ (net : Net) (sock : ℤ) where
  ready_log-fds :
      (timeout : ℕ) (cs : List NetCall)
      → open_fds net (ready_log net sock timeout cs).0 ≡ open_fds net cs
  unfolding ready_log can_send open_fds
  ready_log-fds timeout cs = ground arith

  send_loop-fds :
      (fuel timeout : ℕ) (rest : List ℕ) (cs : List NetCall) (r : List NetCall × Bool)
      → send_loop net fuel sock timeout rest cs ≡ some r
      → open_fds net r.0 ≡ open_fds net cs
  unfolding send_loop open_fds
  send_loop-fds zero timeout rest cs r e = cc
  send_loop-fds (suc fuel) timeout rest cs r e =
      let cs1 = (ready_log net sock timeout cs).0 in
      let bytes = net.answer cs1 (send sock rest) in
      ground (
        arith,
        ready_log-fds timeout cs,
        send_loop-fds fuel timeout (drop (pos_part bytes) rest) (send sock rest ∷ cs1) r,
      )

  send_data_socket-fds :
      (buffer : List ℕ) (cs : List NetCall) (r : List NetCall × Bool)
      → send_data_socket net sock buffer 0 cs ≡ some r
      → open_fds net r.0 ≡ open_fds net cs
  unfolding send_data_socket
  send_data_socket-fds buffer cs r e = send_loop-fds (suc (length buffer)) 0 buffer cs r e

  record_loop-fds :
      (reads : List (List ℕ)) (cs cs' : List NetCall)
      → record_loop net sock reads cs ≡ some cs'
      → open_fds net cs' ≡ open_fds net cs
  unfolding record_loop
  record_loop-fds [] cs cs' e = cc
  record_loop-fds ([] ∷ reads) cs cs' e = record_loop-fds reads cs cs' e
  record_loop-fds ((x ∷ xs) ∷ reads) cs cs' e =
      elim (Option-cases (send_data_socket net sock (x ∷ xs) 0 cs)) [
        | inl endless ↦ cc (simp (endless, record_loop) at e)
        | inr (r, sent) ↦
            ground
              (arith, sent, send_data_socket-fds (x ∷ xs) cs r sent, record_loop-fds reads r.0 cs')
      ]

thread-fds :
    (net : Net) (check : Bool) (client : ℤ) (reads : List (List ℕ)) (recorder : Recorder)
    (audio : List AudioCall) (cs : List NetCall) (e : Ended)
    → available recorder check ≡ true
    → is_positive client ≡ true
    → record_thread net check true client reads recorder audio cs ≡ some e
    → (open_fds net e.calls ≡ remove client (open_fds net cs))
      × (made : Bool) × (e.recorder ≡ present made)
unfolding record_thread close_socket audiostreamer_init open_fds
thread-fds net check client reads null audio cs e able p run =
    elim (Option-cases (record_loop net client reads cs)) [
      | inl endless ↦ ground (arith, endless)
      | inr (cs', h) ↦
          (ground (arith, h, record_loop-fds net client reads cs cs' h), check, ground (arith, h))
    ]
thread-fds net check client reads (present made) audio cs e able p run =
    elim (Option-cases (record_loop net client reads cs)) [
      | inl endless ↦ ground (arith, endless)
      | inr (cs', h) ↦
          (ground (arith, h, record_loop-fds net client reads cs cs' h), made, ground (arith, h))
    ]

-- A session closes its client's socket, and leaves the recorder there.
session-fds :
    (net : Net) (check : Bool) (client : ℤ) (reads : List (List ℕ)) (recorder : Recorder)
    (audio : List AudioCall) (cs : List NetCall)
    → SendsAtMost net
    → available recorder check ≡ true
    → is_positive client ≡ true
    → (e : Ended) × (record_thread net check true client reads recorder audio cs ≡ some e)
      × (open_fds net e.calls ≡ remove client (open_fds net cs))
      × (made : Bool) × (e.recorder ≡ present made)
session-fds net check client reads recorder audio cs most able p =
    let r = record_thread-Streams net check client reads recorder audio cs most able p in
    let (fds, made, there) = thread-fds net check client reads recorder audio cs r.0 able p r.1 in
    (r.0, r.1, fds, made, there)

-- In every session the recorder can be made and the buffer is allocated.
abbrev pub all_ready : List Session → Bool
all_ready [] = true
all_ready (x ∷ xs) = x.check && x.allocated && all_ready xs

opened-not_positive :
    (client : ℤ) (fds : List ℕ)
    → is_zero client ≡ false
    → is_positive client ≡ false
    → opened client fds ≡ fds
opened-not_positive (pos n) fds z p = ground arith
opened-not_positive (negsuc n) fds z p = refl

available-of_check : (r : Recorder) (c : Bool) → c ≡ true → available r c ≡ true
available-of_check null c h = h
available-of_check (present b) c h = refl

-- The calls that answer a new descriptor.
abbrev pub makes_descriptor : NetCall → Bool
makes_descriptor open_unix = true
makes_descriptor open_tcp = true
makes_descriptor (control_socket name) = true
makes_descriptor (accept s) = true
makes_descriptor (set_reuse_address s) = false
makes_descriptor (bind_unix s path) = false
makes_descriptor (bind_tcp s port) = false
makes_descriptor (listen s) = false
makes_descriptor (select_write s sec usec) = false
makes_descriptor (send s buffer) = false
makes_descriptor (shutdown s) = false
makes_descriptor (close s) = false

-- Descriptor 0 is in use, as in each process that Android starts, so that no new descriptor is 0.
abbrev pub ZeroIsTaken : Net → Type 0
ZeroIsTaken net =
    (cs : List NetCall) (c : NetCall)
    → makes_descriptor c ≡ true
    → is_zero (net.answer cs c) ≡ false

accept_loop-fds :
    (net : Net) (sock : ℤ) (xs : List Session) (e : Ended)
    → SendsAtMost net
    → ZeroIsTaken net
    → all_ready xs ≡ true
    → (e' : Ended) × (accept_loop net sock xs e ≡ some e')
      × (open_fds net e'.calls ≡ open_fds net e.calls)
unfolding accept_loop accept_socket open_fds
accept_loop-fds net sock [] e most taken ready = (e, refl, refl)
accept_loop-fds net sock (x ∷ xs) e most taken ready =
    let client = net.answer e.calls (accept sock) in
    let cs = accept sock ∷ e.calls in
    elim (Bool-cases (is_positive client)) [
      | inr nobody ↦
          let (e', run, fds) =
            accept_loop-fds net sock xs (record e { calls = cs }) most taken (ground arith) in
          (
            e',
            ground (arith, nobody, run),
            fds
                ∙ opened-not_positive client (open_fds net e.calls)
                    (taken e.calls (accept sock) refl) nobody,
          )
      | inl p ↦
          let (e1, run1, fds1, made, there) =
            session-fds net x.check client x.reads e.recorder e.audio cs most
              (available-of_check e.recorder x.check (ground arith)) p in
          let (e', run, fds) = accept_loop-fds net sock xs e1 most taken (ground arith) in
          (
            e',
            ground (arith, p, run1, run),
            fds ∙ fds1 ∙ remove-opened client (open_fds net e.calls),
          )
    ]

-- A Unix socket's name fits in its address, and the call answers no descriptor that is open.
abbrev pub CanBeMade : Net → Listener → List NetCall → Type 0
CanBeMade net android_socket cs = Unit {0}
CanBeMade net (unix_socket name) cs =
    (length name < 108) × (has_fd (net.answer cs open_unix) (open_fds net cs) ≡ false)
CanBeMade net (tcp_socket port) cs = Unit {0}

OneOrNone-of_Leaves :
    (net : Net) (sock : ℤ) (cs : List NetCall) {r : List NetCall × ℤ}
    → is_zero sock ≡ false
    → Leaves net sock cs r
    → OneOrNone net cs r
OneOrNone-of_Leaves net sock cs other (inl (z, _, _)) = cc (other, z)
OneOrNone-of_Leaves net sock cs other (inr (_, clean)) = clean

make_socket_clean :
    (net : Net) (l : Listener) (cs : List NetCall)
    → CanBeMade net l cs
    → ZeroIsTaken net
    → (r : List NetCall × ℤ) × (make_socket net l cs ≡ some r) × OneOrNone net cs r
unfolding make_socket
make_socket_clean net android_socket cs h taken =
    let name = default_socket_unix_name in
    (
      _,
      refl,
      OneOrNone-of_Leaves net (net.answer cs (control_socket name)) cs
          (taken cs (control_socket name) refl) (create_android_socket_clean net name cs),
    )
make_socket_clean net (unix_socket name) cs h taken =
    create_unix_socket_clean net name cs h.0 (taken cs open_unix refl) h.1
make_socket_clean net (tcp_socket port) cs h taken = (
  _,
  refl,
  OneOrNone-of_Leaves net (net.answer cs open_tcp) cs (taken cs open_tcp refl)
      (create_tcp_socket_clean net port cs),
)

-- What is open at the end of the streamer's thread: if no listening socket could be made, no
-- descriptor is new; else the listening socket is still open, and the only one that is new.
abbrev pub LeavesListening : Net → Listener → List NetCall → List NetCall → Type 0
LeavesListening net l cs cs' =
    (m : List NetCall × ℤ) × (make_socket net l cs ≡ some m)
    × (((is_positive m.1 ≡ false) × (open_fds net cs' ≡ open_fds net cs))
        ⊎ ((is_positive m.1 ≡ true) × (open_fds net cs' ≡ pos_part m.1 ∷ open_fds net cs)))

-- For every list of clients that come while the streamer runs, where the name of a Unix socket has less
-- than 108 bytes and its call answers no descriptor that is open, each session has its recorder and buffer, a socket takes at most the bytes it is given and no new
-- descriptor is 0: the thread ends; if no listening socket could be made, no descriptor is new; else
-- every client's socket is closed again, and the listening socket is still open, and the only one that
-- is new.
pub create_thread_leaks :
    (net : Net) (s : Settings) (xs : List Session) (e : Ended)
    → CanBeMade net (listener s) e.calls
    → SendsAtMost net
    → ZeroIsTaken net
    → all_ready xs ≡ true
    → (e' : Ended) × (create_thread net s xs e ≡ some e')
      × LeavesListening net (listener s) e.calls e'.calls
unfolding create_thread
create_thread_leaks net s xs e kind most taken ready =
    let (r, made, clean) = make_socket_clean net (listener s) e.calls kind taken in
    elim clean [
      | inr (failed, same) ↦
          (record e { calls = r.0 }, ground (arith, made, failed), (r, made, inl (failed, same)))
      | inl (positive, one, _, _, _) ↦
          let (e', run, fds) =
            accept_loop-fds net r.1 xs (record e { calls = r.0 }) most taken ready in
          (e', ground (arith, made, positive, run), (r, made, inr (positive, fds ∙ one)))
    ]
