-- ===== src/Sockets/Tests.antt =====
-- The socket makers and the send loop on concrete behaviours of the calls.
use packages_services_vnc_fl.Sockets.Net.{
  Net, NetCall, open_unix, open_tcp, control_socket, set_reuse_address, bind_unix, bind_tcp, listen,
  accept, select_write, send, shutdown, close,
}
use packages_services_vnc_fl.Sockets.Create.{
  create_unix_socket, create_android_socket, create_tcp_socket, abstract_path, abs_unix_listener,
  listen_or_throw, Base, throw,
}
use packages_services_vnc_fl.Sockets.Send.{
  send_data_socket, timeval, send_loop, ready_log, timeval_exact,
}
use packages_services_vnc_fl.Prelude.{
  List, Bool, ◌∷◌, ◌*◌, arith, [], ◌+◌, ◌≡◌, ◌<◌, some, false, true, refl,
}
use packages_services_vnc_fl.Sockets.Delivery.{SendsAtMost, Sent, send_data_socket_sends}
use packages_services_vnc_fl.Prelude.Int.{ℤ, pos, negsuc}
use packages_services_vnc_fl.Sockets.Closed.{
  overflows, create_android_socket_clean, create_tcp_socket_clean, too_long,
  create_unix_socket_closes_twice, long_names, open_fds, Leaves, OneOrNone,
}
use packages_services_vnc_fl.Sockets.Listeners.{
  OneOrThrown, abs_unix_listener_clean, Closes, Closes,
}
use packages_services_vnc_fl.Sockets.Unix.{create_unix_socket_clean}

-- Descriptor 5 for each new socket, a refused bind of a name, and sends of two bytes at most.
abbrev slow : NetCall → ℤ
slow open_unix = pos 5
slow open_tcp = pos 5
slow (control_socket name) = pos 5
slow (accept s) = pos 6
slow (bind_unix s path) = negsuc 0
slow (bind_tcp s port) = pos 0
slow (set_reuse_address s) = pos 0
slow (listen s) = pos 0
slow (select_write s sec usec) = pos 1
slow (send s []) = pos 0
slow (send s (x ∷ [])) = pos 1
slow (send s (x ∷ y ∷ zs)) = pos 2
slow (shutdown s) = pos 0
slow (close s) = pos 0

abbrev slow_net : Net
slow_net = record { answer = λ cs c. slow c }

slow-SendsAtMost : SendsAtMost slow_net
slow-SendsAtMost cs s [] = omega arith
slow-SendsAtMost cs s (x ∷ []) = omega arith
slow-SendsAtMost cs s (x ∷ y ∷ zs) = omega arith

sends_in_two_rounds :
    send_data_socket slow_net (pos 6) (1 ∷ 2 ∷ 3 ∷ []) 0 []
    ≡ some (send (pos 6) (3 ∷ []) ∷ send (pos 6) (1 ∷ 2 ∷ 3 ∷ []) ∷ [], true)
unfolding send_data_socket send_loop ready_log
sends_in_two_rounds = refl

create_tcp_socket_clean_example : Leaves slow_net (pos 5) [] (create_tcp_socket slow_net 9200 [])
create_tcp_socket_clean_example = create_tcp_socket_clean slow_net 9200 []

create_android_socket_clean_test :
    Leaves slow_net (pos 5) [] (create_android_socket slow_net (97 ∷ []) [])
create_android_socket_clean_test = create_android_socket_clean slow_net (97 ∷ []) []

create_unix_socket_closes_twice_test :
    create_unix_socket slow_net (64 ∷ 97 ∷ []) []
    ≡ some (
      close (pos 5)
          ∷ close (pos 5)
          ∷ bind_unix (pos 5) (abstract_path (64 ∷ 97 ∷ []))
          ∷ open_unix
          ∷ [],
      pos 0,
    )
create_unix_socket_closes_twice_test =
    create_unix_socket_closes_twice slow_net (64 ∷ 97 ∷ []) [] refl (omega arith) refl

send_data_socket_sends_example :
    (r : List NetCall × Bool) × (send_data_socket slow_net (pos 6) (1 ∷ 2 ∷ 3 ∷ []) 1500 []
      ≡ some r)
    × Sent slow_net [] (1 ∷ 2 ∷ 3 ∷ []) r
send_data_socket_sends_example =
    send_data_socket_sends slow_net (pos 6) (1 ∷ 2 ∷ 3 ∷ []) 1500 [] slow-SendsAtMost

timeval_exact_test :
    ((timeval 1500).0 * 1000000 + (timeval 1500).1 ≡ 1500000) × ((timeval 1500).1 < 1000000)
timeval_exact_test = timeval_exact 1500

create_unix_socket_clean_example :
    (r : List NetCall × ℤ) × (create_unix_socket slow_net (64 ∷ 97 ∷ []) [] ≡ some r)
    × OneOrNone slow_net [] r
unfolding open_fds
create_unix_socket_clean_example =
    create_unix_socket_clean slow_net (64 ∷ 97 ∷ []) [] (omega arith) refl refl

-- A base class whose `listen` fails and whose destructor closes nothing.
abbrev careless : Base
careless = record {
  initial = negsuc 0;
  listens = λ fd log. (listen fd ∷ log, false);
  destroy = λ fd log. (log, tt);
}

-- A base class that closes the descriptor as well.
abbrev closing : Base
closing = record {
  initial = negsuc 0;
  listens = λ fd log. (listen fd ∷ log, true);
  destroy = λ fd log. (close fd ∷ log, tt);
}

-- Descriptor 5 for each new socket; every other call succeeds.
abbrev willing : NetCall → ℤ
willing open_unix = pos 5
willing open_tcp = pos 5
willing _ = pos 0

abbrev willing_net : Net
willing_net = record { answer = λ cs c. willing c }

closing-Closes : Closes true closing willing_net
unfolding open_fds
closing-Closes = record { listens = λ fd log. refl; destroy = λ fd log. refl }

careless-Closes : Closes false careless willing_net
unfolding open_fds
careless-Closes = record { listens = λ fd log. refl; destroy = λ fd log. refl }

abs_unix_listener_clean_example :
    OneOrThrown true closing
      (pos 5)
      willing_net
      []
      (abs_unix_listener closing willing_net (b'@' ∷ b'v' ∷ []) [])
unfolding open_fds
abs_unix_listener_clean_example =
    abs_unix_listener_clean true closing willing_net (b'@' ∷ b'v' ∷ []) [] closing-Closes refl refl

-- A `listen` that throws leaves descriptor 5 open.
listen_leaks :
    open_fds willing_net (abs_unix_listener careless willing_net (b'@' ∷ []) []).0 ≡ 5 ∷ []
unfolding abs_unix_listener listen_or_throw throw open_fds
listen_leaks = refl

long_names_example :
    overflows (create_unix_socket slow_net (64 ∷ 97 ∷ []) [])
    ≡ too_long (abs_unix_listener closing slow_net (64 ∷ 97 ∷ []) []).1
long_names_example = long_names closing slow_net (64 ∷ 97 ∷ []) [] refl
