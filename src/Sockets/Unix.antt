-- ===== src/Sockets/Unix.antt =====
-- `createUnixSocket` leaves no descriptor open but the one that it returns.
use packages_services_vnc_fl.Sockets.Net.{Net, NetCall, open_unix, bind_unix, close}
use packages_services_vnc_fl.Sockets.Create.{create_unix_socket, abstract_path, give_up, listened}
use packages_services_vnc_fl.Sockets.Path.{sun_path-short}
use packages_services_vnc_fl.Sockets.Closed.{
  open_fds, has_fd, OneOrNone, give_up-fds, create_unix_socket_closes_twice, remove, remove-opened,
  remove-absent, listened-OneOrNone,
}
use packages_services_vnc_fl.Prelude.{
  refl, List, ℕ, length, ◌<◌, ◌≡◌, false, some, ◌∷◌, arith, Bool-cases, inr, inl, ap, ◌∙◌, refl,
}
use packages_services_vnc_fl.Prelude.Int.{is_zero, ℤ, is_positive, is_negative, pos}

-- For every behaviour of the calls in which `socket` does not answer 0 or a descriptor that is open:
-- with a name of less than 108 bytes it returns a positive descriptor on which `listen` succeeded and
-- which is the only new one, or no positive number and no descriptor is new.
pub create_unix_socket_clean :
    (net : Net) (name : List ℕ) (cs : List NetCall)
    → length name < 108
    → is_zero (net.answer cs open_unix) ≡ false
    → has_fd (net.answer cs open_unix) (open_fds net cs) ≡ false
    → (r : List NetCall × ℤ) × (create_unix_socket net name cs ≡ some r) × OneOrNone net cs r
unfolding create_unix_socket open_fds
create_unix_socket_clean net name cs l other fresh =
    let s = net.answer cs open_unix in
    let bound = bind_unix s (abstract_path name) in
    let c1 = open_unix ∷ cs in
    let (path, e, covered) = sun_path-short name (ground arith) in
    elim (Bool-cases (is_positive s)) [
      | inr n ↦
          (give_up net s c1, rw n refl, inr (give_up-fds net s c1 (open_fds net cs) other refl))
      | inl p ↦ elim (Bool-cases (is_negative (net.answer c1 bound))) [
        | inl unbound ↦ (
          (close s ∷ close s ∷ bound ∷ c1, pos 0),
          create_unix_socket_closes_twice net name cs p l unbound,
          inr (
            refl,
            ap (remove s) (remove-opened s (open_fds net cs))
                ∙ remove-absent s (open_fds net cs) fresh,
          ),
        )
        | inr done ↦ (
          listened net s (bound ∷ c1),
          ground (arith, e, covered, done),
          listened-OneOrNone net s cs (bound ∷ c1) p refl,
        )
      ]
    ]
