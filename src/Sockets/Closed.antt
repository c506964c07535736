-- ===== src/Sockets/Closed.antt =====
-- Which descriptors the makers of listening sockets leave open, and what they do with a name that is
-- too long and with a refused `bind`.
use packages_services_vnc_fl.Sockets.Net.{
  Net, NetCall, open_unix, open_tcp, control_socket, set_reuse_address, bind_unix, bind_tcp, listen,
  accept, select_write, send, shutdown, close,
}
use packages_services_vnc_fl.Sockets.Create.{
  give_up, create_unix_socket, create_android_socket, create_tcp_socket, abs_unix_listener,
  abstract_path, path_too_long, threw, listened, Made, made, no_control_socket, cannot_create,
  cannot_bind, Base, throw, cannot_listen, sun_path, listen_or_throw,
}
use packages_services_vnc_fl.Prelude.{
  ℕ, List, ◌≡◌, [], ◌∷◌, if◌then◌else◌, false, ◌%◌, Bool-cases, true, inl, length, ◌==◌, inr, arith,
  ◌^◌, refl, ◌<◌, ◌∙◌, ◌⊎◌, some, Option, leb, Bool, sym, Option-cases, ◌||◌,
}
use packages_services_vnc_fl.Prelude.Int.{
  ℤ, negsuc, pos, pos_part, is_zero, is_positive, is_negative,
}
use packages_services_vnc_fl.Sockets.Path.{is_none, sun_path-short, is_none-sun_path}

abbrev pub remove : ℤ → List ℕ → List ℕ
remove (negsuc n) ms = ms
remove (pos n) [] = []
remove (pos n) (m ∷ ms) = if m == n then ms else m ∷ remove (pos n) ms

-- An answer that is not negative is a new descriptor.
abbrev pub opened : ℤ → List ℕ → List ℕ
opened (negsuc n) ms = ms
opened (pos n) ms = n ∷ ms

pub remove-opened : (z : ℤ) (fds : List ℕ) → remove z (opened z fds) ≡ fds
remove-opened (pos n) fds = ground arith
remove-opened (negsuc n) fds = refl

abbrev pub has_fd : ℤ → List ℕ → Bool
has_fd (negsuc n) ms = false
has_fd (pos n) [] = false
has_fd (pos n) (m ∷ ms) = m == n || has_fd (pos n) ms

pub remove-absent : (z : ℤ) (fds : List ℕ) → has_fd z fds ≡ false → remove z fds ≡ fds
remove-absent (negsuc n) fds h = refl
remove-absent (pos n) [] h = refl
remove-absent (pos n) (m ∷ ms) h = ground (arith, remove-absent (pos n) ms)

-- The descriptors that a log leaves open.
unfoldable pub open_fds : Net → List NetCall → List ℕ
open_fds net [] = []
open_fds net (open_unix ∷ cs) = opened (net.answer cs open_unix) (open_fds net cs)
open_fds net (open_tcp ∷ cs) = opened (net.answer cs open_tcp) (open_fds net cs)
open_fds net (control_socket name ∷ cs) =
    opened (net.answer cs (control_socket name)) (open_fds net cs)
open_fds net (accept s ∷ cs) = opened (net.answer cs (accept s)) (open_fds net cs)
open_fds net (close s ∷ cs) = remove s (open_fds net cs)
open_fds net (set_reuse_address s ∷ cs) = open_fds net cs
open_fds net (bind_unix s path ∷ cs) = open_fds net cs
open_fds net (bind_tcp s port ∷ cs) = open_fds net cs
open_fds net (listen s ∷ cs) = open_fds net cs
open_fds net (select_write s sec usec ∷ cs) = open_fds net cs
open_fds net (send s buffer ∷ cs) = open_fds net cs
open_fds net (shutdown s ∷ cs) = open_fds net cs

-- The answer 0 of the call that makes a socket is a descriptor, and is taken for a failure.
give_up-zero :
    (net : Net) (sock : ℤ) (cs : List NetCall)
    → is_zero sock ≡ true
    → give_up net sock cs ≡ (cs, pos 0)
unfolding give_up
give_up-zero net (pos n) cs z = ground arith
give_up-zero net (negsuc n) cs z = cc

is_zero-of_is_positive : (z : ℤ) → is_positive z ≡ true → is_zero z ≡ false
is_zero-of_is_positive (pos n) h = ground arith
is_zero-of_is_positive (negsuc n) h = refl

opened-of_is_zero : (z : ℤ) (fds : List ℕ) → is_zero z ≡ true → opened z fds ≡ 0 ∷ fds
opened-of_is_zero (pos n) fds h = ground arith
opened-of_is_zero (negsuc n) fds h = cc

is_positive-of_is_zero : (z : ℤ) → is_zero z ≡ true → is_positive z ≡ false
is_positive-of_is_zero (pos n) h = ground arith
is_positive-of_is_zero (negsuc n) h = refl

-- The result is positive and is the one new descriptor, and the last call made it listen; or it is
-- not positive and no descriptor is new.
abbrev pub OneOrNone : Net → List NetCall → List NetCall × ℤ → Type 0
OneOrNone net cs r =
    ((is_positive r.1 ≡ true)
      × (open_fds net r.0 ≡ pos_part r.1 ∷ open_fds net cs)
      × (rest : List NetCall) × (r.0 ≡ listen r.1 ∷ rest)
      × (net.answer rest (listen r.1) ≡ pos 0))
    ⊎ ((is_positive r.1 ≡ false) × (open_fds net r.0 ≡ open_fds net cs))

pub give_up-fds :
    (net : Net) (sock : ℤ) (cs : List NetCall) (fds : List ℕ)
    → is_zero sock ≡ false
    → open_fds net cs ≡ opened sock fds
    → (is_positive (give_up net sock cs).1 ≡ false) × (open_fds net (give_up net sock cs).0 ≡ fds)
unfolding give_up open_fds
give_up-fds net (pos n) cs fds z h = ground arith
give_up-fds net (negsuc n) cs fds z h = ground arith

is_zero-eq : (z : ℤ) → is_zero z ≡ true → z ≡ pos 0
is_zero-eq (pos n) h = ground arith
is_zero-eq (negsuc n) h = cc

opened-of_is_positive :
    (z : ℤ) (fds : List ℕ) → is_positive z ≡ true → opened z fds ≡ pos_part z ∷ fds
opened-of_is_positive (pos n) fds h = ground arith
opened-of_is_positive (negsuc n) fds h = cc

pub listened-OneOrNone :
    (net : Net) (sock : ℤ) (cs0 cs : List NetCall)
    → is_positive sock ≡ true
    → open_fds net cs ≡ opened sock (open_fds net cs0)
    → OneOrNone net cs0 (listened net sock cs)
unfolding listened open_fds
listened-OneOrNone net sock cs0 cs p h = elim (Bool-cases (is_zero (net.answer cs (listen sock)))) [
  | inl z ↦
      rw z (inl (p, h ∙ opened-of_is_positive sock (open_fds net cs0) p, cs, refl, is_zero-eq _ z))
  | inr n ↦ rw n (
      inr (
        give_up-fds net sock (listen sock ∷ cs) (open_fds net cs0) (is_zero-of_is_positive sock p)
          h))
]

-- The call that makes the socket answered `sock`: with 0, which is descriptor 0, the result is 0 and
-- descriptor 0 stays open; with another answer no descriptor but a positive result is new.
abbrev pub Leaves : Net → ℤ → List NetCall → List NetCall × ℤ → Type 0
Leaves net sock cs r =
    ((is_zero sock ≡ true) × (r.1 ≡ pos 0) × (open_fds net r.0 ≡ 0 ∷ open_fds net cs))
    ⊎ ((is_zero sock ≡ false) × OneOrNone net cs r)

give_up-Leaves :
    (net : Net) (sock : ℤ) (cs0 cs : List NetCall)
    → is_positive sock ≡ false
    → open_fds net cs ≡ opened sock (open_fds net cs0)
    → Leaves net sock cs0 (give_up net sock cs)
give_up-Leaves net sock cs0 cs n h = elim (Bool-cases (is_zero sock)) [
  | inr other ↦ inr (other, inr (give_up-fds net sock cs (open_fds net cs0) other h))
  | inl z ↦ rw (give_up-zero net sock cs z) (inl (z, refl, h ∙ opened-of_is_zero sock _ z))
]

-- `createTCPSocket`, for every port and every behaviour of the calls: where `socket` answers 0, which
-- is descriptor 0, it returns 0 and leaves that descriptor open; else it returns a positive descriptor
-- on which `listen` succeeded and which is the only new one, or it returns no positive number and every
-- descriptor that it opened is closed.
pub create_tcp_socket_clean :
    (net : Net) (port : ℕ) (cs : List NetCall)
    → Leaves net (net.answer cs open_tcp) cs (create_tcp_socket net port cs)
unfolding create_tcp_socket open_fds
create_tcp_socket_clean net port cs =
    let s = net.answer cs open_tcp in
    let c1 = open_tcp ∷ cs in
    let c3 = bind_tcp s (port % 2 ^ 16) ∷ set_reuse_address s ∷ c1 in
    elim (Bool-cases (is_positive s)) [
      | inr n ↦ rw n (give_up-Leaves net s cs c1 n refl)
      | inl p ↦
          let other = is_zero-of_is_positive s p in
          elim (Bool-cases
            (is_zero (net.answer (set_reuse_address s ∷ c1) (bind_tcp s (port % 2 ^ 16))))) [
              | inr n ↦
                  rw (p, n) (inr (other, inr (give_up-fds net s c3 (open_fds net cs) other refl)))
              | inl z ↦ rw (p, z) (inr (other, listened-OneOrNone net s cs c3 p refl))
            ]
    ]

-- `createAndroidSocket`, for every name and every behaviour of the calls: where Android's answer is 0,
-- which is descriptor 0, it returns 0 and leaves that descriptor open; else it returns a positive
-- descriptor on which `listen` succeeded and which is the only new one, or it returns no positive
-- number and every descriptor that it opened is closed.
pub create_android_socket_clean :
    (net : Net) (name : List ℕ) (cs : List NetCall)
    → Leaves net (net.answer cs (control_socket name)) cs (create_android_socket net name cs)
unfolding create_android_socket open_fds
create_android_socket_clean net name cs =
    let s = net.answer cs (control_socket name) in
    let c1 = control_socket name ∷ cs in
    elim (Bool-cases (is_positive s)) [
      | inr n ↦ rw n (give_up-Leaves net s cs c1 n refl)
      | inl p ↦ rw p (inr (is_zero-of_is_positive s p, listened-OneOrNone net s cs c1 p refl))
    ]

-- Where the socket is made and `bind` is refused, `createUnixSocket` closes the same descriptor
-- twice, and returns 0.
pub create_unix_socket_closes_twice :
    (net : Net) (name : List ℕ) (cs : List NetCall)
    → let s = net.answer cs open_unix in
      let bound = bind_unix s (abstract_path name) in
      is_positive s ≡ true
      → length name < 108
      → is_negative (net.answer (open_unix ∷ cs) bound) ≡ true
      → create_unix_socket net name cs ≡ some (close s ∷ close s ∷ bound ∷ open_unix ∷ cs, pos 0)
unfolding create_unix_socket give_up
create_unix_socket_closes_twice net name cs p l b =
    let (path, e, covered) = sun_path-short name (ground arith) in ground (arith, e, covered)

-- A result of `createUnixSocket` that writes past the end of `sun_path`.
abbrev pub overflows : Option (List NetCall × ℤ) → Bool
overflows r = is_none r

abbrev pub too_long : Made → Bool
too_long (threw path_too_long) = true
too_long (threw no_control_socket) = false
too_long (threw cannot_create) = false
too_long (threw cannot_bind) = false
too_long (threw cannot_listen) = false
too_long (made fd) = false

is_none-create_unix_socket :
    (net : Net) (name : List ℕ) (cs : List NetCall)
    → is_positive (net.answer cs open_unix) ≡ true
    → is_none (create_unix_socket net name cs) ≡ is_none (sun_path name)
unfolding create_unix_socket
is_none-create_unix_socket net name cs p = elim (Option-cases (sun_path name)) [
  | inl e ↦ ground (arith, e)
  | inr (path, e) ↦ ground (arith, e)
]

too_long-abs_unix_listener :
    (base : Base) (net : Net) (name : List ℕ) (cs : List NetCall)
    → too_long (abs_unix_listener base net name cs).1 ≡ leb 108 (length name)
unfolding abs_unix_listener throw listen_or_throw
too_long-abs_unix_listener base net name cs = ground arith

-- Once the socket is made, `createUnixSocket`, whose `strcpy` has no test before it, writes past the
-- end of `sun_path` with exactly those names that AbsUnixListener refuses as too long.
pub long_names :
    (base : Base) (net : Net) (name : List ℕ) (cs : List NetCall)
    → is_positive (net.answer cs open_unix) ≡ true
    → overflows (create_unix_socket net name cs) ≡ too_long (abs_unix_listener base net name cs).1
long_names base net name cs p =
    is_none-create_unix_socket net name cs p
    ∙ is_none-sun_path name
    ∙ sym (too_long-abs_unix_listener base net name cs)
