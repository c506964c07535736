-- ===== src/Sockets/Create.antt =====
-- How listening sockets are made: `createUnixSocket`, `createAndroidSocket`, `createTCPSocket`,
-- `closeSocket`, `acceptSocket` (socketmanager.cpp), and the constructors of AndroidListener and
-- AbsUnixListener (AndroidSocket.cpp).
use packages_services_vnc_fl.Prelude.{
  ℕ, List, Option, ◌∷◌, if◌then◌else◌, leb, [], not, length, some, ◌%◌, ◌^◌, none, take, suc, Bool,
  zero,
}
use packages_services_vnc_fl.Sockets.Net.{
  Net, NetCall, M, pure, ◌>>=◌, ◌>>◌, call, sun_path_size, control_socket, open_tcp, accept,
  shutdown, close, open_unix, listen, set_reuse_address, bind_unix, bind_tcp,
}
use packages_services_vnc_fl.Prelude.Int.{ℤ, pos, is_negative, is_zero, is_positive}

-- `addr.sun_path[0] = '\0'`: the first byte of the name is lost.
unfoldable pub abstract_path : List ℕ → List ℕ
abstract_path [] = []
abstract_path (c ∷ cs) = 0 ∷ cs

-- `if (!success && sock > 0) { close(sock); sock = 0; }`
unfoldable pub give_up : Net → ℤ → M ℤ
give_up net sock = if is_positive sock then (do call net (close sock); pure (pos 0)) else pure sock

-- The last steps that the three makers share.
unfoldable pub listened : Net → ℤ → M ℤ
listened net sock = do
  listening ← call net (listen sock)
  if is_zero listening then pure sock else give_up net sock

-- `strcpy` into a buffer, byte after byte and then the NUL: `none` is a write past the buffer's end.
unfoldable pub strcpy : List ℕ → List ℕ → Option (List ℕ)
strcpy [] text = none
strcpy (b ∷ buffer) [] = some (0 ∷ buffer)
strcpy (b ∷ buffer) (c ∷ text) = elim (strcpy buffer text) [
  | none ↦ none
  | some rest ↦ some (c ∷ rest)
]

unfoldable pub zeros : ℕ → List ℕ
zeros zero = []
zeros (suc n) = 0 ∷ zeros n

-- `memset(&addr, 0, sizeof(addr)); strcpy(addr.sun_path, name);`
unfoldable pub sun_path : List ℕ → Option (List ℕ)
sun_path name = strcpy (zeros sun_path_size) name

-- `none` is the write past the end of `sun_path`.
unfoldable pub create_unix_socket : Net → List ℕ → List NetCall → Option (List NetCall × ℤ)
create_unix_socket net name cs =
    let (cs', sock) = call net open_unix cs in
    if not (is_positive sock) then some (give_up net sock cs') else elim (sun_path name) [
      | none ↦ none
      | some path ↦ some (
          (do
            result ← call net (bind_unix sock (take (length name) (abstract_path path)))
            if is_negative result
                then (do call net (close sock); give_up net sock)
                else listened net sock)
            cs')
    ]

unfoldable pub create_android_socket : Net → List ℕ → M ℤ
create_android_socket net name = do
  sock ← call net (control_socket name)
  if not (is_positive sock) then give_up net sock else listened net sock

-- A refused `setsockopt` is only logged. `htons(port)` keeps 16 bits.
unfoldable pub create_tcp_socket : Net → ℕ → M ℤ
create_tcp_socket net port = do
  sock ← call net open_tcp
  if not (is_positive sock) then give_up net sock else (do
    call net (set_reuse_address sock)
    bound ← call net (bind_tcp sock (port % 2 ^ 16))
    if not (is_zero bound) then give_up net sock else listened net sock)

unfoldable pub close_socket : Net → ℤ → M (Unit {0})
close_socket net sock =
    if is_positive sock
    then (do call net (shutdown sock); call net (close sock); pure tt)
    else pure tt

unfoldable pub accept_socket : Net → ℤ → M ℤ
accept_socket net sock = call net (accept sock)

-- A `network::SocketException`.
pub data Thrown : Type 0 where
  no_control_socket path_too_long cannot_create cannot_bind cannot_listen : Thrown

pub data Made : Type 0 where
  made : ℤ → Made
  threw : Thrown → Made

-- The base class, of the network library: the descriptor that it starts with, its `listen`, which
-- throws where the result is `false`, and its destructor, which also runs when a constructor of a
-- derived class throws, with the descriptor that the object has then.
pub record Base : Type 0 where
  pub initial : ℤ
  pub listens : ℤ → M Bool
  pub destroy : ℤ → M (Unit {0})

-- A constructor that throws with this descriptor in `fd`.
unfoldable pub throw : Base → ℤ → Thrown → M Made
throw base fd t = do base.destroy fd; pure (threw t)

unfoldable pub listen_or_throw : Base → ℤ → M Made
listen_or_throw base fd = do
  done ← base.listens fd
  if done then pure (made fd) else throw base fd cannot_listen

unfoldable pub android_listener : Base → Net → List ℕ → M Made
android_listener base net path = do
  fd ← call net (control_socket path)
  if is_negative fd then throw base fd no_control_socket else listen_or_throw base fd

-- A name that passes the test of its length is copied within `sun_path` (`sun_path-short`), and the
-- first `strlen(name)` bytes of it are given to `bind`.
unfoldable pub abs_unix_listener : Base → Net → List ℕ → M Made
abs_unix_listener base net name =
    if leb sun_path_size (length name) then throw base base.initial path_too_long else (do
      fd ← call net open_unix
      if is_negative fd then throw base fd cannot_create else (do
        result ← call net (bind_unix fd (abstract_path name))
        if is_negative result
            then (do call net (close fd); throw base fd cannot_bind)
            else listen_or_throw base fd))
