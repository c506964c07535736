-- ===== src/Sockets/Listeners.antt =====
-- The listeners of src/vncflinger/AndroidSocket.cpp from their making to their end. The destructor of
-- the network library's SocketListener runs after theirs and is a parameter.
use packages_services_vnc_fl.Sockets.Net.{Net, NetCall, M, ◌>>◌, call, close, open_unix, bind_unix}
use packages_services_vnc_fl.Sockets.Create.{
  abs_unix_listener, abstract_path, Made, made, threw, path_too_long, cannot_create, cannot_bind,
  Base, throw, cannot_listen, listen_or_throw, no_control_socket,
}
use packages_services_vnc_fl.Sockets.Closed.{
  open_fds, opened, remove, has_fd, remove-absent, remove-opened,
}
use packages_services_vnc_fl.Prelude.{
  ℕ, List, ◌∷◌, ◌≡◌, false, true, Bool-cases, inl, inr, arith, refl, leb, length, ◌∙◌, subst, sym,
  Bool, ap, if◌then◌else◌,
}
use packages_services_vnc_fl.Prelude.Int.{ℤ, pos, negsuc, is_negative}

-- `createSocket` of both.
pub data Connection : Type 0 where
  unix_socket : ℤ → Connection

unfoldable pub create_socket : ℤ → Connection
create_socket fd = unix_socket fd

-- `getMyPort` of both.
unfoldable pub get_my_port : ℕ
get_my_port = 0

unfoldable pub destroy_android_listener : Base → ℤ → M (Unit {0})
destroy_android_listener base fd = base.destroy fd

unfoldable pub destroy_abs_unix_listener : Base → Net → ℤ → M (Unit {0})
destroy_abs_unix_listener base net fd = do call net (close fd); base.destroy fd

opened-of_is_negative : (z : ℤ) (fds : List ℕ) → is_negative z ≡ true → opened z fds ≡ fds
opened-of_is_negative (pos n) fds h = ground arith
opened-of_is_negative (negsuc n) fds h = refl

-- What a base class does to the open descriptors: its `listen` leaves them as they are, and its
-- destructor closes the listener's descriptor, or leaves it.
pub record Closes (closes : Bool) (base : Base) (net : Net) : Type 0 where
  pub listens :
      (fd : ℤ) (log : List NetCall) → open_fds net (base.listens fd log).0 ≡ open_fds net log
  pub destroy :
      (fd : ℤ) (log : List NetCall)
      → open_fds net (base.destroy fd log).0
        ≡ (if closes then remove fd (open_fds net log) else open_fds net log)

-- What is open after a constructor that may throw, and after the destructor: with a `listen` that
-- throws, the descriptor is closed by the base class or not at all.
abbrev pub OneOrThrown : Bool → Base → ℤ → Net → List NetCall → List NetCall × Made → Type 0
OneOrThrown closes base sock net cs (cs', made fd) =
    (fd ≡ sock)
    × (open_fds net cs' ≡ opened sock (open_fds net cs))
    × (open_fds net (destroy_abs_unix_listener base net fd cs').0 ≡ open_fds net cs)
OneOrThrown closes base sock net cs (cs', threw cannot_listen) =
    open_fds net cs' ≡ (if closes then open_fds net cs else opened sock (open_fds net cs))
OneOrThrown closes base sock net cs (cs', threw no_control_socket) =
    open_fds net cs' ≡ open_fds net cs
OneOrThrown closes base sock net cs (cs', threw path_too_long) = open_fds net cs' ≡ open_fds net cs
OneOrThrown closes base sock net cs (cs', threw cannot_create) = open_fds net cs' ≡ open_fds net cs
OneOrThrown closes base sock net cs (cs', threw cannot_bind) = open_fds net cs' ≡ open_fds net cs

module _ (closes : Bool) (base : Base) (net : Net) (law : Closes closes base net) where
  destroy-absent :
      (fd : ℤ) (log : List NetCall)
      → has_fd fd (open_fds net log) ≡ false
      → open_fds net (base.destroy fd log).0 ≡ open_fds net log
  destroy-absent fd log h =
      ground (arith, law.destroy fd log, remove-absent fd (open_fds net log) h)

  -- The destructor after the constructor.
  destroyed :
      (fd : ℤ) (cs cs' : List NetCall)
      → has_fd fd (open_fds net cs) ≡ false
      → open_fds net cs' ≡ opened fd (open_fds net cs)
      → open_fds net (destroy_abs_unix_listener base net fd cs').0 ≡ open_fds net cs
  unfolding destroy_abs_unix_listener open_fds
  destroyed fd cs cs' absent h =
      let closed : open_fds net (close fd ∷ cs') ≡ open_fds net cs =
        ap (remove fd) h ∙ remove-opened fd (open_fds net cs) in
      destroy-absent fd (close fd ∷ cs') (ap (has_fd fd) closed ∙ absent) ∙ closed

  listen_or_throw-OneOrThrown :
      (fd : ℤ) (cs cs' : List NetCall)
      → has_fd fd (open_fds net cs) ≡ false
      → open_fds net cs' ≡ opened fd (open_fds net cs)
      → OneOrThrown closes base fd net cs (listen_or_throw base fd cs')
  unfolding listen_or_throw throw
  listen_or_throw-OneOrThrown fd cs cs' absent h =
      let l = (base.listens fd cs').0 in
      let same = law.listens fd cs' in
      elim (Bool-cases (base.listens fd cs').1) [
        | inl done ↦ rw done (refl, same ∙ h, destroyed fd cs l absent (same ∙ h))
        | inr thrown ↦
            rw thrown
              (ground (arith, law.destroy fd l, same, h, remove-opened fd (open_fds net cs)))
      ]

-- For every name and every behaviour of the calls in which `socket` answers no descriptor that is
-- open, with a base class whose `listen` may throw and opens and closes nothing, and whose destructor,
-- which also runs when the constructor throws, closes the object's descriptor or leaves it, and which
-- starts with none that is open: the constructor of AbsUnixListener keeps the one descriptor that it
-- opened, and after its destructor exactly those are open that were open before it; or it throws and
-- leaves none of its own open, unless it is `listen` that throws and the base class closes nothing,
-- when the new descriptor stays open.
pub abs_unix_listener_clean :
    (closes : Bool) (base : Base) (net : Net) (name : List ℕ) (cs : List NetCall)
    → Closes closes base net
    → has_fd base.initial (open_fds net cs) ≡ false
    → has_fd (net.answer cs open_unix) (open_fds net cs) ≡ false
    → OneOrThrown closes base (net.answer cs open_unix) net cs (abs_unix_listener base net name cs)
unfolding abs_unix_listener open_fds throw
abs_unix_listener_clean closes base net name cs law none_yet absent =
    let fd = net.answer cs open_unix in
    let bound = bind_unix fd (abstract_path name) in
    let opening = remove-opened fd (open_fds net cs) in
    let log = bound ∷ open_unix ∷ cs in
    let holds : List NetCall × Made → Type 0 = OneOrThrown closes base fd net cs in
    let unlike = destroy-absent closes base net law in
    elim (Bool-cases (leb 108 (length name))) [
      | inl long ↦
          let r : abs_unix_listener base net name cs
              ≡ ((base.destroy base.initial cs).0, threw path_too_long) =
            ground arith in
          subst holds (sym r) (unlike base.initial cs none_yet)
      | inr short ↦ elim (Bool-cases (is_negative fd)) [
        | inl refused ↦
            let r : abs_unix_listener base net name cs
                ≡ ((base.destroy fd (open_unix ∷ cs)).0, threw cannot_create) =
              ground arith in
            let none_opened = opened-of_is_negative fd (open_fds net cs) refused in
            subst holds (sym r)
              (unlike fd (open_unix ∷ cs) (ap (has_fd fd) none_opened ∙ absent) ∙ none_opened)
        | inr there ↦ elim (Bool-cases (is_negative (net.answer (open_unix ∷ cs) bound))) [
          | inl unbound ↦
              let r : abs_unix_listener base net name cs
                  ≡ ((base.destroy fd (close fd ∷ log)).0, threw cannot_bind) =
                ground arith in
              subst holds (sym r)
                (unlike fd (close fd ∷ log) (ap (has_fd fd) opening ∙ absent) ∙ opening)
          | inr done ↦
              let r : abs_unix_listener base net name cs ≡ listen_or_throw base fd log =
                ground arith in
              subst holds (sym r)
                (listen_or_throw-OneOrThrown closes base net law fd cs log absent refl)
        ]
      ]
    ]
