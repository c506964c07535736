-- ===== src/Sockets/Net.antt =====
-- The socket calls of the C library, which are not part of the program: `Net` is a parameter that
-- gives each call its result from the calls made before it. The log has the newest call first.
use packages_services_vnc_fl.Prelude.{ℕ, List, ◌∷◌}
use packages_services_vnc_fl.Prelude.Int.{ℤ}

-- `sun_path` has 108 bytes; an address of family AF_UNIX starts with two bytes of family.
abbrev pub sun_path_size : ℕ
sun_path_size = 108

-- `bind_unix` has the bytes of `sun_path` that the length given to `bind` covers.
pub data NetCall : Type 0 where
  open_unix open_tcp : NetCall
  control_socket : List ℕ → NetCall
  set_reuse_address : ℤ → NetCall
  bind_unix : ℤ → List ℕ → NetCall
  bind_tcp : ℤ → ℕ → NetCall
  listen : ℤ → NetCall
  accept : ℤ → NetCall
  select_write : ℤ → ℕ → ℕ → NetCall
  send : ℤ → List ℕ → NetCall
  shutdown : ℤ → NetCall
  close : ℤ → NetCall

pub record Net : Type 0 where
  pub answer : List NetCall → NetCall → ℤ

abbrev pub M : Type 0 → Type 0
M A = List NetCall → List NetCall × A

abbrev pub pure : {A : Type 0} → A → M A
pure a cs = (cs, a)

infixl 5 ◌>>=◌ ◌>>◌
abbrev pub ◌>>=◌ : {A B : Type 0} → M A → (A → M B) → M B
◌>>=◌ m f cs = f (m cs).1 (m cs).0

abbrev pub ◌>>◌ : {A B : Type 0} → M A → M B → M B
◌>>◌ m k cs = k (m cs).0

abbrev pub call : Net → NetCall → M ℤ
call net c cs = (c ∷ cs, net.answer cs c)
