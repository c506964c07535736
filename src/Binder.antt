-- ===== src/Binder.antt =====
-- src/vncflinger/VNCService.h: the binder service in front of a VNCFlinger, the class of a header that
-- the repository does not have. Its methods are the parameter `VncFlinger`; no file of the repository
-- includes VNCService.h.
mod Tests
use packages_services_vnc_fl.Prelude.{
  ℕ, Bool, true, false, not, List, ◌==◌, ◌≡◌, refl, arith, if◌then◌else◌,
}
use packages_services_vnc_fl.Prelude.Int.{ℤ, pos, negsuc}

-- The methods of `VNCFlinger` return a `status_t`; `string8` is the conversion of a String16.
pub record VncFlinger (S : Type 0) : Type 0 where
  pub start : S → S × ℤ
  pub stop : S → S × ℤ
  pub set_port : ℤ → S → S × ℤ
  pub set_v4_address : List ℕ → S → S × ℤ
  pub set_v6_address : List ℕ → S → S × ℤ
  pub set_password : List ℕ → S → S × ℤ
  pub clear_password : S → S × ℤ
  pub string8 : List ℕ → List ℕ

-- `status == NO_ERROR`, and a status as a bool.
abbrev pub is_no_error : ℤ → Bool
is_no_error (pos n) = n == 0
is_no_error (negsuc n) = false

abbrev pub to_bool : ℤ → Bool
to_bool z = not (is_no_error z)

-- The calls of the binder interface.
pub data Request : Type 0 where
  asks_start asks_stop asks_clear_password : Request
  asks_port : ℤ → Request
  asks_v4_address asks_v6_address asks_password : List ℕ → Request

module _ {S : Type 0} (v : VncFlinger S) where
  -- What a call makes of the VNCFlinger, and what it writes to `*ret`; the binder's status is always ok.
  unfoldable pub answer : Request → S → S × Bool
  answer asks_start s = let (s', status) = v.start s in (s', to_bool status)
  answer asks_stop s = let (s', status) = v.stop s in (s', is_no_error status)
  answer (asks_port port) s = let (s', status) = v.set_port port s in (s', is_no_error status)
  answer (asks_v4_address a) s =
      let (s', status) = v.set_v4_address (v.string8 a) s in (s', is_no_error status)
  answer (asks_v6_address a) s =
      let (s', status) = v.set_v6_address (v.string8 a) s in (s', is_no_error status)
  answer (asks_password a) s =
      let (s', status) = v.set_password (v.string8 a) s in (s', is_no_error status)
  answer asks_clear_password s = let (s', status) = v.clear_password s in (s', is_no_error status)
