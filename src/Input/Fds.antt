-- ===== src/Input/Fds.antt =====
-- Which descriptors of /dev/uinput are open, read off a log of kernel calls.
use packages_services_vnc_fl.Input.Kernel.{
  Call, Kernel, close, set_bit, write_setup, dev_create, dev_destroy, write_event, open_uinput,
}
use packages_services_vnc_fl.Prelude.{List, ℕ, ◌∷◌, if◌then◌else◌, ◌==◌, [], none, some}

unfoldable pub remove : ℕ → List ℕ → List ℕ
remove n [] = []
remove n (m ∷ ms) = if m == n then ms else m ∷ remove n ms

-- The kernel's answer to each open is what it was in that history; a close of no descriptor fails.
unfoldable pub open_fds : Kernel → List Call → List ℕ
open_fds k [] = []
open_fds k (open_uinput ∷ cs) = elim (k.opens cs) [
  | none ↦ open_fds k cs
  | some n ↦ n ∷ open_fds k cs
]
open_fds k (close none ∷ cs) = open_fds k cs
open_fds k (close (some n) ∷ cs) = remove n (open_fds k cs)
open_fds k (set_bit fd r n ∷ cs) = open_fds k cs
open_fds k (write_setup fd u ∷ cs) = open_fds k cs
open_fds k (dev_create fd ∷ cs) = open_fds k cs
open_fds k (dev_destroy fd ∷ cs) = open_fds k cs
open_fds k (write_event fd e ∷ cs) = open_fds k cs
