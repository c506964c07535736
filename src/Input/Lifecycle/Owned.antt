-- ===== src/Input/Lifecycle/Owned.antt =====
-- The device owns exactly the descriptor in `mFD`, through every operation of InputDevice.cpp.
use packages_services_vnc_fl.Prelude.{
  ℕ, zero, suc, ◌+◌, ◌≡◌, Bool, true, false, Option, none, some, List, [], ◌∷◌, arith,
  if◌then◌else◌, ◌∙◌, Bool-cases, ◌≢◌, Option-cases, inr, inl, ◌&&◌, not,
}
use packages_services_vnc_fl.Input.Kernel.{Kernel, Device, set_bit, ui_set_keybit}
use packages_services_vnc_fl.Input.Lifecycle.{
  Options, set_options, set_keys, configure, open_device, open_and_configure, err_ioctl, start,
  stop, reset, k_options, m_options, start_with,
}
use packages_services_vnc_fl.Input.Fds.{open_fds, remove}
use packages_services_vnc_fl.Input.Codes.{key_max}

abbrev pub is_some : Option ℕ → Bool
is_some none = false
is_some (some n) = true

abbrev pub fd_list : Option ℕ → List ℕ
fd_list none = []
fd_list (some n) = n ∷ []

-- No descriptor is lost and none is used after its close; an opened device has one.
pub record Owned (k : Kernel) (d : Device) : Type 0 where
  pub owns : open_fds k d.calls ≡ fd_list d.fd
  pub live : (d.opened && not (is_some d.fd)) ≡ false

-- What the steps of the set-up leave alone.
pub record SameHandle (k : Kernel) (d e : Device) : Type 0 where
  pub fds : open_fds k e.calls ≡ open_fds k d.calls
  pub fd : e.fd ≡ d.fd
  pub opened : e.opened ≡ d.opened
  pub touch : e.touch ≡ d.touch

SameHandle-trans :
    (k : Kernel) (d e f : Device) → SameHandle k d e → SameHandle k e f → SameHandle k d f
SameHandle-trans k d e f p q = record {
  fds = q.fds ∙ p.fds;
  fd = q.fd ∙ p.fd;
  opened = q.opened ∙ p.opened;
  touch = q.touch ∙ p.touch;
}

pub set_options-SameHandle :
    (k : Kernel) (os : Options) (d : Device) → SameHandle k d (set_options k os d).0
unfolding set_options open_fds
set_options-SameHandle k [] d = ground arith
set_options-SameHandle k ((r, bit) ∷ os) d =
    ground (arith, set_options-SameHandle k os (record d { calls = set_bit d.fd r bit ∷ d.calls }))

pub set_keys-SameHandle :
    (k : Kernel) (n idx : ℕ) (d : Device) → SameHandle k d (set_keys k n idx d).0
unfolding set_keys open_fds
set_keys-SameHandle k zero idx d = ground arith
set_keys-SameHandle k (suc n) idx d = ground (
  arith,
  set_keys-SameHandle k n (idx + 1) d,
  set_keys-SameHandle k n (idx + 1) (record d { calls = set_bit d.fd ui_set_keybit idx ∷ d.calls }),
)

pub configure-SameHandle :
    (k : Kernel) (width height : ℕ) (d : Device) → SameHandle k d (configure k width height d).0
unfolding configure open_fds
configure-SameHandle k width height d =
    let os = (if d.touch then k_options else m_options) in
    let d1 = (set_options k os d).0 in
    ground (arith, set_options-SameHandle k os d, set_keys-SameHandle k key_max 0 d1)

open_fds-open :
    (k : Kernel) (d : Device)
    → d.fd ≡ none
    → open_fds k d.calls ≡ []
    → let r = open_device k d in
      (open_fds k r.0.calls ≡ fd_list r.0.fd)
      × (r.0.opened ≡ d.opened)
      × (r.1 ≡ true → r.0.fd ≢ none)
      × (r.1 ≡ false → r.0.fd ≡ none)
unfolding open_device open_fds
open_fds-open k d f o = ground arith

remove_self : (n : ℕ) → remove n (n ∷ []) ≡ []
unfolding remove
remove_self n = ground arith

err_ioctl-Owned :
    (k : Kernel) (d : Device)
    → open_fds k d.calls ≡ fd_list d.fd
    → d.opened ≡ false
    → Owned k (err_ioctl k d).0
unfolding err_ioctl open_fds
err_ioctl-Owned k d o c = elim (Option-cases d.fd) [
  | inl e ↦ ground arith
  | inr (n, e) ↦ ground (arith, remove_self n)
]

-- `start` with no descriptor, and so with a device that is not open.
open_and_configure-Owned :
    (k : Kernel) (width height : ℕ) (d : Device)
    → Owned k d
    → d.fd ≡ none
    → Owned k (open_and_configure k width height d).0
unfolding open_and_configure
open_and_configure-Owned k width height d o f =
    let e = (open_device k d).0 in
    let c = (configure k width height e).0 in
    ground (
      arith,
      Bool-cases d.opened,
      open_fds-open k d,
      configure-SameHandle k width height e,
      err_ioctl-Owned k c,
    )

pub start-Owned :
    (k : Kernel) (width height : ℕ) (istouch relative : Bool) (d : Device)
    → Owned k d
    → Owned k (start k width height istouch relative d).0
unfolding start start_with reset
start-Owned k width height istouch relative d o =
    ground (arith, open_and_configure-Owned k width height (reset istouch relative d))

pub stop-Owned : (k : Kernel) (d : Device) → Owned k d → Owned k (stop k d).0
unfolding stop open_fds
stop-Owned k d o = elim (Option-cases d.fd) [
  | inl e ↦ ground arith
  | inr (n, e) ↦ ground (arith, remove_self n)
]
