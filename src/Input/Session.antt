-- ===== src/Input/Session.antt =====
-- Histories of an InputDevice: any calls of its public methods, one after the other (each holds
-- `mLock` for its whole body, so that calls from several threads take turns).
use packages_services_vnc_fl.Input.Kernel.{Kernel, Device}
use packages_services_vnc_fl.Input.Lifecycle.{
  start, stop, reconfigure, construct, destroy, start_async,
}
use packages_services_vnc_fl.Input.Lifecycle.Owned.{Owned, start-Owned, stop-Owned, fd_list}
use packages_services_vnc_fl.Input.Fds.{open_fds}
use packages_services_vnc_fl.Input.Keyboard.{key_event}
use packages_services_vnc_fl.Prelude.{
  List, ◌≡◌, ℕ, ◌∷◌, Bool, false, [], Bool-cases, refl, inr, ◌∙◌, inl, arith, ap, sym,
}
use packages_services_vnc_fl.Input.Pointer.{
  pointer_event, right_button, track, middle_button, left_button, wheel,
}
use packages_services_vnc_fl.Prelude.Int.{ℤ}
use packages_services_vnc_fl.Input.Inject.{inject, press, release}
use packages_services_vnc_fl.Input.Keyboard.Refines.{key_event-Writes}
use packages_services_vnc_fl.Input.Lifecycle.Ready.{stop_closed}

pub data Op : Type 0 where
  starts reconfigures : ℕ → ℕ → Bool → Bool → Op
  stops : Op
  keys : Bool → ℕ → Op
  points : ℕ → ℤ → ℤ → Op

unfoldable pub step : Kernel → Op → Device → Device
step k (starts w h t r) d = (start k w h t r d).0
step k (reconfigures w h t r) d = (reconfigure k w h t r d).0
step k stops d = (stop k d).0
step k (keys down keysym) d = (key_event k down keysym d).0
step k (points mask x y) d = (pointer_event k mask x y d).0

unfoldable pub run : Kernel → List Op → Device → Device
unfolding step
run k [] d = d
run k (op ∷ ops) d = run k ops (step k op d)

reconfigure-Owned :
    (k : Kernel) (w h : ℕ) (t r : Bool) (d : Device)
    → Owned k d
    → Owned k (reconfigure k w h t r d).0
unfolding reconfigure start_async
reconfigure-Owned k w h t r d o = start-Owned k w h t r (stop k d).0 (stop-Owned k d o)

pub key_event-Owned :
    (k : Kernel) (down : Bool) (ks : ℕ) (d : Device) → Owned k d → Owned k (key_event k down ks d).0
unfolding key_event
key_event-Owned k down ks d o = elim (Bool-cases d.opened) [
  | inl y ↦
      let w = key_event-Writes k down ks d y in
      record {
        owns = w.fds k ∙ o.owns ∙ ap (λ (e : Device). fd_list e.fd) (sym w.framed);
        live = ground (
          arith,
          o.live,
          ap (λ (e : Device). e.fd) w.framed,
          ap (λ (e : Device). e.opened) w.framed,
        );
      }
  | inr n ↦ simp n o
]

-- A block of `pointerEvent` leaves the descriptors, and `opened`, alone.
abbrev SameFds : Kernel → Device → Device → Type 0
SameFds k d e = (open_fds k e.calls ≡ open_fds k d.calls) × (e.fd ≡ d.fd) × (e.opened ≡ d.opened)

module _ (k : Kernel) (mask : ℕ) (x y : ℤ) (d : Device) where
  track-SameFds : SameFds k d (track k x y d).0
  unfolding track inject open_fds
  track-SameFds = ground arith

  left_button-SameFds : SameFds k d (left_button k mask x y d).0
  unfolding left_button inject open_fds
  left_button-SameFds = ground arith

  right_button-SameFds : SameFds k d (right_button k mask x y d).0
  unfolding right_button inject press release open_fds
  right_button-SameFds = ground arith

  middle_button-SameFds : SameFds k d (middle_button k mask x y d).0
  unfolding middle_button inject press release open_fds
  middle_button-SameFds = ground arith

  wheel-SameFds : SameFds k d (wheel k mask d).0
  unfolding wheel inject open_fds
  wheel-SameFds = ground arith

pub pointer_event-Owned :
    (k : Kernel) (mask : ℕ) (x y : ℤ) (d : Device)
    → Owned k d
    → Owned k (pointer_event k mask x y d).0
unfolding pointer_event
pointer_event-Owned k mask x y d o =
    let t = (track k x y d).0 in
    let l = (left_button k mask x y t).0 in
    let r = (right_button k mask x y l).0 in
    let m = (middle_button k mask x y r).0 in
    ground (
      arith,
      track-SameFds k mask x y d,
      left_button-SameFds k mask x y t,
      right_button-SameFds k mask x y l,
      middle_button-SameFds k mask x y r,
      wheel-SameFds k mask x y m,
    )

step-Owned : (k : Kernel) (op : Op) (d : Device) → Owned k d → Owned k (step k op d)
unfolding step
step-Owned k (starts w h t r) d o = start-Owned k w h t r d o
step-Owned k (reconfigures w h t r) d o = reconfigure-Owned k w h t r d o
step-Owned k stops d o = stop-Owned k d o
step-Owned k (keys down ks) d o = key_event-Owned k down ks d o
step-Owned k (points mask x y) d o = pointer_event-Owned k mask x y d o

run-Owned_from : (k : Kernel) (ops : List Op) (d : Device) → Owned k d → Owned k (run k ops d)
unfolding run
run-Owned_from k [] d o = o
run-Owned_from k (op ∷ ops) d o = run-Owned_from k ops (step k op d) (step-Owned k op d o)

pub construct-Owned :
    (k : Kernel) (fresh : Device) → fresh.opened ≡ false → Owned k (construct fresh)
unfolding construct open_fds
construct-Owned k fresh h = record { owns = refl; live = rw h }

-- For every kernel and every history of a device whose `mOpened` happens to be false when it is
-- constructed: the descriptors of /dev/uinput that are open are exactly the one in `mFD`, if any, and
-- a device that is opened has one.
pub run-Owned :
    (k : Kernel) (ops : List Op) (fresh : Device)
    → fresh.opened ≡ false
    → Owned k (run k ops (construct fresh))
run-Owned k ops fresh h = run-Owned_from k ops (construct fresh) (construct-Owned k fresh h)

-- And after the destructor none is open.
pub destroy_closes_all :
    (k : Kernel) (ops : List Op) (fresh : Device)
    → fresh.opened ≡ false
    → open_fds k (destroy k (run k ops (construct fresh))).0.calls ≡ []
unfolding destroy
destroy_closes_all k ops fresh h =
    let d = run k ops (construct fresh) in
    (stop-Owned k d (run-Owned k ops fresh h)).owns ∙ ap fd_list (stop_closed k d).0
