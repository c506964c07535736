-- ===== src/Input/Taken/Histories.antt =====
-- Histories of a device that is not started again while it is open: what it writes is registered.
use packages_services_vnc_fl.Input.Taken.{Takes}
use packages_services_vnc_fl.Prelude.{
  Bool, true, false, List, [], ◌∷◌, ◌≡◌, ◌&&◌, not, subst, sym, arith, ℕ, none, refl, Bool-cases,
  ◌∙◌, inl, inr,
}
use packages_services_vnc_fl.Input.Kernel.{Kernel, Device}
use packages_services_vnc_fl.Input.Lifecycle.Bits.{all_registered}
use packages_services_vnc_fl.Input.Lifecycle.Owned.{is_some, Owned, stop-Owned, start-Owned}
use packages_services_vnc_fl.Input.Session.{
  stops, Op, starts, step, run, construct-Owned, reconfigures, key_event-Owned, keys,
  pointer_event-Owned, points,
}
use packages_services_vnc_fl.Input.Lifecycle.{stop, construct, reconfigure, start_async, start}
use packages_services_vnc_fl.Input.Keyboard.{key_event}
use packages_services_vnc_fl.Prelude.Int.{ℤ}
use packages_services_vnc_fl.Input.Lifecycle.Ready.{stop_closed}
use packages_services_vnc_fl.Input.Pointer.{pointer_event}
use packages_services_vnc_fl.Input.Taken.Starts.{stop-Writeless, start-Takes, start-Writeless}
use packages_services_vnc_fl.Input.Taken.Pointers.{pointer_event-Takes}
use packages_services_vnc_fl.Input.Taken.Keys.{key_event-Takes}

-- `start` is called with no descriptor only.
abbrev pub may_follow : Op → Device → Bool
may_follow (starts w h t r) d = not (is_some d.fd)
may_follow _ d = true

unfoldable pub no_restart : Kernel → List Op → Device → Bool
no_restart k [] d = true
no_restart k (op ∷ ops) d = may_follow op d && no_restart k ops (step k op d)

-- The invariant: all events written were registered, and so will those to come be.
pub record Heard (k : Kernel) (d : Device) : Type 0 where
  pub owned : Owned k d
  pub taken : all_registered d.calls ≡ true
  pub takes : d.opened ≡ true → Takes d.touch d

Takes-Heard : (k : Kernel) {t : Bool} {d : Device} → Owned k d → Takes t d → Heard k d
Takes-Heard k {t} {d} o s = record {
  owned = o;
  taken = s.taken;
  takes = λ _. subst (λ m. Takes m d) (sym s.mode) s;
}

closed-Heard :
    (k : Kernel) {d : Device}
    → Owned k d
    → all_registered d.calls ≡ true
    → d.opened ≡ false
    → Heard k d
closed-Heard k o t c = record { owned = o; taken = t; takes = λ h. cc }

pub start-Heard :
    (k : Kernel) (w h : ℕ) (t r : Bool) (d : Device)
    → d.fd ≡ none
    → Heard k d
    → Heard k (start k w h t r d).0
start-Heard k w h t r d f s =
    let o = start-Owned k w h t r d s.owned in
    let shut : d.opened ≡ false = ground (arith, s.owned.live) in
    elim (start-Takes k w h t r d f shut s.taken) [
      | inl live ↦ Takes-Heard k o live
      | inr closed ↦ closed-Heard k o (start-Writeless k w h t r d ∙ s.taken) closed
    ]

pub stop-Heard : (k : Kernel) (d : Device) → Heard k d → Heard k (stop k d).0
stop-Heard k d s =
    closed-Heard k (stop-Owned k d s.owned) (stop-Writeless k d ∙ s.taken) (stop_closed k d).1

pub reconfigure-Heard :
    (k : Kernel) (w h : ℕ) (t r : Bool) (d : Device)
    → Heard k d
    → Heard k (reconfigure k w h t r d).0
unfolding reconfigure start_async
reconfigure-Heard k w h t r d s =
    start-Heard k w h t r (stop k d).0 (stop_closed k d).0 (stop-Heard k d s)

pub key_event-Heard :
    (k : Kernel) (down : Bool) (keysym : ℕ) (d : Device)
    → Heard k d
    → Heard k (key_event k down keysym d).0
key_event-Heard k down keysym d s =
    let o = key_event-Owned k down keysym d s.owned in
    elim (Bool-cases d.opened) [
      | inl live ↦ Takes-Heard k o (key_event-Takes k down keysym (s.takes live))
      | inr shut ↦ unfold key_event in simp shut s
    ]

pub pointer_event-Heard :
    (k : Kernel) (mask : ℕ) (x y : ℤ) (d : Device)
    → Heard k d
    → Heard k (pointer_event k mask x y d).0
pointer_event-Heard k mask x y d s =
    let o = pointer_event-Owned k mask x y d s.owned in
    elim (Bool-cases d.opened) [
      | inl live ↦ Takes-Heard k o (pointer_event-Takes k mask x y (s.takes live))
      | inr shut ↦ unfold pointer_event in simp shut s
    ]

pub construct-Heard :
    (k : Kernel) (fresh : Device) → fresh.opened ≡ false → Heard k (construct fresh)
unfolding construct all_registered
construct-Heard k fresh h = closed-Heard k (construct-Owned k fresh h) refl h

step-Heard :
    (k : Kernel) (op : Op) (d : Device) → may_follow op d ≡ true → Heard k d → Heard k (step k op d)
unfolding step
step-Heard k (starts w h t r) d m s = start-Heard k w h t r d (ground arith) s
step-Heard k (reconfigures w h t r) d m s = reconfigure-Heard k w h t r d s
step-Heard k stops d m s = stop-Heard k d s
step-Heard k (keys down keysym) d m s = key_event-Heard k down keysym d s
step-Heard k (points mask x y) d m s = pointer_event-Heard k mask x y d s

run-Heard :
    (k : Kernel) (ops : List Op) (d : Device)
    → no_restart k ops d ≡ true
    → Heard k d
    → Heard k (run k ops d)
unfolding run no_restart
run-Heard k [] d m s = s
run-Heard k (op ∷ ops) d m s =
    run-Heard k ops (step k op d) (ground arith) (step-Heard k op d (ground arith) s)

-- For every kernel and every history of a device whose `mOpened` happens to be false when it is
-- constructed, and that is never started while it has a descriptor: each event that any keyEvent or
-- pointerEvent wrote was registered, in type and code, since the device was opened.
pub run-all_registered :
    (k : Kernel) (ops : List Op) (fresh : Device)
    → fresh.opened ≡ false
    → no_restart k ops (construct fresh) ≡ true
    → all_registered (run k ops (construct fresh)).calls ≡ true
run-all_registered k ops fresh h m =
    (run-Heard k ops (construct fresh) m (construct-Heard k fresh h)).taken
