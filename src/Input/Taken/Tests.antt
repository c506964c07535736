-- ===== src/Input/Taken/Tests.antt =====
-- Runs of a device whose kernel takes every call.
use packages_services_vnc_fl.Input.Taken.{Takes}
use packages_services_vnc_fl.Input.Taken.Starts.{start-Takes}
use packages_services_vnc_fl.Input.Taken.Restart.{restart_drops}
use packages_services_vnc_fl.Input.Taken.Histories.{no_restart, run-all_registered}
use packages_services_vnc_fl.Desktop.Samples.{willing, blank}
use packages_services_vnc_fl.Input.Kernel.{Device, Status, no_init}
use packages_services_vnc_fl.Input.Lifecycle.{
  start, construct, start_with, reset, open_and_configure, open_device, configure, set_options,
  set_keys, k_options, m_options, setup_of,
}
use packages_services_vnc_fl.Input.Lifecycle.Bits.{all_registered}
use packages_services_vnc_fl.Input.Pointer.{pointer_event}
use packages_services_vnc_fl.Input.Session.{
  Op, starts, stops, keys, points, reconfigures, step, run,
}
use packages_services_vnc_fl.Prelude.{List, [], ◌∷◌, true, false, ◌≡◌, refl, inl, inr, some}
use packages_services_vnc_fl.Prelude.Int.{pos}

-- A mouse is opened, used and made a touchscreen, which is used.
abbrev changes_mode : List Op
changes_mode =
    starts 640 480 false false
    ∷ points 1 (pos 3) (pos 4)
    ∷ keys true b'A'
    ∷ reconfigures 640 480 true false
    ∷ points 5 (pos 3) (pos 4)
    ∷ stops
    ∷ []

changes_mode_rules : no_restart willing changes_mode (construct blank) ≡ true
unfolding no_restart construct step
changes_mode_rules = refl

run-all_registered_test : all_registered (run willing changes_mode (construct blank)).calls ≡ true
run-all_registered_test = run-all_registered willing changes_mode blank refl changes_mode_rules

abbrev opened_mouse : Device
opened_mouse = (start willing 640 480 false false blank).0

opened_mouse_live : opened_mouse.opened ≡ true
unfolding start start_with reset open_and_configure open_device configure set_options set_keys
    k_options m_options setup_of
opened_mouse_live = refl

opened_mouse_fd : opened_mouse.fd ≡ some 3
unfolding start start_with reset open_and_configure open_device configure set_options set_keys
    k_options m_options setup_of
opened_mouse_fd = refl

opened_mouse-Takes : Takes false opened_mouse
unfolding all_registered
opened_mouse-Takes = elim (start-Takes willing 640 480 false false blank refl refl refl) [
  | inl takes ↦ takes
  | inr shut ↦ cc (opened_mouse_live, shut)
]

abbrev started_again : Device × Status
started_again = start willing 640 480 true false opened_mouse

restart_drops_test :
    (started_again.1 ≡ no_init)
    × (all_registered (pointer_event willing 1 (pos 3) (pos 4) started_again.0).0.calls ≡ false)
restart_drops_test =
    restart_drops willing 640 480 false 1 (pos 3) (pos 4) opened_mouse 3 opened_mouse-Takes
      opened_mouse_fd refl
