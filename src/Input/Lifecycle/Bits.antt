-- ===== src/Input/Lifecycle/Bits.antt =====
-- What a log of the calls of InputDevice.cpp has registered by `UI_SET_…` requests since the device was
-- opened: types of events, and for each type but EV_SYN codes. uinput documents that it passes on the
-- events of registered types and codes.
use packages_services_vnc_fl.Prelude.{
  ℕ, Bool, true, false, List, [], ◌∷◌, ◌==◌, ◌&&◌, ◌||◌, if◌then◌else◌,
}
use packages_services_vnc_fl.Input.Codes.{ev_syn, ev_key, ev_rel, ev_abs}
use packages_services_vnc_fl.Input.Kernel.{
  Call, InputEvent, BitRequest, ui_set_evbit, ui_set_keybit, ui_set_relbit, ui_set_absbit,
  ui_set_propbit, set_bit, write_setup, dev_create, dev_destroy, close, write_event, open_uinput,
}

abbrev pub rank : BitRequest → ℕ
rank ui_set_evbit = 0
rank ui_set_keybit = 1
rank ui_set_relbit = 2
rank ui_set_absbit = 3
rank ui_set_propbit = 4

-- A bit that the log has asked for since the device was opened.
unfoldable pub has_bit : BitRequest → ℕ → List Call → Bool
has_bit r n [] = false
has_bit r n (open_uinput ∷ cs) = false
has_bit r n (set_bit fd q m ∷ cs) = (rank q == rank r && m == n) || has_bit r n cs
has_bit r n (write_setup fd u ∷ cs) = has_bit r n cs
has_bit r n (dev_create fd ∷ cs) = has_bit r n cs
has_bit r n (dev_destroy fd ∷ cs) = has_bit r n cs
has_bit r n (close fd ∷ cs) = has_bit r n cs
has_bit r n (write_event fd e ∷ cs) = has_bit r n cs

unfoldable pub is_registered : InputEvent → List Call → Bool
is_registered e cs =
    has_bit ui_set_evbit e.kind cs
    && (if e.kind == ev_key
        then has_bit ui_set_keybit e.code cs
        else if e.kind == ev_rel
        then has_bit ui_set_relbit e.code cs
        else if e.kind == ev_abs
        then has_bit ui_set_absbit e.code cs
        else e.kind == ev_syn)

-- Each event of the log was registered when it was written.
unfoldable pub all_registered : List Call → Bool
unfolding is_registered
all_registered [] = true
all_registered (open_uinput ∷ cs) = all_registered cs
all_registered (set_bit fd q m ∷ cs) = all_registered cs
all_registered (write_setup fd u ∷ cs) = all_registered cs
all_registered (dev_create fd ∷ cs) = all_registered cs
all_registered (dev_destroy fd ∷ cs) = all_registered cs
all_registered (close fd ∷ cs) = all_registered cs
all_registered (write_event fd e ∷ cs) = is_registered e cs && all_registered cs
