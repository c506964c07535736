-- ===== src/Input/Pointer/Reading.antt =====
-- What the kernel's log shows of the device that the events drive: which keys and buttons are down,
-- where the absolute axes stand, and whether the last report is complete.
use packages_services_vnc_fl.Prelude.{
  ℕ, Bool, true, false, ◌&&◌, List, [], ◌∷◌, if◌then◌else◌, ◌==◌,
}
use packages_services_vnc_fl.Prelude.Int.{ℤ, ◌+ℤ◌}
use packages_services_vnc_fl.Input.Codes.{
  ev_key, ev_abs, ev_rel, ev_syn, btn_touch, btn_left, btn_right, btn_middle, key_back, key_end,
}
use packages_services_vnc_fl.Input.Kernel.{
  Call, open_uinput, set_bit, write_setup, dev_create, dev_destroy, close, write_event,
}
use packages_services_vnc_fl.Input.Writes.{is_down}

-- A device that has just been opened has every key up.
unfoldable pub down : ℕ → List Call → Bool
down code [] = false
down code (open_uinput ∷ cs) = false
down code (write_event fd e ∷ cs) =
    if e.kind == ev_key && e.code == code then is_down e.value else down code cs
down code (set_bit fd r n ∷ cs) = down code cs
down code (write_setup fd u ∷ cs) = down code cs
down code (dev_create fd ∷ cs) = down code cs
down code (dev_destroy fd ∷ cs) = down code cs
down code (close fd ∷ cs) = down code cs

-- The last position written on an absolute axis, or `p` if there is none.
unfoldable pub abs_at : ℕ → ℤ → List Call → ℤ
abs_at axis p [] = p
abs_at axis p (write_event fd e ∷ cs) =
    if e.kind == ev_abs && e.code == axis then e.value else abs_at axis p cs
abs_at axis p (open_uinput ∷ cs) = abs_at axis p cs
abs_at axis p (set_bit fd r n ∷ cs) = abs_at axis p cs
abs_at axis p (write_setup fd u ∷ cs) = abs_at axis p cs
abs_at axis p (dev_create fd ∷ cs) = abs_at axis p cs
abs_at axis p (dev_destroy fd ∷ cs) = abs_at axis p cs
abs_at axis p (close fd ∷ cs) = abs_at axis p cs

-- Where the moves on a relative axis lead from `p`, since the device was opened.
unfoldable pub rel_at : ℕ → ℤ → List Call → ℤ
rel_at axis p [] = p
rel_at axis p (write_event fd e ∷ cs) =
    if e.kind == ev_rel && e.code == axis then rel_at axis p cs +ℤ e.value else rel_at axis p cs
rel_at axis p (open_uinput ∷ cs) = p
rel_at axis p (set_bit fd r n ∷ cs) = rel_at axis p cs
rel_at axis p (write_setup fd u ∷ cs) = rel_at axis p cs
rel_at axis p (dev_create fd ∷ cs) = rel_at axis p cs
rel_at axis p (dev_destroy fd ∷ cs) = rel_at axis p cs
rel_at axis p (close fd ∷ cs) = rel_at axis p cs

-- The last event written, if any, is a SYN.
unfoldable pub synced : List Call → Bool
synced [] = true
synced (write_event fd e ∷ cs) = e.kind == ev_syn
synced (open_uinput ∷ cs) = synced cs
synced (set_bit fd r n ∷ cs) = synced cs
synced (write_setup fd u ∷ cs) = synced cs
synced (dev_create fd ∷ cs) = synced cs
synced (dev_destroy fd ∷ cs) = synced cs
synced (close fd ∷ cs) = synced cs

-- What the three buttons of the viewer drive, on a touchscreen and on a mouse.
abbrev pub left_code : Bool → ℕ
left_code touch = if touch then btn_touch else btn_left

abbrev pub right_code : Bool → ℕ
right_code touch = if touch then key_back else btn_right

abbrev pub middle_code : Bool → ℕ
middle_code touch = if touch then key_end else btn_middle
