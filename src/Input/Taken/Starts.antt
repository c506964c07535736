-- ===== src/Input/Taken/Starts.antt =====
-- `start` and `stop` write no event, and a device that `start` opened has registered what its mode writes.
use packages_services_vnc_fl.Input.Taken.{Takes, Offers}
use packages_services_vnc_fl.Prelude.{
  ℕ, zero, suc, ◌+◌, Bool, true, false, [], ◌∷◌, ◌≡◌, refl, ◌∙◌, arith, inl, inr, none, ◌⊎◌,
}
use packages_services_vnc_fl.Input.Codes.{
  ev_syn, ev_key, ev_rel, ev_abs, rel_x, rel_y, rel_wheel, abs_x, abs_y, key_max,
}
use packages_services_vnc_fl.Input.Kernel.{
  Kernel, Device, BitRequest, set_bit, ui_set_evbit, ui_set_keybit, ui_set_relbit, ui_set_absbit,
  ok,
}
use packages_services_vnc_fl.Input.Lifecycle.{
  Options, set_options, set_keys, configure, open_device, open_and_configure, err_ioctl, start,
  stop, reset, start_with, k_options, m_options,
}
use packages_services_vnc_fl.Input.Lifecycle.Bits.{has_bit, all_registered}
use packages_services_vnc_fl.Input.Lifecycle.Ready.{start_ends}
use packages_services_vnc_fl.Input.Lifecycle.Registered.{
  offered, start-offered, start_registers, options_of,
}

-- A step that writes no event.
abbrev Writeless : Device → Device → Type 0
Writeless d e = all_registered e.calls ≡ all_registered d.calls

set_options-Writeless :
    (k : Kernel) (os : Options) (d : Device) → Writeless d (set_options k os d).0
unfolding set_options all_registered
set_options-Writeless k [] d = refl
set_options-Writeless k ((r, bit) ∷ os) d =
    ground (arith, set_options-Writeless k os (record d { calls = set_bit d.fd r bit ∷ d.calls }))

set_keys-Writeless : (k : Kernel) (n idx : ℕ) (d : Device) → Writeless d (set_keys k n idx d).0
unfolding set_keys all_registered
set_keys-Writeless k zero idx d = refl
set_keys-Writeless k (suc n) idx d = ground (
  arith,
  set_keys-Writeless k n (idx + 1) d,
  set_keys-Writeless k n (idx + 1) (record d { calls = set_bit d.fd ui_set_keybit idx ∷ d.calls }),
)

configure-Writeless :
    (k : Kernel) (width height : ℕ) (d : Device) → Writeless d (configure k width height d).0
unfolding configure all_registered
configure-Writeless k width height d =
    let os = options_of d.touch in
    let d1 = (set_options k os d).0 in
    ground (arith, set_options-Writeless k os d, set_keys-Writeless k key_max 0 d1)

pub start-Writeless :
    (k : Kernel) (width height : ℕ) (istouch relative : Bool) (d : Device)
    → all_registered (start k width height istouch relative d).0.calls ≡ all_registered d.calls
unfolding start start_with open_and_configure open_device err_ioctl reset all_registered
start-Writeless k width height istouch relative d =
    let e = (open_device k (reset istouch relative d)).0 in
    ground (arith, configure-Writeless k width height e)

pub stop-Writeless :
    (k : Kernel) (d : Device) → all_registered (stop k d).0.calls ≡ all_registered d.calls
unfolding stop all_registered
stop-Writeless k d = ground arith

module _ (k : Kernel) (width height : ℕ) (istouch relative : Bool) (d : Device) where
  abbrev started : Device
  started = (start k width height istouch relative d).0

  started-has_bit :
      (r : BitRequest) (n : ℕ)
      → (start k width height istouch relative d).1 ≡ ok
      → offered istouch r n ≡ true
      → has_bit r n started.calls ≡ true
  started-has_bit r n h o = start-offered k width height istouch relative d r n h ∙ o

  offered_all :
      (offered istouch ui_set_evbit ev_key ≡ true)
      × (offered istouch ui_set_evbit ev_rel ≡ true)
      × (offered istouch ui_set_evbit ev_abs ≡ true)
      × (offered istouch ui_set_evbit ev_syn ≡ true)
      × (offered istouch ui_set_relbit rel_x ≡ true)
      × (offered istouch ui_set_relbit rel_y ≡ true)
      × (offered istouch ui_set_relbit rel_wheel ≡ true)
      × (offered istouch ui_set_absbit abs_x ≡ true)
      × (offered istouch ui_set_absbit abs_y ≡ true)
  unfolding offered m_options k_options
  offered_all = ground arith

  start-Offers : (start k width height istouch relative d).1 ≡ ok → Offers istouch started.calls
  start-Offers h =
      let o = offered_all in
      record {
        key = started-has_bit ui_set_evbit ev_key h o.0;
        rel = started-has_bit ui_set_evbit ev_rel h o.1;
        abs = started-has_bit ui_set_evbit ev_abs h o.2;
        syn = started-has_bit ui_set_evbit ev_syn h o.3;
        x = started-has_bit ui_set_relbit rel_x h o.4;
        y = started-has_bit ui_set_relbit rel_y h o.5;
        wheel = started-has_bit ui_set_relbit rel_wheel h o.6;
        at_x = started-has_bit ui_set_absbit abs_x h o.7;
        at_y = started-has_bit ui_set_absbit abs_y h o.8;
        codes = λ code. start_registers k width height istouch relative d code h;
      }

  -- From no descriptor: the device is open in the mode asked for, or as open as it was.
  pub start-Takes :
      d.fd ≡ none
      → d.opened ≡ false
      → all_registered d.calls ≡ true
      → Takes istouch started ⊎ (started.opened ≡ false)
  start-Takes f c r = elim (start_ends k width height istouch relative d f) [
    | inl (h, ready) ↦ inl record {
      mode = ready.touch;
      live = ready.opened;
      taken = start-Writeless k width height istouch relative d ∙ r;
      offers = start-Offers h;
    }
    | inr (h, gone, same) ↦ inr (same ∙ c)
  ]
