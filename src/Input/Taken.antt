-- ===== src/Input/Taken.antt =====
-- The events of InputDevice.cpp that its device has registered. `Takes` is what a block of keyEvent or
-- pointerEvent keeps: the device is open in a mode, and all that this mode writes is registered.
pub mod Keys
pub mod Pointers
pub mod Starts
pub mod Restart
pub mod Histories
mod Tests
use packages_services_vnc_fl.Prelude.{ℕ, Bool, true, List, ◌≡◌, ◌&&◌, ltb, arith, Option, ◌∷◌}
use packages_services_vnc_fl.Prelude.Int.{ℤ, pos}
use packages_services_vnc_fl.Input.Codes.{
  ev_syn, ev_key, ev_rel, ev_abs, syn_report, rel_x, rel_y, rel_wheel, abs_x, abs_y, key_max,
}
use packages_services_vnc_fl.Input.Kernel.{
  Call, Kernel, Device, InputEvent, ui_set_evbit, ui_set_keybit, ui_set_relbit, ui_set_absbit,
  write_event,
}
use packages_services_vnc_fl.Input.Inject.{inject}
use packages_services_vnc_fl.Input.Lifecycle.Bits.{has_bit, is_registered, all_registered}
use packages_services_vnc_fl.Input.Lifecycle.Registered.{wanted}

-- What a device in a pointer mode writes is registered.
pub record Offers (touch : Bool) (cs : List Call) : Type 0 where
  pub key : has_bit ui_set_evbit ev_key cs ≡ true
  pub rel : has_bit ui_set_evbit ev_rel cs ≡ true
  pub abs : has_bit ui_set_evbit ev_abs cs ≡ true
  pub syn : has_bit ui_set_evbit ev_syn cs ≡ true
  pub x : has_bit ui_set_relbit rel_x cs ≡ true
  pub y : has_bit ui_set_relbit rel_y cs ≡ true
  pub wheel : has_bit ui_set_relbit rel_wheel cs ≡ true
  pub at_x : has_bit ui_set_absbit abs_x cs ≡ true
  pub at_y : has_bit ui_set_absbit abs_y cs ≡ true
  pub codes : (code : ℕ) → has_bit ui_set_keybit code cs ≡ (ltb code key_max && wanted touch code)

pub record Takes (touch : Bool) (d : Device) : Type 0 where
  pub mode : d.touch ≡ touch
  pub live : d.opened ≡ true
  pub taken : all_registered d.calls ≡ true
  pub offers : Offers touch d.calls

-- A device with another memory of buttons and position.
pub remembers-Takes :
    {t : Bool} {d : Device} (left right middle : Bool) (x y : ℤ)
    → Takes t d
    → Takes t (record d {
      left_clicked = left;
      right_clicked = right;
      middle_clicked = middle;
      last_x = x;
      last_y = y;
    })
remembers-Takes left right middle x y s = record {
  mode = s.mode;
  live = s.live;
  taken = s.taken;
  offers = s.offers;
}

Offers-write :
    {t : Bool} {cs : List Call} (fd : Option ℕ) (e : InputEvent)
    → Offers t cs
    → Offers t (write_event fd e ∷ cs)
unfolding has_bit
Offers-write fd e o = record {
  key = o.key;
  rel = o.rel;
  abs = o.abs;
  syn = o.syn;
  x = o.x;
  y = o.y;
  wheel = o.wheel;
  at_x = o.at_x;
  at_y = o.at_y;
  codes = o.codes;
}

inject-Takes :
    (k : Kernel) (kind code : ℕ) (value : ℤ) {t : Bool} {d : Device}
    → is_registered (record { kind = kind; code = code; value = value }) d.calls ≡ true
    → Takes t d
    → Takes t (inject k kind code value d).0
unfolding inject all_registered
inject-Takes k kind code value h s = record {
  mode = s.mode;
  live = s.live;
  taken = ground (arith, h, s.taken);
  offers = Offers-write _ _ s.offers;
}

module _ (k : Kernel) {t : Bool} {d : Device} where
  pub syn-Takes : Takes t d → Takes t (inject k ev_syn syn_report (pos 0) d).0
  unfolding is_registered
  syn-Takes s = inject-Takes k ev_syn syn_report (pos 0) (ground (arith, s.offers.syn)) s

  pub key-Takes :
      (code : ℕ) (value : ℤ)
      → (ltb code key_max && wanted t code) ≡ true
      → Takes t d
      → Takes t (inject k ev_key code value d).0
  unfolding is_registered
  key-Takes code value h s =
      inject-Takes k ev_key code value (ground (arith, h, s.offers.key, s.offers.codes code)) s

  pub rel_x-Takes : (v : ℤ) → Takes t d → Takes t (inject k ev_rel rel_x v d).0
  unfolding is_registered
  rel_x-Takes v s = inject-Takes k ev_rel rel_x v (ground (arith, s.offers.rel, s.offers.x)) s

  pub rel_y-Takes : (v : ℤ) → Takes t d → Takes t (inject k ev_rel rel_y v d).0
  unfolding is_registered
  rel_y-Takes v s = inject-Takes k ev_rel rel_y v (ground (arith, s.offers.rel, s.offers.y)) s

  pub wheel-Takes : (v : ℤ) → Takes t d → Takes t (inject k ev_rel rel_wheel v d).0
  unfolding is_registered
  wheel-Takes v s =
      inject-Takes k ev_rel rel_wheel v (ground (arith, s.offers.rel, s.offers.wheel)) s

  pub abs_x-Takes : (v : ℤ) → Takes t d → Takes t (inject k ev_abs abs_x v d).0
  unfolding is_registered
  abs_x-Takes v s = inject-Takes k ev_abs abs_x v (ground (arith, s.offers.abs, s.offers.at_x)) s

  pub abs_y-Takes : (v : ℤ) → Takes t d → Takes t (inject k ev_abs abs_y v d).0
  unfolding is_registered
  abs_y-Takes v s = inject-Takes k ev_abs abs_y v (ground (arith, s.offers.abs, s.offers.at_y)) s
