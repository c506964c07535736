-- ===== src/Input/Lifecycle/Registered.antt =====
-- Which types and codes of events `start` registers with the kernel.
use packages_services_vnc_fl.Input.Kernel.{
  Kernel, Device, BitRequest, ui_set_keybit, ok, set_bit, ui_set_evbit, ui_set_relbit,
  ui_set_absbit, ui_set_propbit,
}
use packages_services_vnc_fl.Input.Lifecycle.{
  Options, set_options, set_keys, configure, open_device, open_and_configure, err_ioctl, start,
  reset, start_with, k_options, m_options,
}
use packages_services_vnc_fl.Input.Lifecycle.Bits.{rank, has_bit}
use packages_services_vnc_fl.Prelude.{
  Bool, ℕ, ◌≡◌, if◌then◌else◌, not, arith, true, false, ltb, ◌==◌, leb, ◌∷◌, [], ◌&&◌, refl, ◌+◌,
  ◌||◌, suc, zero,
}
use packages_services_vnc_fl.Input.Codes.{btn_mouse, key_max, btn_touch}

-- A touchscreen has no mouse buttons' base code and a mouse no touch code.
abbrev pub wanted : Bool → ℕ → Bool
wanted touch code = if touch then not (code == btn_mouse) else not (code == btn_touch)

abbrev pub options_of : Bool → Options
options_of touch = if touch then k_options else m_options

-- A bit that a table of options asks for.
unfoldable pub asks : BitRequest → ℕ → Options → Bool
asks r n [] = false
asks r n ((q, m) ∷ os) = (rank q == rank r && m == n) || asks r n os

set_options-has_bit :
    (k : Kernel) (os : Options) (d : Device) (r : BitRequest) (n : ℕ)
    → (set_options k os d).1 ≡ true
    → (has_bit r n (set_options k os d).0.calls ≡ (asks r n os || has_bit r n d.calls))
      × ((set_options k os d).0.touch ≡ d.touch)
unfolding set_options has_bit asks
set_options-has_bit k [] d r n h = (refl, refl)
set_options-has_bit k ((q, m) ∷ os) d r n h =
    ground (arith, set_options-has_bit k os (record d { calls = set_bit d.fd q m ∷ d.calls }) r n)

set_keys-has_keybit :
    (k : Kernel) (m idx : ℕ) (d : Device) (code : ℕ)
    → (set_keys k m idx d).1 ≡ true
    → has_bit ui_set_keybit code (set_keys k m idx d).0.calls ≡ (
        (leb idx code && ltb code (idx + m) && wanted d.touch code)
        || has_bit ui_set_keybit code d.calls)
unfolding set_keys has_bit
set_keys-has_keybit k zero idx d code h = ground arith
set_keys-has_keybit k (suc m) idx d code h = ground (
  arith,
  set_keys-has_keybit k m (idx + 1) d code,
  set_keys-has_keybit k m (idx + 1) (record d { calls = set_bit d.fd ui_set_keybit idx ∷ d.calls })
      code,
)

-- And no bits but those of keys.
set_keys-has_bit_ne :
    (k : Kernel) (m idx : ℕ) (d : Device) (r : BitRequest) (n : ℕ)
    → (rank ui_set_keybit == rank r) ≡ false
    → has_bit r n (set_keys k m idx d).0.calls ≡ has_bit r n d.calls
unfolding set_keys has_bit
set_keys-has_bit_ne k zero idx d r n h = refl
set_keys-has_bit_ne k (suc m) idx d r n h = ground (
  arith,
  set_keys-has_bit_ne k m (idx + 1) d r n,
  set_keys-has_bit_ne k m (idx + 1) (record d { calls = set_bit d.fd ui_set_keybit idx ∷ d.calls })
      r n,
)

set_keys-has_bit :
    (k : Kernel) (d : Device) (r : BitRequest) (n : ℕ)
    → (set_keys k key_max 0 d).1 ≡ true
    → has_bit r n (set_keys k key_max 0 d).0.calls ≡ (
        (rank ui_set_keybit == rank r && (ltb n key_max && wanted d.touch n))
        || has_bit r n d.calls)
set_keys-has_bit k d ui_set_keybit n h = ground (arith, set_keys-has_keybit k key_max 0 d n)
set_keys-has_bit k d ui_set_evbit n h = set_keys-has_bit_ne k key_max 0 d ui_set_evbit n refl
set_keys-has_bit k d ui_set_relbit n h = set_keys-has_bit_ne k key_max 0 d ui_set_relbit n refl
set_keys-has_bit k d ui_set_absbit n h = set_keys-has_bit_ne k key_max 0 d ui_set_absbit n refl
set_keys-has_bit k d ui_set_propbit n h = set_keys-has_bit_ne k key_max 0 d ui_set_propbit n refl

-- What `configure` asks for, with the table that it takes.
unfoldable pub offered : Bool → BitRequest → ℕ → Bool
unfolding asks
offered touch r n =
    asks r n (options_of touch)
    || (rank ui_set_keybit == rank r && (ltb n key_max && wanted touch n))

configure-has_bit :
    (k : Kernel) (width height : ℕ) (d : Device) (r : BitRequest) (n : ℕ)
    → (configure k width height d).1 ≡ true
    → has_bit r n (configure k width height d).0.calls
      ≡ (offered d.touch r n || has_bit r n d.calls)
unfolding configure has_bit offered
configure-has_bit k width height d r n h =
    let d1 = (set_options k (options_of d.touch) d).0 in
    ground (arith, set_options-has_bit k (options_of d.touch) d r n, set_keys-has_bit k d1 r n)

open_device-has_bit :
    (k : Kernel) (d : Device) (r : BitRequest) (n : ℕ)
    → (has_bit r n (open_device k d).0.calls ≡ false) × ((open_device k d).0.touch ≡ d.touch)
unfolding open_device has_bit
open_device-has_bit k d r n = ground arith

-- If `start` returns OK, the log since it opened the device asks for what the options and the key
-- bits are, and for no more.
pub start-offered :
    (k : Kernel) (width height : ℕ) (istouch relative : Bool) (d : Device) (r : BitRequest) (n : ℕ)
    → (start k width height istouch relative d).1 ≡ ok
    → has_bit r n (start k width height istouch relative d).0.calls ≡ offered istouch r n
unfolding start start_with reset open_and_configure err_ioctl
start-offered k width height istouch relative d r n h =
    let t = reset istouch relative d in
    let e = (open_device k t).0 in
    ground (arith, open_device-has_bit k t r n, configure-has_bit k width height e r n)

-- If `start` returns OK, the log since it opened the device asks for exactly the key codes below
-- KEY_MAX, without BTN_TOUCH for a mouse and without BTN_MOUSE for a touchscreen.
pub start_registers :
    (k : Kernel) (width height : ℕ) (istouch relative : Bool) (d : Device) (code : ℕ)
    → (start k width height istouch relative d).1 ≡ ok
    → has_bit ui_set_keybit code (start k width height istouch relative d).0.calls
      ≡ (ltb code key_max && wanted istouch code)
unfolding offered m_options k_options
start_registers k width height true relative d code h =
    start-offered k width height true relative d ui_set_keybit code h
start_registers k width height false relative d code h =
    start-offered k width height false relative d ui_set_keybit code h
