-- ===== src/Input/Lifecycle.antt =====
-- `start`, `stop`, `reconfigure` and the constructor of InputDevice (InputDevice.{h,cpp}).
pub mod Owned
pub mod Ready
pub mod Bits
pub mod Registered
use packages_services_vnc_fl.Prelude.{
  ℕ, zero, suc, ◌+◌, Bool, true, false, not, ◌&&◌, none, some, List, [], ◌∷◌, ◌==◌, if◌then◌else◌,
  Option,
}
use packages_services_vnc_fl.Prelude.Int.{pos}
use packages_services_vnc_fl.Input.Codes.{
  ev_syn, ev_key, ev_rel, ev_abs, ev_rep, rel_x, rel_y, rel_wheel, abs_x, abs_y, input_prop_direct,
  key_max, btn_mouse, btn_touch, bus_virtual,
}
use packages_services_vnc_fl.Input.Kernel.{
  Kernel, Device, UserDev, BitRequest, Status, ok, no_init, open_uinput, set_bit, write_setup,
  dev_create, dev_destroy, close, ui_set_evbit, ui_set_keybit, ui_set_relbit, ui_set_absbit,
  ui_set_propbit, M, pure, ◌>>=◌, ◌>>◌, modify, request,
}

abbrev pub Options : Type 0
Options = List (BitRequest × ℕ)

-- `kOptions` and `mOptions`: a touchscreen has one property more.
unfoldable pub m_options : Options
m_options =
    (ui_set_evbit, ev_key)
    ∷ (ui_set_evbit, ev_rep)
    ∷ (ui_set_evbit, ev_rel)
    ∷ (ui_set_relbit, rel_x)
    ∷ (ui_set_relbit, rel_y)
    ∷ (ui_set_relbit, rel_wheel)
    ∷ (ui_set_evbit, ev_abs)
    ∷ (ui_set_absbit, abs_x)
    ∷ (ui_set_absbit, abs_y)
    ∷ (ui_set_evbit, ev_syn)
    ∷ []

unfoldable pub k_options : Options
k_options =
    (ui_set_evbit, ev_key)
    ∷ (ui_set_evbit, ev_rep)
    ∷ (ui_set_evbit, ev_rel)
    ∷ (ui_set_relbit, rel_x)
    ∷ (ui_set_relbit, rel_y)
    ∷ (ui_set_relbit, rel_wheel)
    ∷ (ui_set_evbit, ev_abs)
    ∷ (ui_set_absbit, abs_x)
    ∷ (ui_set_absbit, abs_y)
    ∷ (ui_set_evbit, ev_syn)
    ∷ (ui_set_propbit, input_prop_direct)
    ∷ []

-- The loop over the options; false is the `goto err_ioctl`.
unfoldable pub set_options : Kernel → Options → M Bool
set_options k [] d = (d, true)
set_options k ((r, bit) ∷ rest) d =
    let (d', done) = request k (set_bit d.fd r bit) d in
    let later = set_options k rest d' in if done then later else (d', false)

-- The loop over the key bits, with the rounds left and the index.
unfoldable pub set_keys : Kernel → ℕ → ℕ → M Bool
set_keys k zero idx d = (d, true)
set_keys k (suc n) idx d =
    let skipped = set_keys k n (idx + 1) d in
    let (d', done) = request k (set_bit d.fd ui_set_keybit idx) d in
    let later = set_keys k n (idx + 1) d' in
    if (not d.touch && idx == btn_touch)
    then skipped
    else if (d.touch && idx == btn_mouse)
    then skipped
    else if done
    then later
    else (d', false)

-- `mUserDev` after its memset: `strncpy` of the fixed name is left out.
unfoldable pub setup_of : ℕ → ℕ → Bool → UserDev
setup_of width height relative = record {
  bus = bus_virtual;
  vendor = 1;
  product = 1;
  version = 4;
  absmin_x = 0;
  absmax_x = if relative then 0 else width;
  absmin_y = 0;
  absmax_y = if relative then 0 else height;
}

-- The steps between the open and `mOpened = true`; false is `goto err_ioctl`.
unfoldable pub configure : Kernel → ℕ → ℕ → M Bool
configure k width height d =
    (do
      options ← set_options k (if d.touch then k_options else m_options)
      if not options then pure false else (do
        keys ← set_keys k key_max 0
        if not keys then pure false else (do
          modify (λ e. record e { user_dev = setup_of width height e.use_relative_input })
          wrote ← (λ e. request k (write_setup e.fd e.user_dev) e)
          if not wrote then pure false else (λ e. request k (dev_create e.fd) e))))
      d

-- The label `err_ioctl`.
unfoldable pub err_ioctl : Kernel → M Status
err_ioctl k = do (λ d. request k (close d.fd) d); modify (λ d. record d { fd = none }); pure no_init

-- What `start` resets before it looks at the descriptor.
unfoldable pub reset : Bool → Bool → Device → Device
reset istouch relative d = record d {
  left_clicked = false;
  middle_clicked = false;
  right_clicked = false;
  last_x = pos 0;
  last_y = pos 0;
  touch = istouch;
  use_relative_input = relative;
}

-- `open`: a failed open leaves a negative `mFD`.
unfoldable pub open_device : Kernel → M Bool
open_device k d =
    let d' = (request k open_uinput d).0 in
    elim (k.opens d.calls) [
      | none ↦ (record d' { fd = none }, false)
      | some n ↦ (record d' { fd = some n }, true)
    ]

unfoldable pub open_and_configure : Kernel → ℕ → ℕ → M Status
open_and_configure k width height = do
  opened ← open_device k
  if not opened then pure no_init else (do
    done ← configure k width height
    if done then (do modify (λ d. record d { opened = true }); pure ok) else err_ioctl k)

-- `Input device already open!` if there is a descriptor.
unfoldable pub start_with : Option ℕ → Kernel → ℕ → ℕ → M Status
start_with (some n) k width height = pure no_init
start_with none k width height = open_and_configure k width height

unfoldable pub start : Kernel → ℕ → ℕ → Bool → Bool → M Status
start k width height istouch relative d = start_with d.fd k width height (reset istouch relative d)

unfoldable pub stop : Kernel → M Status
stop k d =
    let c = record d { opened = false } in
    elim d.fd [
      | none ↦ (c, ok)
      | some n ↦
          (do
            (λ e. request k (dev_destroy e.fd) e)
            (λ e. request k (close e.fd) e)
            modify (λ e. record e { fd = none })
            pure ok)
            c
    ]

-- `start_async` runs `start` and drops its result.
unfoldable pub start_async : Kernel → ℕ → ℕ → Bool → Bool → M Status
start_async k width height istouch relative = do start k width height istouch relative; pure ok

unfoldable pub reconfigure : Kernel → ℕ → ℕ → Bool → Bool → M Status
reconfigure k width height istouch relative = do stop k; start_async k width height istouch relative

-- The constructor sets `mFD` alone; `fresh` stands for what the other members happen to hold.
unfoldable pub construct : Device → Device
construct fresh = record fresh { fd = none; calls = [] }

-- The destructor.
unfoldable pub destroy : Kernel → M Status
destroy k = stop k
