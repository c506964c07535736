-- ===== src/Input/Kernel.antt =====
-- The state of an `InputDevice` (InputDevice.h) and the kernel that it drives through /dev/uinput.
-- The kernel is not part of the program: `Kernel` is a parameter that answers each call from the
-- calls made before it. `calls` logs every attempted call, newest first, whatever the answer.
use packages_services_vnc_fl.Prelude.{ℕ, Bool, Option, List, ◌∷◌, if◌then◌else◌}
use packages_services_vnc_fl.Prelude.Int.{ℤ}

-- `struct input_event`, without its time stamp.
pub record InputEvent : Type 0 where
  pub kind : ℕ
  pub code : ℕ
  pub value : ℤ

-- The part of `struct uinput_user_dev` that the code sets.
pub record UserDev : Type 0 where
  pub bus : ℕ
  pub vendor : ℕ
  pub product : ℕ
  pub version : ℕ
  pub absmin_x : ℕ
  pub absmax_x : ℕ
  pub absmin_y : ℕ
  pub absmax_y : ℕ

-- The `UI_SET_…` requests.
pub data BitRequest : Type 0 where
  ui_set_evbit ui_set_keybit ui_set_relbit ui_set_absbit ui_set_propbit : BitRequest

pub data Call : Type 0 where
  open_uinput : Call
  set_bit : Option ℕ → BitRequest → ℕ → Call
  write_setup : Option ℕ → UserDev → Call
  dev_create : Option ℕ → Call
  dev_destroy : Option ℕ → Call
  close : Option ℕ → Call
  write_event : Option ℕ → InputEvent → Call

pub record Kernel : Type 0 where
  pub opens : List Call → Option ℕ
  pub accepts : List Call → Call → Bool
  pub errno : List Call → ℕ

-- `status_t`: the named values that the code returns, and a positive `errno`.
pub data Status : Type 0 where
  ok no_init bad_value : Status
  errno : ℕ → Status

-- `fd` is `none` while `mFD` is negative. `touch` and `use_relative_input` are the file's statics.
pub record Device : Type 0 where
  pub fd : Option ℕ
  pub opened : Bool
  pub user_dev : UserDev
  pub left_clicked : Bool
  pub right_clicked : Bool
  pub middle_clicked : Bool
  pub last_x : ℤ
  pub last_y : ℤ
  pub touch : Bool
  pub use_relative_input : Bool
  pub calls : List Call

-- A method takes the device and returns it with a result.
abbrev pub M : Type 0 → Type 0
M A = Device → Device × A

abbrev pub pure : {A : Type 0} → A → M A
pure a d = (d, a)

infixl 5 ◌>>=◌ ◌>>◌
abbrev pub ◌>>=◌ : {A B : Type 0} → M A → (A → M B) → M B
◌>>=◌ m f d = f (m d).1 (m d).0

abbrev pub ◌>>◌ : {A B : Type 0} → M A → M B → M B
◌>>◌ m k d = k (m d).0

abbrev pub nothing : M (Unit {0})
nothing d = (d, tt)

abbrev pub when : {A : Type 0} → Bool → M A → M (Unit {0})
when b m d = if b then ((m d).0, tt) else (d, tt)

abbrev pub modify : (Device → Device) → M (Unit {0})
modify f d = (f d, tt)

-- One call of the kernel: it is logged, and the answer is the kernel's.
abbrev pub request : Kernel → Call → M Bool
request k c d = (record d { calls = c ∷ d.calls }, k.accepts d.calls c)
