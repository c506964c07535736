-- ===== src/Input/Inject.antt =====
-- `inject` and the methods built on it alone (InputDevice.cpp).
use packages_services_vnc_fl.Prelude.{ℕ, ◌%◌, ◌^◌, Bool, true, false, if◌then◌else◌}
use packages_services_vnc_fl.Prelude.Int.{ℤ, pos, ◌-ℤ◌, i32}
use packages_services_vnc_fl.Input.Codes.{
  ev_syn, ev_key, ev_rel, ev_abs, syn_report, rel_x, rel_y, abs_x, abs_y,
}
use packages_services_vnc_fl.Input.Kernel.{
  Kernel, Status, ok, bad_value, errno, write_event, M, pure, ◌>>=◌, ◌>>◌, modify, request,
}

abbrev pub u16 : ℕ → ℕ
u16 n = n % 2 ^ 16

-- `s == OK`.
abbrev pub is_ok : Status → Bool
is_ok ok = true
is_ok _ = false

unfoldable pub inject : Kernel → ℕ → ℕ → ℤ → M Status
inject k kind code value d =
    (do
      wrote ← request k (write_event d.fd (record { kind = kind; code = code; value = value }))
      pure (if wrote then ok else bad_value))
      d

unfoldable pub inject_syn : Kernel → ℕ → ℕ → ℤ → M Status
inject_syn k kind code value = do
  s ← inject k kind code value
  if is_ok s then inject k ev_syn syn_report (pos 0) else pure bad_value

unfoldable pub move_pointer : Kernel → ℤ → ℤ → M Status
unfolding inject_syn
move_pointer k x y = do
  modify (λ d. record d { last_x = x; last_y = y })
  s ← inject k ev_rel rel_x x
  if is_ok s then inject_syn k ev_rel rel_y y else pure bad_value

set_pointer_relative : Kernel → ℤ → ℤ → M Status
set_pointer_relative k x y d =
    (do
      s ← inject k ev_rel rel_x (i32 (x -ℤ d.last_x))
      if is_ok s
          then (do
            t ← inject k ev_rel rel_y (i32 (y -ℤ d.last_y))
            if is_ok t
                then (do modify (λ e. record e { last_x = x; last_y = y }); pure ok)
                else pure bad_value)
          else pure bad_value)
      d

set_pointer_absolute : Kernel → ℤ → ℤ → M Status
unfolding inject_syn
set_pointer_absolute k x y = do
  modify (λ d. record d { last_x = x; last_y = y })
  s ← inject k ev_abs abs_x x
  if is_ok s then inject_syn k ev_abs abs_y y else pure bad_value

unfoldable pub set_pointer : Kernel → ℤ → ℤ → M Status
unfolding set_pointer_relative set_pointer_absolute
set_pointer k x y d =
    (if d.use_relative_input then set_pointer_relative k x y else set_pointer_absolute k x y) d

unfoldable pub press : Kernel → ℕ → M Status
press k code = inject k ev_key code (pos 1)

unfoldable pub release : Kernel → ℕ → M Status
release k code = inject k ev_key code (pos 0)

unfoldable pub click : Kernel → ℕ → M Status
unfolding press release
click k code = do s ← press k code; if is_ok s then release k code else pure bad_value

-- The error value is the `errno` that the failed write left.
unfoldable pub do_keyboard_event : Kernel → ℕ → Bool → M Status
unfolding press release
do_keyboard_event k code down = do
  inject k ev_syn syn_report (pos 0)
  s ← if down then press k code else release k code
  if is_ok s then (do inject k ev_syn syn_report (pos 0); pure ok) else λ d.
      (d, errno (k.errno d.calls))
