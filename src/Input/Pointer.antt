-- ===== src/Input/Pointer.antt =====
-- `pointerEvent` of InputDevice.cpp, one function for each of its blocks. The results of its
-- `inject` calls are ignored, as they are there.
pub mod Reading
pub mod Buttons
pub mod Still
pub mod Position
use packages_services_vnc_fl.Prelude.{
  ℕ, ◌/◌, ◌%◌, Bool, true, false, not, ◌&&◌, if◌then◌else◌, ◌==◌,
}
use packages_services_vnc_fl.Prelude.Int.{ℤ, pos, negsuc, ◌-ℤ◌, i32}
use packages_services_vnc_fl.Input.Codes.{
  ev_syn, ev_key, ev_rel, ev_abs, syn_report, rel_x, rel_y, rel_wheel, abs_x, abs_y, key_end,
  key_back, btn_left, btn_right, btn_middle, btn_touch,
}
use packages_services_vnc_fl.Input.Kernel.{Kernel, M, ◌>>◌, nothing, when, modify}
use packages_services_vnc_fl.Input.Inject.{inject, press, release}

-- The tests of `buttonMask`, which RFB sends as a byte: `mask & 1`, `mask & 2`, and so on.
abbrev pub bit : ℕ → ℕ → Bool
bit mask weight = (mask / weight) % 2 == 1

abbrev pub sync : Kernel → M (Unit {0})
sync k = do inject k ev_syn syn_report (pos 0); nothing

abbrev pub place : Kernel → ℤ → ℤ → M (Unit {0})
place k x y = do inject k ev_abs abs_x x; inject k ev_abs abs_y y; nothing

-- `diffX` and `diffY` are taken before the new position is stored.
unfoldable pub track : Kernel → ℤ → ℤ → M (Unit {0})
track k x y d =
    let diff_x = i32 (x -ℤ d.last_x) in
    let diff_y = i32 (y -ℤ d.last_y) in
    (do
      modify (λ e. record e { last_x = x; last_y = y })
      when (not d.touch) (do
        if not d.use_relative_input
            then place k x y
            else (do inject k ev_rel rel_x diff_x; inject k ev_rel rel_y diff_y; nothing)
        sync k))
      d

-- `dragclick`.
abbrev pub drag : Kernel → ℤ → ℤ → M (Unit {0})
drag k x y = do place k x y; sync k

unfoldable pub left_button : Kernel → ℕ → ℤ → ℤ → M (Unit {0})
left_button k mask x y d =
    (if bit mask 1 && not d.left_clicked
        then (do
          modify (λ e. record e { left_clicked = true })
          when (not d.use_relative_input) (place k x y)
          inject k ev_key (if d.touch then btn_touch else btn_left) (pos 1)
          sync k)
        else if not (bit mask 1) && d.left_clicked
        then (do
          modify (λ e. record e { left_clicked = false })
          when (not d.use_relative_input) (place k x y)
          inject k ev_key (if d.touch then btn_touch else btn_left) (pos 0)
          sync k)
        else when (d.left_clicked && not d.use_relative_input) (drag k x y))
      d

unfoldable pub right_button : Kernel → ℕ → ℤ → ℤ → M (Unit {0})
right_button k mask x y d =
    (if bit mask 4 && not d.right_clicked
        then (do
          modify (λ e. record e { right_clicked = true })
          if d.touch then press k key_back else inject k ev_key btn_right (pos 1)
          sync k)
        else if not (bit mask 4) && d.right_clicked
        then (do
          modify (λ e. record e { right_clicked = false })
          if d.touch then release k key_back else inject k ev_key btn_right (pos 0)
          sync k)
        else when (d.right_clicked && not d.use_relative_input) (drag k x y))
      d

unfoldable pub middle_button : Kernel → ℕ → ℤ → ℤ → M (Unit {0})
middle_button k mask x y d =
    (if bit mask 2 && not d.middle_clicked
        then (do
          modify (λ e. record e { middle_clicked = true })
          if d.touch then press k key_end else inject k ev_key btn_middle (pos 1)
          sync k)
        else if not (bit mask 2) && d.middle_clicked
        then (do
          modify (λ e. record e { middle_clicked = false })
          if d.touch then release k key_end else inject k ev_key btn_middle (pos 0)
          sync k)
        else when (d.middle_clicked && not d.use_relative_input) (drag k x y))
      d

unfoldable pub wheel : Kernel → ℕ → M (Unit {0})
wheel k mask = do
  when (bit mask 8) (do inject k ev_rel rel_wheel (pos 1); sync k)
  when (bit mask 16) (do inject k ev_rel rel_wheel (negsuc 0); sync k)

unfoldable pub pointer_event : Kernel → ℕ → ℤ → ℤ → M (Unit {0})
pointer_event k mask x y d =
    (if d.opened
        then (do
          track k x y
          left_button k mask x y
          right_button k mask x y
          middle_button k mask x y
          wheel k mask)
        else nothing)
      d
