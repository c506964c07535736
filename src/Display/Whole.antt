-- ===== src/Display/Whole.antt =====
-- Whole numbers in place of the floats: an arithmetic that meets the laws of `IsRounded`, for tests.
use packages_services_vnc_fl.Pixels.{Floats}
use packages_services_vnc_fl.Display.Viewport.{IsRounded}
use packages_services_vnc_fl.Prelude.{◌≤◌, ℕ, ◌*◌, ◌/◌, arith}

abbrev pub whole : Floats
whole = record {
  Float = ℕ;
  one = 1;
  of_u32 = λ n. n;
  to_u32 = λ n. n;
  times = λ a b. a * b;
  over = λ a b. a / b;
}

div_mono : (x y r : ℕ) → x ≤ y → x / r ≤ y / r
div_mono x y r h = grind arith

mul-div-le : (n r : ℕ) → (n * r) / r ≤ n
mul-div-le n r = grind arith

pub whole-IsRounded : IsRounded whole
whole-IsRounded = record {
  Le = λ a b. a ≤ b;
  Le-trans = λ x y z p q. omega arith;
  of_u32-mono = λ m n h. h;
  to_u32-mono = λ x y h. h;
  of_u32-to_u32 = λ x. omega arith;
  over-mono = λ x y p q hp hq h. div_mono x y (p / q) h;
  over-times = λ n p q h hp hq. mul-div-le n (p / q);
}
