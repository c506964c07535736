-- ===== src/Input/Pointer/Still.antt =====
-- What the blocks of `pointerEvent` keep of the pointer, each of its own.
use packages_services_vnc_fl.Prelude.{ℕ, ◌≡◌, true, arith, ◌∙◌}
use packages_services_vnc_fl.Prelude.Int.{ℤ}
use packages_services_vnc_fl.Input.Kernel.{Kernel, Device}
use packages_services_vnc_fl.Input.Inject.{inject, press, release}
use packages_services_vnc_fl.Input.Pointer.{left_button, right_button, wheel, middle_button, track}
use packages_services_vnc_fl.Input.Pointer.Reading.{abs_at, rel_at, synced}
use packages_services_vnc_fl.Input.Codes.{abs_x, abs_y, rel_x, rel_y}

-- What every block but `track` keeps: the position once it is right, the last report complete, and
-- the relative axes untouched.
pub record Still (x y : ℤ) (d e : Device) : Type 0 where
  pub placed_x : (p : ℤ) → abs_at abs_x p d.calls ≡ x → abs_at abs_x p e.calls ≡ x
  pub placed_y : (p : ℤ) → abs_at abs_y p d.calls ≡ y → abs_at abs_y p e.calls ≡ y
  pub complete : synced d.calls ≡ true → synced e.calls ≡ true
  pub same_rel_x : (p : ℤ) → rel_at rel_x p e.calls ≡ rel_at rel_x p d.calls
  pub same_rel_y : (p : ℤ) → rel_at rel_y p e.calls ≡ rel_at rel_y p d.calls
  pub last_x : e.last_x ≡ d.last_x
  pub last_y : e.last_y ≡ d.last_y
  pub relative : e.use_relative_input ≡ d.use_relative_input
  pub touch : e.touch ≡ d.touch

module _ (k : Kernel) (mask : ℕ) (x y : ℤ) (d : Device) where
  pub left_button-Still : Still x y d (left_button k mask x y d).0
  unfolding left_button inject abs_at rel_at synced
  left_button-Still = record {
    placed_x = λ p h. ground arith;
    placed_y = λ p h. ground arith;
    complete = λ h. ground arith;
    same_rel_x = λ p. ground arith;
    same_rel_y = λ p. ground arith;
    last_x = ground arith;
    last_y = ground arith;
    relative = ground arith;
    touch = ground arith;
  }

  pub right_button-Still : Still x y d (right_button k mask x y d).0
  unfolding right_button inject press release abs_at rel_at synced
  right_button-Still = record {
    placed_x = λ p h. ground arith;
    placed_y = λ p h. ground arith;
    complete = λ h. ground arith;
    same_rel_x = λ p. ground arith;
    same_rel_y = λ p. ground arith;
    last_x = ground arith;
    last_y = ground arith;
    relative = ground arith;
    touch = ground arith;
  }

  pub middle_button-Still : Still x y d (middle_button k mask x y d).0
  unfolding middle_button inject press release abs_at rel_at synced
  middle_button-Still = record {
    placed_x = λ p h. ground arith;
    placed_y = λ p h. ground arith;
    complete = λ h. ground arith;
    same_rel_x = λ p. ground arith;
    same_rel_y = λ p. ground arith;
    last_x = ground arith;
    last_y = ground arith;
    relative = ground arith;
    touch = ground arith;
  }

  pub wheel-Still : Still x y d (wheel k mask d).0
  unfolding wheel inject abs_at rel_at synced
  wheel-Still = record {
    placed_x = λ p h. ground arith;
    placed_y = λ p h. ground arith;
    complete = λ h. ground arith;
    same_rel_x = λ p. ground arith;
    same_rel_y = λ p. ground arith;
    last_x = ground arith;
    last_y = ground arith;
    relative = ground arith;
    touch = ground arith;
  }

  pub track_complete : synced d.calls ≡ true → synced (track k x y d).0.calls ≡ true
  unfolding track inject synced
  track_complete h = ground arith

pub Still-trans : (x y : ℤ) (d e f : Device) → Still x y d e → Still x y e f → Still x y d f
Still-trans x y d e f a b = record {
  placed_x = λ p h. b.placed_x p (a.placed_x p h);
  placed_y = λ p h. b.placed_y p (a.placed_y p h);
  complete = λ h. b.complete (a.complete h);
  same_rel_x = λ p. b.same_rel_x p ∙ a.same_rel_x p;
  same_rel_y = λ p. b.same_rel_y p ∙ a.same_rel_y p;
  last_x = b.last_x ∙ a.last_x;
  last_y = b.last_y ∙ a.last_y;
  relative = b.relative ∙ a.relative;
  touch = b.touch ∙ a.touch;
}
