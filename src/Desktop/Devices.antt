-- ===== src/Desktop/Devices.antt =====
-- What the calls of a desktop make of its input device and of its log: a property that every method
-- of InputDevice keeps, as AndroidDesktop calls them, and every other call that the desktop makes, holds
-- after any history.
pub mod Sizes
pub mod Methods
pub mod Histories
use packages_services_vnc_fl.Pixels.{Floats, PixelBuffer}
use packages_services_vnc_fl.Input.Kernel.{Kernel, Device}
use packages_services_vnc_fl.Desktop.State.{
  lock_buffer, image_rect, unlock_buffer, add_changed, Desktop, Platform, M, ◌>>=◌, serve, on_input,
  with_pixels, Event, set_pixel_buffer, set_screen_layout,
}
use packages_services_vnc_fl.Desktop.Size.{
  renew_display, compute_screen_layout, on_buffer_dimensions_changed,
}
use packages_services_vnc_fl.Input.Lifecycle.{reconfigure, construct, stop}
use packages_services_vnc_fl.Input.Keyboard.{key_event}
use packages_services_vnc_fl.Input.Pointer.{pointer_event}
use packages_services_vnc_fl.Prelude.Int.{ℤ}
use packages_services_vnc_fl.Prelude.{
  List, ◌∷◌, [], subst, Option, Bool, ℕ, none, false, some, ◌≡◌, inl, inr, Option-cases, Bool-cases,
  true,
}

-- The calls that draw a frame; all others are quiet.
abbrev pub is_quiet : Event → Bool
is_quiet lock_buffer = false
is_quiet (image_rect _ _) = false
is_quiet (unlock_buffer _ _) = false
is_quiet (add_changed _ _) = false
is_quiet _ = true

-- A property of the input device and the log that is kept by what AndroidDesktop does with them: the
-- methods of the device, but for a `start` on an open one, the calls of the log, and a frame. The memory
-- of a new device passes the test `fits`.
pub record Steady (k : Kernel) (pf : Platform) (fits : Device → Bool)
    (Q : Option Device → List Event → Type 0) : Type 0 where
  pub begins : Q none []
  pub constructs :
      (fresh : Device) (o : Option Device) (l : List Event)
      → fits fresh ≡ true
      → Q o l
      → Q (some (construct fresh)) l
  pub stops : (i : Device) (l : List Event) → Q (some i) l → Q (some (stop k i).0) l
  pub configures :
      (w h : ℕ) (touch relative : Bool) (i : Device) (l : List Event)
      → Q (some i) l
      → Q (some (reconfigure k w h touch relative i).0) l
  pub types :
      (down : Bool) (keysym : ℕ) (i : Device) (l : List Event)
      → Q (some i) l
      → Q (some (key_event k down keysym i).0) l
  pub points :
      (mask : ℕ) (x y : ℤ) (i : Device) (l : List Event)
      → Q (some i) l
      → Q (some (pointer_event k mask x y i).0) l
  pub emits :
      (e : Event) (o : Option Device) (l : List Event) → is_quiet e ≡ true → Q o l → Q o (e ∷ l)
  pub misses :
      (o : Option Device) (l : List Event) → pf.next_buffer l ≡ none → Q o l → Q o (lock_buffer ∷ l)
  pub draws :
      (w h : ℕ) (o : Option Device) (l : List Event)
      → pf.next_buffer l ≡ some (w, h)
      → Q o l
      → Q o (add_changed w h ∷ unlock_buffer w h ∷ image_rect w h ∷ lock_buffer ∷ l)

module _ {F : Type 0} (Q : Option Device → List Event → Type 0) where
  -- The property of a desktop.
  abbrev pub Good : Desktop F → Type 0
  Good d = Q d.input d.log

  -- A run that ends leaves a desktop with the property.
  unfoldable pub Leaves : {A : Type 0} → Option (Desktop F × A) → Type 0
  Leaves none = Unit {0}
  Leaves (some (d, a)) = Good d

  pub done-Leaves : {A : Type 0} (d : Desktop F) (a : A) → Good d → Leaves (some (d, a))
  unfolding Leaves
  done-Leaves d a h = h

  pub then-Leaves :
      {A B : Type 0} (m : M F A) (f : A → M F B) (d : Desktop F)
      → Leaves (m d)
      → ((a : A) (d' : Desktop F) → Good d' → Leaves (f a d'))
      → Leaves ((m >>= f) d)
  unfolding Leaves
  then-Leaves m f d h g = elim (Option-cases (m d)) [
    | inl e ↦ rw (e, ◌>>=◌) tt
    | inr ((d', a), e) ↦ rw (e, ◌>>=◌) (g a d' (rw e at h))
  ]

  pub on_input-Leaves :
      (f : Device → Device) (d : Desktop F)
      → ((i : Device) (l : List Event) → Q (some i) l → Q (some (f i)) l)
      → Good d
      → Leaves (on_input f d)
  unfolding Leaves
  on_input-Leaves f d keep h = elim (Option-cases d.input) [
    | inl e ↦ simp (e, on_input) tt
    | inr (i, e) ↦ simp (e, on_input) (keep i d.log (subst (λ o. Q o d.log) e h))
  ]

  pub with_pixels-Leaves :
      {A : Type 0} (f : PixelBuffer F → M F A) (d : Desktop F)
      → ((p : PixelBuffer F) → Leaves (f p d))
      → Leaves (with_pixels f d)
  unfolding Leaves
  with_pixels-Leaves f d g = elim (Option-cases d.pixels) [
    | inl e ↦ simp (e, with_pixels) tt
    | inr (p, e) ↦ simp (e, with_pixels) (g p)
  ]

  pub serve-Leaves :
      {k : Kernel} {pf : Platform} {fits : Device → Bool} (s : Steady k pf fits Q) (e : Event)
      (d : Desktop F)
      → is_quiet e ≡ true
      → Good d
      → Leaves (serve e d)
  unfolding Leaves
  serve-Leaves s e d quiet h = elim (Bool-cases d.has_server) [
    | inl y ↦ simp (y, serve) (s.emits e d.input d.log quiet h)
    | inr n ↦ simp (n, serve) tt
  ]
