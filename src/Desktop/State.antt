-- ===== src/Desktop/State.antt =====
-- The state of an AndroidDesktop, and the monad of its methods. The RFB server, the Java service,
-- SurfaceFlinger and the event descriptor are not part of the program: `log` has the calls to them,
-- newest first, and `Platform` answers those that return something from the calls before them.
use packages_services_vnc_fl.Pixels.{PixelBuffer, Rotation}
use packages_services_vnc_fl.Display.{Rect, VirtualDisplay}
use packages_services_vnc_fl.Input.Kernel.{Device}
use packages_services_vnc_fl.Prelude.{
  none, some, if◌then◌else◌, List, Option, ℕ, Bool, ◌∷◌, ◌≡◌, true,
}
use packages_services_vnc_fl.Prelude.Int.{ℤ}

pub record Cursor : Type 0 where
  pub width : ℕ
  pub height : ℕ
  pub hot_x : ℤ
  pub hot_y : ℤ
  pub buffer : ℕ

-- The sizes of `set_pixel_buffer` and `set_screen_layout` are those of the one screen that they carry.
pub data Event : Type 0 where
  new_surface get_clipboard request_clipboard no_pixel_buffer notify_event lock_buffer : Event
  get_token get_mode get_state terminate_process : Event
  resize_display : ℤ → ℤ → Event
  set_clipboard send_clipboard : List ℕ → Event
  announce_clipboard : Bool → Event
  server_cursor : Cursor → Event
  cursor_pos set_pixel_buffer set_screen_layout image_rect unlock_buffer add_changed : ℕ → ℕ → Event
  approve_connection : ℕ → Event

-- `none` is the failure of the call.
pub record Platform : Type 0 where
  pub internal_display : List Event → Bool
  pub active_mode : List Event → Option (ℕ × ℕ)
  pub display_state : List Event → Option Rotation
  pub next_buffer : List Event → Option (ℕ × ℕ)
  pub clipboard : List Event → List ℕ

-- `pixels`, `display` and `input` are the strong pointers, `none` while they are null; `has_server`
-- tells whether `mServer` has been set. `asked_…` are `_width`, `_height` and `_rotation`.
pub record Desktop (F : Type 0) : Type 0 where
  pub layer_id : ℤ
  pub asked_width : ℤ
  pub asked_height : ℤ
  pub asked_rotation : ℤ
  pub touch : Bool
  pub relative : Bool
  pub pixels : Option (PixelBuffer F)
  pub display : Option VirtualDisplay
  pub display_rect : Rect
  pub mode_width : ℕ
  pub mode_height : ℕ
  pub display_state : Rotation
  pub input : Option Device
  pub frame_changed : Bool
  pub cursor_changed : Bool
  pub clipboard_changed : Bool
  pub cursor : Cursor
  pub has_server : Bool
  pub log : List Event

-- A method; `none` is the use of a null pointer.
abbrev pub M : Type 0 → Type 0 → Type 0
M F A = Desktop F → Option (Desktop F × A)

module _ {F : Type 0} where
  infixl 5 ◌>>=◌ ◌>>◌
  abbrev pub ◌>>=◌ : {A B : Type 0} → M F A → (A → M F B) → M F B
  ◌>>=◌ m f d = elim (m d) [ none ↦ none | some (d', a) ↦ f a d' ]

  abbrev pub ◌>>◌ : {A B : Type 0} → M F A → M F B → M F B
  ◌>>◌ m f d = elim (m d) [ none ↦ none | some (d', a) ↦ f d' ]

  abbrev pub pure : {A : Type 0} → A → M F A
  pure a d = some (d, a)

  abbrev pub modify : (Desktop F → Desktop F) → M F (Unit {0})
  modify f d = some (f d, tt)

  abbrev pub emit : Event → M F (Unit {0})
  emit e d = some (record d { log = e ∷ d.log }, tt)

  -- A call of the server, through the pointer `mServer`.
  abbrev pub serve : Event → M F (Unit {0})
  serve e d = if d.has_server then some (record d { log = e ∷ d.log }, tt) else none

  -- A use of `mPixels`, and of `mInputDevice`.
  abbrev pub with_pixels : {A : Type 0} → (PixelBuffer F → M F A) → M F A
  with_pixels f d = elim d.pixels [ none ↦ none | some p ↦ f p d ]

  abbrev pub on_input : (Device → Device) → M F (Unit {0})
  on_input f d = elim d.input [ none ↦ none | some i ↦ some (record d { input = some (f i) }, tt) ]

  -- The run of a method from the runs of its steps.
  pub >>-run :
      {A B : Type 0} (m : M F A) (f : M F B) {d d' : Desktop F} {a : A} {r : Option (Desktop F × B)}
      → m d ≡ some (d', a)
      → f d' ≡ r
      → (m >> f) d ≡ r
  >>-run m f e h = rw (e, ◌>>◌) h

  pub >>=-run :
      {A B : Type 0} (m : M F A) (f : A → M F B) {d d' : Desktop F} {a : A}
      {r : Option (Desktop F × B)}
      → m d ≡ some (d', a)
      → f a d' ≡ r
      → (m >>= f) d ≡ r
  >>=-run m f e h = rw (e, ◌>>=◌) h

  pub serve_lem :
      (e : Event) (d : Desktop F)
      → d.has_server ≡ true
      → serve e d ≡ some (record d { log = e ∷ d.log }, tt)
  serve_lem e d h = simp (h, serve)

  pub on_input_lem :
      (f : Device → Device) (d : Desktop F) (i : Device)
      → d.input ≡ some i
      → on_input f d ≡ some (record d { input = some (f i) }, tt)
  on_input_lem f d i h = simp (h, on_input)
