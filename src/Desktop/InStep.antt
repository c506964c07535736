-- ===== src/Desktop/InStep.antt =====
-- That the display, its rectangle and the server keep the size of the frame buffer.
use packages_services_vnc_fl.Pixels.{Floats, PixelBuffer}
use packages_services_vnc_fl.Display.{VirtualDisplay, get_display_rect}
use packages_services_vnc_fl.Desktop.State.{
  Desktop, Event, set_pixel_buffer, set_screen_layout, no_pixel_buffer,
}
use packages_services_vnc_fl.Prelude.{
  [], List, ℕ, Bool, Option, ◌≡◌, false, true, some, none, ◌∷◌, ◌∙◌, subst, sym, ap,
}

-- The size that the server was given last; none after `setPixelBuffer(0)`.
unfoldable pub served_size : List Event → Option (ℕ × ℕ)
served_size [] = none
served_size (set_pixel_buffer w h ∷ es) = some (w, h)
served_size (set_screen_layout w h ∷ es) = some (w, h)
served_size (no_pixel_buffer ∷ es) = none
served_size (_ ∷ es) = served_size es

abbrev pub is_present {ℓ} : {A : Type ℓ} → Option A → Bool
is_present none = false
is_present (some _) = true

module _ (fs : Floats) where
  open fs use {Float}

  -- With no display yet the buffer is empty; else the display, its rectangle and what the server was
  -- given follow the buffer.
  abbrev pub Follows : PixelBuffer Float → Option VirtualDisplay → Desktop Float → Type 0
  Follows p none d = (p.width ≡ 0) × (p.height ≡ 0)
  Follows p (some v) d =
      (v.width ≡ p.width)
      × (v.height ≡ p.height)
      × (d.display_rect ≡ get_display_rect fs v)
      × (served_size d.log ≡ some (p.width, p.height))

  abbrev pub InStepOf : Option (PixelBuffer Float) → Desktop Float → Type 0
  InStepOf none d = d.display ≡ none
  InStepOf (some p) d =
      (p.has_listener ≡ true)
      × (d.has_server ≡ true)
      × (is_present d.input ≡ true)
      × Follows p d.display d

  -- A desktop that runs has a server and an input device; one that does not has no display.
  abbrev pub InStep : Desktop Float → Type 0
  InStep d = InStepOf d.pixels d

  abbrev pub quiet : PixelBuffer Float → PixelBuffer Float
  quiet b = record b { notified = [] }

  -- A change that keeps what `InStep` is about.
  pub record Keeps (d d' : Desktop Float) : Type 0 where
    pub pixels : d'.pixels ≡ d.pixels
    pub display : d'.display ≡ d.display
    pub rect : d'.display_rect ≡ d.display_rect
    pub input : is_present d'.input ≡ is_present d.input
    pub server : d'.has_server ≡ d.has_server
    pub served : served_size d'.log ≡ served_size d.log

  -- A change of other parts only.
  pub same_parts-Keeps :
      (d d' : Desktop Float)
      → d' ≡ record d' {
        pixels = d.pixels;
        display = d.display;
        display_rect = d.display_rect;
        has_server = d.has_server;
      }
      → is_present d'.input ≡ is_present d.input
      → served_size d'.log ≡ served_size d.log
      → Keeps d d'
  same_parts-Keeps d d' f i s = record {
    pixels = ap (λ (x : Desktop Float). x.pixels) f;
    display = ap (λ (x : Desktop Float). x.display) f;
    rect = ap (λ (x : Desktop Float). x.display_rect) f;
    input = i;
    server = ap (λ (x : Desktop Float). x.has_server) f;
    served = s;
  }

  Follows-Keeps :
      (p : PixelBuffer Float) (v : Option VirtualDisplay) (d d' : Desktop Float)
      → Keeps d d'
      → Follows p v d
      → Follows p v d'
  Follows-Keeps p none d d' k f = f
  Follows-Keeps p (some v) d d' k f = (f.0, f.1, k.rect ∙ f.2, k.served ∙ f.3)

  InStepOf-Keeps :
      (p : Option (PixelBuffer Float)) (d d' : Desktop Float)
      → Keeps d d'
      → InStepOf p d
      → InStepOf p d'
  InStepOf-Keeps none d d' k s = k.display ∙ s
  InStepOf-Keeps (some p) d d' k s = (
    s.0,
    k.server ∙ s.1,
    k.input ∙ s.2,
    subst (λ v. Follows p v d') (sym k.display) (Follows-Keeps p d.display d d' k s.3),
  )

  pub InStep-Keeps : (d d' : Desktop Float) → Keeps d d' → InStep d → InStep d'
  InStep-Keeps d d' k s =
      subst (λ o. InStepOf o d') (sym k.pixels) (InStepOf-Keeps d.pixels d d' k s)
