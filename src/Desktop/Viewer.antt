-- ===== src/Desktop/Viewer.antt =====
-- What a viewer's request for a size comes to.
use packages_services_vnc_fl.Pixels.{Floats, PixelBuffer, set_window_size}
use packages_services_vnc_fl.Pixels.Sizes.{Fits, set_window_size-Fits}
use packages_services_vnc_fl.Display.{VirtualDisplay, get_display_rect, get_width, get_height}
use packages_services_vnc_fl.Input.Kernel.{Kernel}
use packages_services_vnc_fl.Desktop.State.{Desktop, Platform, resize_display}
use packages_services_vnc_fl.Desktop.Size.{
  set_screen_layout_of, result_success, result_invalid, same_side,
}
use packages_services_vnc_fl.Desktop.InStep.{InStep, InStepOf, Follows, quiet, served_size}
use packages_services_vnc_fl.Desktop.Running.{Takes, set_screen_layout_of-success}
use packages_services_vnc_fl.Prelude.{
  ℕ, Option, ◌≡◌, ◌&&◌, ◌<◌, some, true, arith, ◌∙◌, ◌∷◌, ◌⊎◌, none, false, Bool-cases, inl, inr,
  subst, refl,
}
use packages_services_vnc_fl.Prelude.Int.{ℤ, is_positive, is_negative, pos_part, pos, negsuc}

positive_part : (z y : ℤ) → (is_positive z && is_positive y) ≡ true → 0 < pos_part z
positive_part (pos n) y h = ground arith
positive_part (negsuc n) y h = cc

module _ (fs : Floats) where
  open fs use {Float}

  -- The desktop shows itself at this size: the buffer, the virtual display with its rectangle, and
  -- what the server was given.
  pub record Shows (w h : ℕ) (d : Desktop Float) : Type 0 where
    pub buffer : PixelBuffer Float
    pub has_buffer : d.pixels ≡ some buffer
    pub fits : Fits fs buffer
    pub buffer_size : (buffer.width ≡ w) × (buffer.height ≡ h)
    pub display : VirtualDisplay
    pub has_display : d.display ≡ some display
    pub display_size : (display.width ≡ w) × (display.height ≡ h)
    pub rect : d.display_rect ≡ get_display_rect fs display
    pub served : served_size d.log ≡ some (w, h)

  shown :
      (w h : ℕ) (d : Desktop Float) (q : PixelBuffer Float) (v : Option VirtualDisplay)
      → 0 < w
      → d.pixels ≡ some q
      → d.display ≡ v
      → Fits fs q
      → q.width ≡ w
      → q.height ≡ h
      → Follows fs q v d
      → served_size d.log ≡ some (w, h)
      → Shows w h d
  shown w h d q none some_w hq hv fits ew eh f served = absurd (omega arith)
  shown w h d q (some v) some_w hq hv fits ew eh f served = record {
    buffer = q;
    has_buffer = hq;
    fits = fits;
    buffer_size = (ew, eh);
    display = v;
    has_display = hv;
    display_size = (f.0 ∙ ew, f.1 ∙ eh);
    rect = f.2;
    served = served;
  }

  module _ (k : Kernel) (pf : Platform) where
    -- On a running desktop in step whose buffer has the client's size, for every float arithmetic: a
    -- desktop with no layer asks the service to resize and refuses; else the size that the picture has
    -- and a size with a side of 0 or less are refused with nothing changed; and any other size is taken,
    -- and shown by the buffer, by a virtual display and by the server alike.
    pub set_screen_layout_resizes :
        (width height : ℤ) (d : Desktop Float) (p : PixelBuffer Float)
        → d.pixels ≡ some p
        → InStep fs d
        → Fits fs p
        → ((is_negative d.layer_id ≡ true)
            × (set_screen_layout_of fs k pf width height d
                ≡ some (record d { log = resize_display width height ∷ d.log }, result_invalid)))
          ⊎ ((is_negative d.layer_id ≡ false)
              × (((same_side width (get_width d.display_rect)
                      && same_side height (get_height d.display_rect))
                    ≡ true)
                  ⊎ ((is_positive width && is_positive height) ≡ false))
              × (set_screen_layout_of fs k pf width height d ≡ some (d, result_invalid)))
          ⊎ (Takes fs k pf width height d
              × (d' : Desktop Float) × (set_screen_layout_of fs k pf width height d
                  ≡ some (d', result_success))
              × InStep fs d'
              × Shows (pos_part width) (pos_part height) d')
    unfolding set_screen_layout_of
    set_screen_layout_resizes width height d p hp s fits =
        elim (Bool-cases (is_negative d.layer_id)) [
          | inl nowhere ↦ inl (nowhere, rw nowhere)
          | inr layer ↦
              elim (Bool-cases (
                same_side width (get_width d.display_rect)
                && same_side height (get_height d.display_rect))) [
                  | inl same ↦ inr (inl (layer, inl same, rw (layer, same)))
                  | inr new ↦ elim (Bool-cases (is_positive width && is_positive height)) [
                    | inr flat ↦ inr (inl (layer, inr flat, rw (layer, new, flat)))
                    | inl positive ↦
                        let (d', run, s', hq, served) =
                          set_screen_layout_of-success fs k pf width height d p hp s
                            (layer, new, positive) in
                        let op = set_window_size fs (pos_part width) (pos_part height) p in
                        let f = set_window_size-Fits fs (pos_part width) (pos_part height) p fits in
                        let t = subst (λ o. InStepOf fs o d') hq s' in
                        inr (
                          inr (
                            (layer, new, positive),
                            d',
                            run,
                            s',
                            shown (pos_part width) (pos_part height) d' (quiet fs op) d'.display
                                (positive_part width height positive) hq refl
                                (record { across = f.0.across; down = f.0.down }) f.1 f.2 t.3
                                (served ∙ rw (f.1, f.2)),
                          ))
                  ]
                ]
        ]
