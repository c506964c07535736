-- ===== src/Desktop/Running.antt =====
-- `start`, `stop` and `setScreenLayout` of a desktop whose parts are in step.
use packages_services_vnc_fl.Pixels.{Floats, PixelBuffer, construct_buffer, set_window_size}
use packages_services_vnc_fl.Input.Kernel.{Kernel, Device}
use packages_services_vnc_fl.Desktop.State.{
  Desktop, Platform, Event, set_pixel_buffer, new_surface, no_pixel_buffer, set_screen_layout,
  resize_display, >>-run, >>=-run, serve, with_pixels, serve_lem,
}
use packages_services_vnc_fl.Desktop.Size.{
  listen, start_desktop, stop_desktop, set_screen_layout_of, compute_screen_layout, LayoutResult,
  same_side, result_success, take_window_size, result_invalid,
}
use packages_services_vnc_fl.Desktop.InStep.{
  InStep, InStepOf, quiet, served_size, InStep-Keeps, is_present, Follows, same_parts-Keeps,
}
use packages_services_vnc_fl.Desktop.Listening.{listen-Listened, set_window_size-TellsSize}
use packages_services_vnc_fl.Desktop.Layout.{update_display_info-InStep}
use packages_services_vnc_fl.Prelude.{
  ◌≡◌, true, some, none, subst, ◌∷◌, Option, Bool-cases, Option-cases, sym, inr, inl, refl, ap,
  arith, ℕ, false, ◌&&◌, ◌∙◌,
}
use packages_services_vnc_fl.Input.Lifecycle.{construct, stop}
use packages_services_vnc_fl.Prelude.Int.{ℤ, is_negative, is_positive, pos_part}
use packages_services_vnc_fl.Display.{VirtualDisplay, get_width, get_height}

module _ (fs : Floats) (k : Kernel) (pf : Platform) where
  open fs use {Float}

  -- The desktop that `start` makes before it reads the display.
  opened : Device → PixelBuffer Float → Desktop Float → Desktop Float
  opened device buffer d = record d {
    has_server = true;
    input = some (construct device);
    pixels = some (record (construct_buffer fs buffer) { has_listener = true });
  }

  opened-InStep :
      (device : Device) (buffer : PixelBuffer Float) (d : Desktop Float)
      → d.display ≡ none
      → InStep fs (opened device buffer d)
  unfolding opened construct_buffer
  opened-InStep device buffer d nd =
      let d' = opened device buffer d in
      let p = record (construct_buffer fs buffer) { has_listener = true } in
      (refl, refl, refl, subst (λ v. Follows fs p v d') (sym nd) (refl, refl))

  -- The server is given the buffer's size once more.
  served_again : Event → Desktop Float → Desktop Float
  served_again e d = record d { log = e ∷ d.log }

  Follows-served :
      (p : PixelBuffer Float) (v : Option VirtualDisplay) (e : Event) (d : Desktop Float)
      → served_size (e ∷ d.log) ≡ some (p.width, p.height)
      → Follows fs p v d
      → Follows fs p v (served_again e d)
  unfolding served_again
  Follows-served p none e d h f = f
  Follows-served p (some v) e d h f = (f.0, f.1, f.2, h)

  served_again-InStep :
      (p : PixelBuffer Float) (e : Event) (d : Desktop Float)
      → d.pixels ≡ some p
      → served_size (e ∷ d.log) ≡ some (p.width, p.height)
      → InStep fs d
      → InStep fs (served_again e d)
  unfolding served_again
  served_again-InStep p e d hp h s =
      let t = subst (λ o. InStepOf fs o d) hp s in
      subst (λ o. InStepOf fs o (record d { log = e ∷ d.log })) (sym hp)
        (t.0, t.1, t.2, Follows-served p d.display e d h t.3)

  -- `start` on a desktop that is stopped.
  pub start_desktop-InStep :
      (device : Device) (buffer : PixelBuffer Float) (d : Desktop Float)
      → d.pixels ≡ none
      → InStep fs d
      → (d' : Desktop Float) × (start_desktop fs k pf device buffer d ≡ some (d', tt))
        × InStep fs d'
        × (is_present d'.pixels ≡ true)
  unfolding start_desktop opened compute_screen_layout served_size served_again
  start_desktop-InStep device buffer d np s =
      let o = opened device buffer d in
      let nd = subst (λ p. InStepOf fs p d) np s in
      let (r, known, run, s', there) =
        update_display_info-InStep fs k pf true o (opened-InStep device buffer d nd) in
      elim (Bool-cases known) [
        | inr unknown ↦ (r, ground (arith, run, unknown), s', there)
        | inl found ↦ elim (Option-cases r.pixels) [
          | inl absent ↦ cc (ap is_present absent, there)
          | inr (p, hp) ↦
              let t = subst (λ q. InStepOf fs q r) hp s' in
              (
                served_again (set_pixel_buffer p.width p.height) r,
                ground (arith, run, found, hp, t.1),
                served_again-InStep p (set_pixel_buffer p.width p.height) r hp refl s',
                there,
              )
        ]
      ]

  pub stop_desktop-InStep :
      (d : Desktop Float) (p : PixelBuffer Float)
      → d.pixels ≡ some p
      → InStep fs d
      → (d' : Desktop Float) × (stop_desktop fs k pf d ≡ some (d', tt))
        × InStep fs d'
        × (d'.pixels ≡ none)
  unfolding stop_desktop
  stop_desktop-InStep d p hp s =
      let t = subst (λ q. InStepOf fs q d) hp s in
      elim (Option-cases d.input) [
        | inl absent ↦ cc (ap is_present absent, t.2)
        | inr (i, hi) ↦ (
          record d {
            pixels = none;
            display = none;
            input = some (stop k i).0;
            log = new_surface ∷ no_pixel_buffer ∷ d.log;
          },
          rw (t.1, hp, hi),
          refl,
          refl,
        )
      ]

  quiet-set_window_size :
      (w h : ℕ) (p : PixelBuffer Float)
      → quiet fs (set_window_size fs w h (quiet fs p)) ≡ quiet fs (set_window_size fs w h p)
  unfolding set_window_size
  quiet-set_window_size w h p = ground arith

  compute_screen_layout_lem :
      (d : Desktop Float) (p : PixelBuffer Float)
      → d.pixels ≡ some p
      → compute_screen_layout fs k pf d ≡ some (d, (p.width, p.height))
  unfolding compute_screen_layout
  compute_screen_layout_lem d p hp = simp (hp, with_pixels)

  take_window_size-InStep :
      (w h : ℕ) (d : Desktop Float) (p : PixelBuffer Float)
      → d.pixels ≡ some p
      → InStep fs d
      → (d' : Desktop Float) × (take_window_size fs k pf w h d ≡ some (d', result_success))
        × InStep fs d'
        × (d'.pixels ≡ some (quiet fs (set_window_size fs w h p)))
        × (served_size d'.log
            ≡ some ((set_window_size fs w h p).width, (set_window_size fs w h p).height))
  unfolding take_window_size compute_screen_layout served_size served_again
  take_window_size-InStep w h d p hp s =
      let op = set_window_size fs w h in
      let q = quiet fs (op (quiet fs p)) in
      let (d1, l) = listen-Listened fs k pf op d p (set_window_size-TellsSize fs w h) hp s in
      let t = subst (λ o. InStepOf fs o d1) l.buffer l.steps in
      (
        served_again (set_screen_layout q.width q.height) d1,
        >>-run (listen fs k pf op) _ l.runs (
            >>=-run (compute_screen_layout fs k pf) _ (compute_screen_layout_lem d1 q l.buffer) (
              >>-run (serve (set_screen_layout q.width q.height)) _
                (serve_lem (set_screen_layout q.width q.height) d1 t.1) refl)),
        served_again-InStep q (set_screen_layout q.width q.height) d1 l.buffer refl l.steps,
        l.buffer ∙ ap some (quiet-set_window_size w h p),
        ap (λ (b : PixelBuffer Float). some (b.width, b.height)) (quiet-set_window_size w h p),
      )

  -- A size that the desktop takes.
  abbrev pub Takes : ℤ → ℤ → Desktop Float → Type 0
  Takes width height d =
      (is_negative d.layer_id ≡ false)
      × ((same_side width (get_width d.display_rect)
            && same_side height (get_height d.display_rect))
          ≡ false)
      × ((is_positive width && is_positive height) ≡ true)

  pub set_screen_layout_of-success :
      (width height : ℤ) (d : Desktop Float) (p : PixelBuffer Float)
      → d.pixels ≡ some p
      → InStep fs d
      → Takes width height d
      → (d' : Desktop Float) × (set_screen_layout_of fs k pf width height d
          ≡ some (d', result_success))
        × InStep fs d'
        × (d'.pixels ≡ some (quiet fs (set_window_size fs (pos_part width) (pos_part height) p)))
        × (served_size d'.log
            ≡ some (
              (set_window_size fs (pos_part width) (pos_part height) p).width,
              (set_window_size fs (pos_part width) (pos_part height) p).height,
            ))
  unfolding set_screen_layout_of
  set_screen_layout_of-success width height d p hp s (layer, new, positive) =
      rw (layer, new, positive)
        (take_window_size-InStep (pos_part width) (pos_part height) d p hp s)

  pub set_screen_layout_of-InStep :
      (width height : ℤ) (d : Desktop Float) (p : PixelBuffer Float)
      → d.pixels ≡ some p
      → InStep fs d
      → (d' : Desktop Float) × (r : LayoutResult) × (set_screen_layout_of fs k pf width height d
          ≡ some (d', r))
        × InStep fs d'
        × (is_present d'.pixels ≡ true)
  unfolding set_screen_layout_of served_size
  set_screen_layout_of-InStep width height d p hp s = elim (Bool-cases (is_negative d.layer_id)) [
    | inl none_there ↦ (
      record d { log = resize_display width height ∷ d.log },
      result_invalid,
      rw none_there,
      InStep-Keeps fs d (record d { log = resize_display width height ∷ d.log })
          (same_parts-Keeps fs _ _ refl refl refl) s,
      ap is_present hp,
    )
    | inr layer ↦
        elim (Bool-cases (
          same_side width (get_width d.display_rect)
          && same_side height (get_height d.display_rect))) [
            | inl same ↦ (d, result_invalid, rw (layer, same), s, ap is_present hp)
            | inr new ↦ elim (Bool-cases (is_positive width && is_positive height)) [
              | inl positive ↦
                  let (d', run, s', buffer, served) =
                    set_screen_layout_of-success width height d p hp s (layer, new, positive) in
                  (d', result_success, run, s', ap is_present buffer)
              | inr flat ↦ (d, result_invalid, rw (layer, new, flat), s, ap is_present hp)
            ]
          ]
  ]
