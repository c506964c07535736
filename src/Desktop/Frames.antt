-- ===== src/Desktop/Frames.antt =====
-- `processFrames` of a desktop whose parts are in step.
use packages_services_vnc_fl.Pixels.{Floats, PixelBuffer}
use packages_services_vnc_fl.Input.Kernel.{Kernel}
use packages_services_vnc_fl.Desktop.State.{
  Desktop, Platform, ◌>>◌, >>-run, serve, with_pixels, emit, add_changed, unlock_buffer, image_rect,
  lock_buffer,
}
use packages_services_vnc_fl.Desktop.Size.{update_display_info}
use packages_services_vnc_fl.Desktop.Server.{draw_frame, process_frames, take_frame}
use packages_services_vnc_fl.Desktop.InStep.{
  InStep, InStepOf, served_size, Keeps, InStep-Keeps, is_present, same_parts-Keeps,
}
use packages_services_vnc_fl.Desktop.Layout.{update_display_info-InStep}
use packages_services_vnc_fl.Prelude.{
  ◌≡◌, ℕ, some, true, Option-cases, ◌∷◌, inl, inr, Bool-cases, refl, false, ap, subst, ◌∙◌, sym,
}

module _ (fs : Floats) (k : Kernel) (pf : Platform) where
  open fs use {Float}

  -- What is drawn of a locked buffer.
  drawn : ℕ → ℕ → Desktop Float → Desktop Float
  drawn w h d = record d {
    log = add_changed w h ∷ unlock_buffer w h ∷ image_rect w h ∷ lock_buffer ∷ d.log;
  }

  draw_frame-Keeps :
      (d : Desktop Float) (p : PixelBuffer Float)
      → d.pixels ≡ some p
      → d.has_server ≡ true
      → (d' : Desktop Float) × (draw_frame fs k pf d ≡ some (d', tt)) × Keeps fs d d'
  unfolding draw_frame drawn served_size
  draw_frame-Keeps d p hp hs = elim (Option-cases (pf.next_buffer d.log)) [
    | inl failed ↦ (
      record d { log = lock_buffer ∷ d.log },
      simp (failed, draw_frame),
      same_parts-Keeps fs _ _ refl refl refl,
    )
    | inr (size, e) ↦ (
      drawn size.0 size.1 d,
      simp (e, hp, hs, draw_frame, with_pixels, serve, ◌>>◌, emit),
      same_parts-Keeps fs _ _ refl refl refl,
    )
  ]

  take_frame-InStep :
      (d : Desktop Float) (p : PixelBuffer Float)
      → d.pixels ≡ some p
      → InStep fs d
      → (d' : Desktop Float) × (take_frame fs k pf d ≡ some (d', tt))
        × InStep fs d'
        × (is_present d'.pixels ≡ true)
  unfolding take_frame
  take_frame-InStep d p hp s =
      let c = record d { frame_changed = false } in
      let same : Keeps fs d c = same_parts-Keeps fs _ _ refl refl refl in
      let (r, known, run, s', there) =
        update_display_info-InStep fs k pf false c (InStep-Keeps fs d c same s) in
      elim (Option-cases r.pixels) [
        | inl none_left ↦ cc (ap is_present none_left, there, ap is_present hp)
        | inr (q, hq) ↦
            let t = subst (λ o. InStepOf fs o r) hq s' in
            let (d', drew, keeps) = draw_frame-Keeps r q hq t.1 in
            (
              d',
              >>-run (update_display_info fs k pf false) (draw_frame fs k pf) run drew,
              InStep-Keeps fs r d' keeps s',
              ap is_present keeps.pixels ∙ ap is_present hq,
            )
      ]

  pub process_frames-InStep :
      (d : Desktop Float)
      → InStep fs d
      → (d' : Desktop Float) × (process_frames fs k pf d ≡ some (d', tt))
        × InStep fs d'
        × (is_present d'.pixels ≡ is_present d.pixels)
  unfolding process_frames
  process_frames-InStep d s = elim (Option-cases d.display) [
    | inl nd ↦ (d, simp (nd, process_frames), s, refl)
    | inr (v, hv) ↦ elim (Option-cases d.pixels) [
      | inl np ↦ (d, simp (hv, np, process_frames), s, refl)
      | inr (p, hp) ↦ elim (Bool-cases d.frame_changed) [
        | inr same ↦ (d, simp (hv, hp, same, process_frames), s, refl)
        | inl new ↦
            let (d', run, s', there) = take_frame-InStep d p hp s in
            (d', simp (hv, hp, new, process_frames) run, s', there ∙ sym (ap is_present hp))
      ]
    ]
  ]
