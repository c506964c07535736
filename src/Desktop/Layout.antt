-- ===== src/Desktop/Layout.antt =====
-- `setDisplayInfo` and `updateDisplayInfo` of a desktop whose parts are in step.
use packages_services_vnc_fl.Pixels.{
  Floats, PixelBuffer, set_buffer_rotation, set_source, set_display_info, is_display_rotated,
  Rotation,
}
use packages_services_vnc_fl.Input.Kernel.{Kernel}
use packages_services_vnc_fl.Desktop.State.{Desktop, Platform, get_token, get_mode, get_state}
use packages_services_vnc_fl.Desktop.Size.{
  set_pixels_info, read_internal, read_asked, update_display_info, is_int, rotation_of,
}
use packages_services_vnc_fl.Desktop.InStep.{
  InStep, quiet, Keeps, served_size, is_present, InStep-Keeps, same_parts-Keeps,
}
use packages_services_vnc_fl.Desktop.Listening.{
  listen-Listened, set_buffer_rotation-TellsSize, set_source-TellsSize,
}
use packages_services_vnc_fl.Prelude.{
  Bool, ℕ, ◌≡◌, if◌then◌else◌, some, arith, ◌∙◌, ap, Bool-cases, inl, inr, ◌∷◌, ◌&&◌, not, false,
  Option-cases, true, sym, refl, none,
}
use packages_services_vnc_fl.Prelude.Int.{is_positive, is_negative, pos_part, pos}

module _ (fs : Floats) where
  open fs use {Float}

  -- The buffer after `setDisplayInfo`, for the listener's calls made.
  quiet-set_display_info :
      (w h : ℕ) (state : Rotation) (force : Bool) (p : PixelBuffer Float)
      → let rotated = is_display_rotated state in
        quiet fs (
          set_source fs
            (if rotated then h else w)
            (if rotated then w else h)
            force
            (quiet fs (quiet fs (set_buffer_rotation fs rotated (quiet fs p)))))
        ≡ quiet fs (set_display_info fs w h state force p)
  unfolding set_display_info
  quiet-set_display_info w h state force p = ground arith

  module _ (k : Kernel) (pf : Platform) where
    -- On a desktop in step, `setDisplayInfo` with its listener's calls runs to its end, leaves the
    -- buffer that it leaves by itself, and leaves the desktop in step.
    pub set_pixels_info-InStep :
        (force : Bool) (d : Desktop Float) (p : PixelBuffer Float)
        → InStep fs d
        → d.pixels ≡ some p
        → (d' : Desktop Float) × (set_pixels_info fs k pf force d ≡ some (d', tt))
          × InStep fs d'
          × (d'.pixels
              ≡ some (
                  quiet fs
                    (set_display_info fs d.mode_width d.mode_height d.display_state force p)))
    unfolding set_pixels_info
    set_pixels_info-InStep force d p s hp =
        let rotated = is_display_rotated d.display_state in
        let w = if rotated then d.mode_height else d.mode_width in
        let h = if rotated then d.mode_width else d.mode_height in
        let (d1, l1) =
          listen-Listened fs k pf (set_buffer_rotation fs rotated) d p
            (set_buffer_rotation-TellsSize fs rotated) hp s in
        let (d2, l2) =
          listen-Listened fs k pf (set_source fs w h force) d1
            (quiet fs (set_buffer_rotation fs rotated (quiet fs p)))
            (set_source-TellsSize fs w h force) l1.buffer l1.steps in
        (
          d2,
          ground (arith, hp, l1.runs, l2.runs),
          l2.steps,
          l2.buffer
              ∙ ap some (quiet-set_display_info d.mode_width d.mode_height d.display_state force p),
        )

    -- The display's mode and state are read, or not.
    read_internal-Keeps :
        (d : Desktop Float)
        → (d' : Desktop Float) × (known : Bool) × (read_internal fs k pf d ≡ some (d', known))
          × Keeps fs d d'
    unfolding read_internal served_size
    read_internal-Keeps d =
        let asked = record d { log = get_token ∷ d.log } in
        let moded = record asked { log = get_mode ∷ asked.log } in
        elim (Bool-cases (pf.internal_display d.log)) [
          | inr absent ↦
              (asked, false, ground (arith, absent), same_parts-Keeps fs _ _ refl refl refl)
          | inl there ↦ elim (Option-cases (pf.active_mode asked.log)) [
            | inl failed ↦ (
              moded,
              false,
              ground (arith, there, failed),
              same_parts-Keeps fs _ _ refl refl refl,
            )
            | inr (size, e) ↦
                let set = record moded {
                  mode_width = size.0;
                  mode_height = size.1;
                  log = get_state ∷ moded.log;
                } in
                elim (Option-cases (pf.display_state moded.log)) [
                  | inl failed ↦ (
                    set,
                    false,
                    ground (arith, there, e, failed),
                    same_parts-Keeps fs _ _ refl refl refl,
                  )
                  | inr (state, e') ↦ (
                    record set { display_state = state; layer_id = pos 0 },
                    true,
                    ground (arith, there, e, e'),
                    same_parts-Keeps fs _ _ refl refl refl,
                  )
                ]
          ]
        ]

    read_asked-Keeps :
        (d : Desktop Float)
        → (d' : Desktop Float) × (known : Bool) × (read_asked fs k pf d ≡ some (d', known))
          × Keeps fs d d'
    unfolding read_asked
    read_asked-Keeps d =
        elim (Bool-cases (
          is_positive d.asked_width
          && (is_positive d.asked_height && not (is_negative d.asked_rotation)))) [
            | inl valid ↦ (
              record d {
                mode_width = pos_part d.asked_width;
                mode_height = pos_part d.asked_height;
                display_state = rotation_of d.asked_rotation;
              },
              true,
              rw valid,
              same_parts-Keeps fs _ _ refl refl refl,
            )
            | inr invalid ↦ (d, false, rw invalid, same_parts-Keeps fs _ _ refl refl refl)
          ]

    read-Keeps :
        (d : Desktop Float)
        → (d' : Desktop Float) × (known : Bool) × ((if is_int d.layer_id 0
                then read_internal fs k pf
                else read_asked fs k pf)
              d
            ≡ some (d', known))
          × Keeps fs d d'
    read-Keeps d = elim (Bool-cases (is_int d.layer_id 0)) [
      | inl e ↦ rw e (read_internal-Keeps d)
      | inr e ↦ rw e (read_asked-Keeps d)
    ]

    set_pixels_info-none :
        (force : Bool) (d : Desktop Float)
        → d.pixels ≡ none
        → set_pixels_info fs k pf force d ≡ some (d, tt)
    unfolding set_pixels_info
    set_pixels_info-none force d np = rw np

    -- `updateDisplayInfo` runs to its end on a desktop in step and leaves it in step.
    pub update_display_info-InStep :
        (force : Bool) (d : Desktop Float)
        → InStep fs d
        → (d' : Desktop Float) × (known : Bool) × (update_display_info fs k pf force d
            ≡ some (d', known))
          × InStep fs d'
          × (is_present d'.pixels ≡ is_present d.pixels)
    unfolding update_display_info
    update_display_info-InStep force d s =
        let (r, known, e, keeps) = read-Keeps d in
        let s' = InStep-Keeps fs d r keeps s in
        elim (Bool-cases known) [
          | inr unknown ↦ (r, false, ground (arith, e, unknown), s', ap is_present keeps.pixels)
          | inl found ↦ elim (Option-cases r.pixels) [
            | inl np ↦ (
              r,
              true,
              ground (arith, e, found, set_pixels_info-none force r np),
              s',
              ap is_present keeps.pixels,
            )
            | inr (p, hp) ↦
                let (d', run, s'', buffer) = set_pixels_info-InStep force r p s' hp in
                (
                  d',
                  true,
                  ground (arith, e, found, run),
                  s'',
                  ap is_present buffer ∙ sym (ap is_present hp) ∙ ap is_present keeps.pixels,
                )
          ]
        ]
