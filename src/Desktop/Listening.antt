-- ===== src/Desktop/Listening.antt =====
-- What an operation of the frame buffer leaves, with its listener called or not.
use packages_services_vnc_fl.Pixels.{
  Floats, PixelBuffer, set_buffer_rotation, set_source, set_window_size,
}
use packages_services_vnc_fl.Display.{VirtualDisplay, get_display_rect, virtual_display}
use packages_services_vnc_fl.Input.Kernel.{Kernel, Device}
use packages_services_vnc_fl.Desktop.State.{
  Desktop, Platform, set_pixel_buffer, set_screen_layout, new_surface,
}
use packages_services_vnc_fl.Desktop.Size.{
  on_buffer_dimensions_changed, listen, renew_display, replace_display, take_display_rect,
  compute_screen_layout,
}
use packages_services_vnc_fl.Prelude.{
  [], List, ℕ, Bool, Option, ◌≡◌, true, arith, some, none, ◌∷◌, refl, ◌∙◌, ap, subst,
}
use packages_services_vnc_fl.Prelude.Int.{to_u32}
use packages_services_vnc_fl.Input.Lifecycle.{reconfigure}
use packages_services_vnc_fl.Desktop.InStep.{
  InStep, InStepOf, Follows, quiet, is_present, served_size,
}

module _ (fs : Floats) where
  open fs use {Float}

  -- An operation of the buffer that tells its listener of every change of size.
  pub record TellsSize (op : PixelBuffer Float → PixelBuffer Float) : Type 0 where
    pub hears : (p : PixelBuffer Float) → p.has_listener ≡ true → (op p).has_listener ≡ true
    pub tells :
        (p : PixelBuffer Float)
        → p.has_listener ≡ true
        → p.notified ≡ []
        → (op p).notified ≡ []
        → ((op p).width ≡ p.width) × ((op p).height ≡ p.height)

  pub set_buffer_rotation-TellsSize : (r : Bool) → TellsSize (set_buffer_rotation fs r)
  unfolding set_buffer_rotation
  set_buffer_rotation-TellsSize r = record {
    hears = λ p h. ground arith;
    tells = λ p h e n. ground arith;
  }

  pub set_source-TellsSize : (w h : ℕ) (force : Bool) → TellsSize (set_source fs w h force)
  unfolding set_source
  set_source-TellsSize w h force = record {
    hears = λ p l. ground arith;
    tells = λ p l e n. ground arith;
  }

  pub set_window_size-TellsSize : (w h : ℕ) → TellsSize (set_window_size fs w h)
  unfolding set_window_size
  set_window_size-TellsSize w h = record {
    hears = λ p l. ground arith;
    tells = λ p l e n. ground arith;
  }

  module _ (k : Kernel) (pf : Platform) where
    -- What the handler makes of a desktop with the buffer `p` and the input device `i`.
    renewed : Desktop Float → PixelBuffer Float → Device → Desktop Float
    renewed d p i =
        let v =
          virtual_display d.mode_width d.mode_height d.display_state p.width p.height
            (to_u32 d.layer_id) in
        record d {
          pixels = some p;
          display = some v;
          display_rect = get_display_rect fs v;
          input = some (reconfigure k d.mode_width d.mode_height d.touch d.relative i).0;
          log =
              set_screen_layout p.width p.height
              ∷ set_pixel_buffer p.width p.height
              ∷ new_surface
              ∷ d.log;
        }

    renewed-InStep :
        (d : Desktop Float) (p : PixelBuffer Float) (i : Device)
        → p.has_listener ≡ true
        → d.has_server ≡ true
        → InStep fs (renewed d p i)
    unfolding renewed served_size virtual_display
    renewed-InStep d p i hl hs = (hl, hs, refl, (refl, refl, refl, refl))

    on_buffer_dimensions_changed-renewed :
        (d : Desktop Float) (p : PixelBuffer Float) (i : Device)
        → d.pixels ≡ some p
        → d.input ≡ some i
        → d.has_server ≡ true
        → on_buffer_dimensions_changed fs k pf d ≡ some (renewed d p i, tt)
    unfolding on_buffer_dimensions_changed renew_display replace_display take_display_rect
        compute_screen_layout renewed
    on_buffer_dimensions_changed-renewed d p i hp hi hs = ground arith

    -- The desktop `d'` comes of `d` by an operation of the buffer `p`.
    pub record Listened (op : PixelBuffer Float → PixelBuffer Float) (p : PixelBuffer Float)
        (d d' : Desktop Float) : Type 0 where
      pub runs : listen fs k pf op d ≡ some (d', tt)
      pub steps : InStep fs d'
      pub buffer : d'.pixels ≡ some (quiet fs (op (quiet fs p)))
      pub layer : d'.layer_id ≡ d.layer_id
      pub mode : (d'.mode_width ≡ d.mode_width) × (d'.mode_height ≡ d.mode_height)
      pub state : d'.display_state ≡ d.display_state

    Follows-same :
        (p q : PixelBuffer Float) (v : Option VirtualDisplay) (d d' : Desktop Float)
        → q.width ≡ p.width
        → q.height ≡ p.height
        → d'.display_rect ≡ d.display_rect
        → d'.log ≡ d.log
        → Follows fs p v d
        → Follows fs q v d'
    Follows-same p q none d d' w h r l f = (w ∙ f.0, h ∙ f.1)
    Follows-same p q (some v) d d' w h r l f = ground (arith, ap served_size l)

    -- The operation told nothing.
    listen-quiet :
        (op : PixelBuffer Float → PixelBuffer Float) (d : Desktop Float) (p : PixelBuffer Float)
        → d.pixels ≡ some p
        → (op (quiet fs p)).notified ≡ []
        → listen fs k pf op d ≡ some (record d { pixels = some (quiet fs (op (quiet fs p))) }, tt)
    unfolding listen
    listen-quiet op d p hp e = rw (hp, e)

    listen-told :
        (op : PixelBuffer Float → PixelBuffer Float) (d : Desktop Float) (p : PixelBuffer Float)
        (i : Device) (told : ℕ × ℕ) (others : List (ℕ × ℕ))
        → d.pixels ≡ some p
        → d.input ≡ some i
        → d.has_server ≡ true
        → (op (quiet fs p)).notified ≡ told ∷ others
        → listen fs k pf op d
          ≡ some (
            renewed
                (record d { pixels = some (quiet fs (op (quiet fs p))) })
                (quiet fs (op (quiet fs p)))
                i,
            tt,
          )
    unfolding listen
    listen-told op d p i told others hp hi hs e =
        rw (hp, e)
          (on_buffer_dimensions_changed-renewed
            (record d { pixels = some (quiet fs (op (quiet fs p))) }) (quiet fs (op (quiet fs p))) i
            refl hi hs)

    listen-Listened_of :
        (op : PixelBuffer Float → PixelBuffer Float) (d : Desktop Float) (p : PixelBuffer Float)
        (calls : List (ℕ × ℕ)) (input : Option Device)
        → TellsSize op
        → d.pixels ≡ some p
        → d.input ≡ input
        → (op (quiet fs p)).notified ≡ calls
        → InStepOf fs (some p) d
        → (d' : Desktop Float) × Listened op p d d'
    unfolding renewed
    listen-Listened_of op d p [] input t hp hi e s =
        let same = t.tells (quiet fs p) s.0 refl e in
        (
          record d { pixels = some (quiet fs (op (quiet fs p))) },
          record {
            runs = listen-quiet op d p hp e;
            steps = (
              t.hears (quiet fs p) s.0,
              s.1,
              s.2,
              Follows-same p (quiet fs (op (quiet fs p))) d.display d
                  (record d { pixels = some (quiet fs (op (quiet fs p))) }) same.0 same.1 refl refl
                  s.3,
            );
            buffer = refl;
            layer = refl;
            mode = (refl, refl);
            state = refl;
          },
        )
    listen-Listened_of op d p (told ∷ others) none t hp hi e s = cc (ap is_present hi, s.2)
    listen-Listened_of op d p (told ∷ others) (some i) t hp hi e s = (
      renewed (record d { pixels = some (quiet fs (op (quiet fs p))) }) (quiet fs (op (quiet fs p)))
          i,
      record {
        runs = listen-told op d p i told others hp hi s.1 e;
        steps =
            renewed-InStep (record d { pixels = some (quiet fs (op (quiet fs p))) })
              (quiet fs (op (quiet fs p))) i (t.hears (quiet fs p) s.0) s.1;
        buffer = refl;
        layer = refl;
        mode = (refl, refl);
        state = refl;
      },
    )

    pub listen-Listened :
        (op : PixelBuffer Float → PixelBuffer Float) (d : Desktop Float) (p : PixelBuffer Float)
        → TellsSize op
        → d.pixels ≡ some p
        → InStep fs d
        → (d' : Desktop Float) × Listened op p d d'
    listen-Listened op d p t hp s =
        listen-Listened_of op d p (op (quiet fs p)).notified d.input t hp refl refl
          (subst (λ o. InStepOf fs o d) hp s)
