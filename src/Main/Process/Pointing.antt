-- ===== src/Main/Process/Pointing.antt =====
-- A viewer's pointer, from the RFB server through the desktop to the kernel.
use packages_services_vnc_fl.Main.Arguments.{Params}
use packages_services_vnc_fl.Main.Process.{Process, serve_call, with_env}
use packages_services_vnc_fl.Main.Process.Invariant.{with_env-runs}
use packages_services_vnc_fl.Pixels.{Floats, PixelBuffer}
use packages_services_vnc_fl.Display.Viewport.{IsCentred}
use packages_services_vnc_fl.Input.Kernel.{Kernel, Device}
use packages_services_vnc_fl.Input.Codes.{abs_x, abs_y}
use packages_services_vnc_fl.Input.Pointer.{pointer_event, bit}
use packages_services_vnc_fl.Input.Pointer.Reading.{
  abs_at, down, left_code, right_code, middle_code,
}
use packages_services_vnc_fl.Input.Pointer.Position.{pointer_event_absolute}
use packages_services_vnc_fl.Input.Pointer.Buttons.{Agrees, SameModes, pointer_event_buttons}
use packages_services_vnc_fl.Desktop.State.{Desktop, Platform, cursor_pos}
use packages_services_vnc_fl.Desktop.Server.{outside, desktop_pointer_event}
use packages_services_vnc_fl.Desktop.History.{make_call, moves, left_by}
use packages_services_vnc_fl.Desktop.Pointer.{IsScaling, desktop_pointer_event_bounds}
use packages_services_vnc_fl.Prelude.{
  ℕ, ◌∷◌, ◌≡◌, ◌≤◌, ◌<◌, ◌^◌, ◌⊎◌, inl, inr, true, false, some, ap, ◌∙◌, not, ◌||◌,
}
use packages_services_vnc_fl.Prelude.Int.{ℤ, pos}

module _ (ps : Params) (fs : Floats) (k : Kernel) (pf : Platform) (laws : IsScaling fs) where
  open fs use {Float}

  -- The kernel has the pointer at (x, y), from wherever it was, and the buttons of the mask down.
  pub record Points (d j : Device) (mask x y : ℕ) : Type 0 where
    pub at_x : (p : ℤ) → abs_at abs_x p j.calls ≡ pos x
    pub at_y : (p : ℤ) → abs_at abs_y p j.calls ≡ pos y
    pub left : down (left_code d.touch) j.calls ≡ bit mask 1
    pub right : down (right_code d.touch) j.calls ≡ bit mask 4
    pub middle : down (middle_code d.touch) j.calls ≡ bit mask 2
    pub agrees : Agrees j
    pub modes : SameModes d j

  pointer_event-Points :
      (mask x y : ℕ) (i : Device)
      → i.opened ≡ true
      → i.use_relative_input ≡ false
      → (not i.touch || (bit mask 1 || i.left_clicked)) ≡ true
      → Agrees i
      → Points i (pointer_event k mask (pos x) (pos y) i).0 mask x y
  pointer_event-Points mask x y i opened absolute contact agrees =
      let b = pointer_event_buttons k mask (pos x) (pos y) i opened agrees in
      let at =
        λ (p : ℤ). pointer_event_absolute k mask (pos x) (pos y) i p p opened absolute contact in
      record {
        at_x = λ p. (at p).0;
        at_y = λ p. (at p).1;
        left = b.2;
        right = b.3;
        middle = b.4;
        agrees = b.0;
        modes = b.1;
      }

  serve_call-moves :
      (px py : ℤ) (mask : ℕ) (p : Process ps fs k pf) (d d' : Desktop Float)
      → p.env ≡ true
      → p.desktop ≡ some d
      → desktop_pointer_event fs k pf px py mask d ≡ some (d', tt)
      → serve_call ps fs k pf (moves px py mask) p ≡ some (record p { desktop = some d' })
  unfolding serve_call make_call
  serve_call-moves px py mask p d d' env hd e =
      rw hd (ap (λ o. with_env ps fs k pf p d (left_by o)) e ∙ with_env-runs ps fs k pf p d d' env)

  -- With `gEnv` set, a started desktop whose rectangle has sides that are not empty and lies
  -- centred in a buffer with sides below 2 ^ 16, a display mode below 2 ^ 16, and an input device
  -- that is open in absolute mode, agrees with its log and, if it is a touchscreen, has a contact:
  -- a pointer event of a viewer outside the rectangle changes nothing. One inside, edges included,
  -- leaves the kernel with the pointer at one position of which neither coordinate is more than the
  -- display's side, so that it can be one past the last column or row, and which is the one that the
  -- server is told, and with exactly those of the three
  -- buttons down that the mask has.
  pub viewer_moves_pointer :
      (p : Process ps fs k pf) (d : Desktop Float) (b : PixelBuffer Float) (i : Device) (px py : ℤ)
      (mask : ℕ)
      → p.env ≡ true
      → p.desktop ≡ some d
      → d.pixels ≡ some b
      → d.input ≡ some i
      → d.has_server ≡ true
      → (c : IsCentred b.width b.height d.display_rect) → (0 < c.out_width) × (0 < c.out_height)
      → (b.width < 2 ^ 16) × (b.height < 2 ^ 16)
      → (d.mode_width < 2 ^ 16) × (d.mode_height < 2 ^ 16)
      → i.opened ≡ true
      → i.use_relative_input ≡ false
      → (not i.touch || (bit mask 1 || i.left_clicked)) ≡ true
      → Agrees i
      → ((outside d.display_rect px py ≡ true)
          × (serve_call ps fs k pf (moves px py mask) p ≡ some (record p { desktop = some d })))
        ⊎ ((outside d.display_rect px py ≡ false)
            × (x : ℕ) × (y : ℕ) × (j : Device) × (x ≤ d.mode_width)
            × (y ≤ d.mode_height)
            × (serve_call ps fs k pf (moves px py mask) p
                ≡ some (record p {
                  desktop = some (record d { input = some j; log = cursor_pos x y ∷ d.log });
                }))
            × Points i j mask x y)
  viewer_moves_pointer p d b i px py mask env hd hb hi hs c sides small small_mode opened absolute
        contact agrees =
      elim (desktop_pointer_event_bounds fs k pf laws d b hb c sides small small_mode i hi hs px py
        mask) [
          | inl (out, e) ↦ inl (out, serve_call-moves px py mask p d d env hd e)
          | inr (inside, x, y, bx, by, e) ↦ inr (
            inside,
            x,
            y,
            (pointer_event k mask (pos x) (pos y) i).0,
            bx,
            by,
            serve_call-moves px py mask p d _ env hd e,
            pointer_event-Points mask x y i opened absolute contact agrees,
          )
        ]
