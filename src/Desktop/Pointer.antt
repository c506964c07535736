-- ===== src/Desktop/Pointer.antt =====
-- Where `pointerEvent` of the desktop puts a viewer's pointer.
use packages_services_vnc_fl.Pixels.{Floats, PixelBuffer}
use packages_services_vnc_fl.Display.{sub32, get_width, get_height}
use packages_services_vnc_fl.Input.Kernel.{Kernel, Device}
use packages_services_vnc_fl.Desktop.State.{
  Platform, Desktop, cursor_pos, >>-run, with_pixels, serve, serve_lem, on_input_lem,
}
use packages_services_vnc_fl.Desktop.Server.{
  scaled, half, int_lt, outside, send_pointer, desktop_pointer_event,
}
use packages_services_vnc_fl.Prelude.Int.{to_u32 as wrap_u32, ℤ, i32, ◌-ℤ◌, signed32, pos, negsuc}
use packages_services_vnc_fl.Prelude.{
  ℕ, ◌+◌, ◌≤◌, ◌<◌, ◌^◌, ◌*◌, ◌≡◌, arith, false, ◌-◌, ◌%◌, ap, ◌∙◌, some, sym, subst, true, ◌∷◌,
  ◌⊎◌, Bool-cases, inl, inr,
}
use packages_services_vnc_fl.Display.Viewport.{IsCentred}
use packages_services_vnc_fl.Input.Pointer.{pointer_event}

module _ (fs : Floats) where
  open fs use {Float, of_u32, to_u32, over}

  -- What IEEE arithmetic promises of a quotient by an integer below 2 ^ 16: the order is kept, and a
  -- product is taken back to at most the factor.
  pub record IsScaling : Type 1 where
    pub Le : Float → Float → Type 0
    pub of_u32-mono : (m n : ℕ) → m ≤ n → Le (of_u32 m) (of_u32 n)
    pub to_u32-mono : (x y : Float) → Le x y → to_u32 x ≤ to_u32 y
    pub over-mono :
        (x y : Float) (q : ℕ) → 0 < q → Le x y → Le (over x (of_u32 q)) (over y (of_u32 q))
    pub over-product :
        (m q : ℕ) → m < 2 ^ 16 → 0 < q → q < 2 ^ 16 → to_u32 (over (of_u32 (q * m)) (of_u32 q)) ≤ m

-- One axis of a rectangle that lies in the middle of `whole`.
module _ (whole off out : ℕ) (placed : (off + out + off ≤ whole) × (whole ≤ off + out + off + 1))
    (small : whole < 2 ^ 16) where
  side_lem : i32 (pos (off + out) -ℤ pos off) ≡ pos out
  unfolding i32 ◌-ℤ◌ wrap_u32 signed32
  side_lem = ground arith

  offset_lem : wrap_u32 (half (pos whole -ℤ pos out)) ≡ off
  unfolding ◌-ℤ◌ wrap_u32
  offset_lem = ground arith

  -- A position that the test lets through.
  position_lem :
      (z : ℤ)
      → int_lt z (pos off) ≡ false
      → int_lt (pos (off + out)) z ≡ false
      → (n : ℕ) × (z ≡ pos (off + n)) × (n ≤ out)
  position_lem (pos m) l r = (m - off, ground arith, ground arith)
  position_lem (negsuc m) l r = absurd (ground arith)

mul_lt : (a b : ℕ) → a < 2 ^ 16 → b < 2 ^ 16 → a * b < 2 ^ 32
mul_lt a b ha hb = grind arith

mul_le : (a b c : ℕ) → a ≤ b → a * c ≤ b * c
mul_le a b c h = grind arith

difference :
    (whole off out n : ℕ)
    → (off + out + off ≤ whole) × (whole ≤ off + out + off + 1)
    → whole < 2 ^ 16
    → n ≤ out
    → sub32 (wrap_u32 (pos (off + n))) (wrap_u32 (half (pos whole -ℤ pos out))) ≡ n
unfolding wrap_u32
difference whole off out n placed small le =
    ap (λ o. sub32 (wrap_u32 (pos (off + n))) o) (offset_lem whole off out placed small)
    ∙ omega arith

signed32-small : (n : ℕ) → n < 2 ^ 31 → signed32 n ≡ pos n
unfolding signed32
signed32-small n h = ground arith

module _ (fs : Floats) (k : Kernel) (pf : Platform) (laws : IsScaling fs) where
  open fs use {Float, of_u32, to_u32, over}
  open laws use {Le, of_u32-mono, to_u32-mono, over-mono, over-product}

  -- A position in the rectangle is taken to at most the display's sides.
  scaled-le :
      (whole off out mode n : ℕ)
      → (off + out + off ≤ whole) × (whole ≤ off + out + off + 1)
      → whole < 2 ^ 16
      → mode < 2 ^ 16
      → 0 < out
      → n ≤ out
      → scaled fs k pf (pos (off + n)) whole (pos out) mode ≤ mode
  unfolding scaled
  scaled-le whole off out mode n placed small small_mode some_out le =
      let product =
        sub32 (wrap_u32 (pos (off + n))) (wrap_u32 (half (pos whole -ℤ pos out))) * mode in
      let e : product ≡ n * mode =
        ap (λ t. t * mode) (difference whole off out n placed small le) in
      let exact : product % 2 ^ 32 ≡ n * mode =
        omega (arith, e, mul_lt n mode (omega arith) small_mode) in
      let below : Le (of_u32 (product % 2 ^ 32)) (of_u32 (out * mode)) =
        of_u32-mono _ _ (omega (arith, exact, mul_le n out mode le)) in
      omega (
        arith,
        to_u32-mono _ _ (over-mono _ _ out some_out below),
        over-product mode out small_mode some_out (omega arith),
      )

  send_pointer_lem :
      (x y mask : ℕ) (d : Desktop Float) (i : Device)
      → d.input ≡ some i
      → d.has_server ≡ true
      → x < 2 ^ 31
      → y < 2 ^ 31
      → send_pointer fs k pf x y mask d
        ≡ some (
          record d {
            input = some (pointer_event k mask (pos x) (pos y) i).0;
            log = cursor_pos x y ∷ d.log;
          },
          tt,
        )
  unfolding send_pointer
  send_pointer_lem x y mask d i hi hs sx sy =
      let c = record d { log = cursor_pos x y ∷ d.log } in
      >>-run (serve (cursor_pos x y)) _ (serve_lem (cursor_pos x y) d hs) (
        on_input_lem (λ j. (pointer_event k mask (signed32 x) (signed32 y) j).0) c i hi
        ∙ rw (signed32-small x sx, signed32-small y sy))

  -- The rectangle of the display in the buffer, with sides that are not empty.
  module _ (d : Desktop Float) (p : PixelBuffer Float) (hp : d.pixels ≡ some p)
      (c : IsCentred p.width p.height d.display_rect)
      (sides : (0 < c.out_width) × (0 < c.out_height))
      (small : (p.width < 2 ^ 16) × (p.height < 2 ^ 16))
      (small_mode : (d.mode_width < 2 ^ 16) × (d.mode_height < 2 ^ 16)) where
    inside-lem :
        (px py : ℤ)
        → outside d.display_rect px py ≡ false
        → (scaled fs k pf px p.width (get_width d.display_rect) d.mode_width ≤ d.mode_width)
          × (scaled fs k pf py p.height (get_height d.display_rect) d.mode_height ≤ d.mode_height)
    unfolding outside
    inside-lem px py inside =
        let edges : outside
              (record {
                left = pos c.off_x;
                top = pos c.off_y;
                right = pos (c.off_x + c.out_width);
                bottom = pos (c.off_y + c.out_height);
              })
              px py
            ≡ false =
          ap (λ r. outside r px py) (sym c.place) ∙ inside in
        let (n, ex, nx) =
          position_lem p.width c.off_x c.out_width c.across small.0 px (ground arith)
            (ground arith) in
        let (m, ey, my) =
          position_lem p.height c.off_y c.out_height c.down small.1 py (ground arith)
            (ground arith) in
        let gw : get_width d.display_rect ≡ pos c.out_width =
          ap get_width c.place ∙ side_lem p.width c.off_x c.out_width c.across small.0 in
        let gh : get_height d.display_rect ≡ pos c.out_height =
          ap get_height c.place ∙ side_lem p.height c.off_y c.out_height c.down small.1 in
        (
          subst (λ s. scaled fs k pf px p.width s d.mode_width ≤ d.mode_width) (sym gw)
              (subst (λ z. scaled fs k pf z p.width (pos c.out_width) d.mode_width ≤ d.mode_width)
                (sym ex)
                (scaled-le p.width c.off_x c.out_width d.mode_width n c.across small.0 small_mode.0
                  sides.0 nx)),
          subst (λ s. scaled fs k pf py p.height s d.mode_height ≤ d.mode_height) (sym gh)
              (subst
                (λ z. scaled fs k pf z p.height (pos c.out_height) d.mode_height ≤ d.mode_height)
                (sym ey)
                (scaled-le p.height c.off_y c.out_height d.mode_height m c.down small.1 small_mode.1
                  sides.1 my)),
        )

    event_inside :
        (px py : ℤ) (mask : ℕ)
        → outside d.display_rect px py ≡ false
        → desktop_pointer_event fs k pf px py mask d
          ≡ send_pointer fs k pf
              (scaled fs k pf px p.width (get_width d.display_rect) d.mode_width)
              (scaled fs k pf py p.height (get_height d.display_rect) d.mode_height)
              mask
              d
    unfolding desktop_pointer_event
    event_inside px py mask inside = simp (inside, hp, desktop_pointer_event, with_pixels)

    -- With a rectangle of sides that are not empty, centred in a buffer with sides below 2 ^ 16, and a
    -- display mode below 2 ^ 16, on a desktop that runs: a pointer event outside the rectangle changes
    -- nothing at all; one inside, its right and bottom edges included, hands the server and the input
    -- device one and the same position, of which neither coordinate is more than the display's side: on
    -- these edges it can be that side, one past the last column or row.
    pub desktop_pointer_event_bounds :
        (i : Device)
        → d.input ≡ some i
        → d.has_server ≡ true
        → (px py : ℤ) (mask : ℕ)
        → ((outside d.display_rect px py ≡ true)
            × (desktop_pointer_event fs k pf px py mask d ≡ some (d, tt)))
          ⊎ ((outside d.display_rect px py ≡ false)
              × (x : ℕ) × (y : ℕ) × (x ≤ d.mode_width)
              × (y ≤ d.mode_height)
              × (desktop_pointer_event fs k pf px py mask d
                  ≡ some (
                    record d {
                      input = some (pointer_event k mask (pos x) (pos y) i).0;
                      log = cursor_pos x y ∷ d.log;
                    },
                    tt,
                  )))
    unfolding desktop_pointer_event
    desktop_pointer_event_bounds i hi hs px py mask =
        elim (Bool-cases (outside d.display_rect px py)) [
          | inl out ↦ inl (out, simp (out, desktop_pointer_event))
          | inr inside ↦
              let x = scaled fs k pf px p.width (get_width d.display_rect) d.mode_width in
              let y = scaled fs k pf py p.height (get_height d.display_rect) d.mode_height in
              let (bx, by) = inside-lem px py inside in
              inr (
                inside,
                x,
                y,
                bx,
                by,
                event_inside px py mask inside
                    ∙ send_pointer_lem x y mask d i hi hs (omega arith) (omega arith),
              )
        ]
