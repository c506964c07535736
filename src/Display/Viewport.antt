-- ===== src/Display/Viewport.antt =====
-- Where `getDisplayRect` places the picture in the buffer.
use packages_services_vnc_fl.Pixels.{Floats}
use packages_services_vnc_fl.Display.{Rect, VirtualDisplay, get_display_rect, centred, aspect_ratio}
use packages_services_vnc_fl.Prelude.Int.{signed32, pos}
use packages_services_vnc_fl.Prelude.{
  ◌<◌, ℕ, ◌≤◌, ◌^◌, ◌≡◌, ◌⊎◌, arith, Bool-cases, ◌-◌, ◌+◌, leb, inr, inl, ◌/◌, refl,
}

module _ (fs : Floats) where
  open fs use {Float, of_u32, to_u32, times, over}

  -- What IEEE arithmetic promises at sides below 2 ^ 22, for floats that are not negative and fit a
  -- uint32_t: the order is kept, a conversion to an integer rounds down, and a quotient takes a
  -- product back to at most the factor, as a float has 24 bits.
  pub record IsRounded : Type 1 where
    pub Le : Float → Float → Type 0
    pub Le-trans : (x y z : Float) → Le x y → Le y z → Le x z
    pub of_u32-mono : (m n : ℕ) → m ≤ n → Le (of_u32 m) (of_u32 n)
    pub to_u32-mono : (x y : Float) → Le x y → to_u32 x ≤ to_u32 y
    pub of_u32-to_u32 : (x : Float) → Le (of_u32 (to_u32 x)) x
    pub over-mono :
        (x y : Float) (p q : ℕ)
        → 0 < p
        → 0 < q
        → Le x y
        → Le (over x (over (of_u32 p) (of_u32 q))) (over y (over (of_u32 p) (of_u32 q)))
    pub over-times :
        (n p q : ℕ)
        → n < 2 ^ 22
        → 0 < p
        → 0 < q
        → to_u32 (over (times (of_u32 n) (over (of_u32 p) (of_u32 q))) (over (of_u32 p) (of_u32 q)))
          ≤ n

-- In a buffer of these sides, the rectangle lies inside, fills one of the two sides, and leaves the
-- same margin on both ends of the other, up to a rounding by one.
pub record IsCentred (width height : ℕ) (r : Rect) : Type 0 where
  pub off_x : ℕ
  pub off_y : ℕ
  pub out_width : ℕ
  pub out_height : ℕ
  pub place : r ≡ record {
    left = pos off_x;
    top = pos off_y;
    right = pos (off_x + out_width);
    bottom = pos (off_y + out_height);
  }
  pub across : (off_x + out_width + off_x ≤ width) × (width ≤ off_x + out_width + off_x + 1)
  pub down : (off_y + out_height + off_y ≤ height) × (height ≤ off_y + out_height + off_y + 1)
  pub fills : (out_width ≡ width) ⊎ (out_height ≡ height)

centred-IsCentred :
    (width height w h : ℕ)
    → width < 2 ^ 31
    → height < 2 ^ 31
    → w ≤ width
    → h ≤ height
    → (w ≡ width) ⊎ (h ≡ height)
    → IsCentred width height (centred width height w h)
unfolding centred signed32
centred-IsCentred width height w h small_w small_h le_w le_h full = record {
  off_x = (width - w) / 2;
  off_y = (height - h) / 2;
  out_width = w;
  out_height = h;
  place = ground arith;
  across = omega arith;
  down = omega arith;
  fills = full;
}

module _ (fs : Floats) (laws : IsRounded fs) where
  open fs use {Float, of_u32, to_u32, times, over}
  open laws use {Le, Le-trans, of_u32-mono, to_u32-mono, of_u32-to_u32, over-mono, over-times}

  -- A width that the height allows gives back a height that is at most that one.
  narrow_height :
      (w h p q : ℕ)
      → h < 2 ^ 22
      → 0 < p
      → 0 < q
      → w ≤ to_u32 (times (of_u32 h) (over (of_u32 p) (of_u32 q)))
      → to_u32 (over (of_u32 w) (over (of_u32 p) (of_u32 q))) ≤ h
  narrow_height w h p q small hp hq le =
      let area = times (of_u32 h) (over (of_u32 p) (of_u32 q)) in
      omega (
        arith,
        over-times h p q small hp hq,
        to_u32-mono _ _ (
            over-mono _ _ p q hp hq
              (Le-trans _ _ _ (of_u32-mono w (to_u32 area) le) (of_u32-to_u32 area))),
      )

  -- For every float arithmetic that rounds as IEEE's, a source with sides and a buffer with sides below
  -- 2 ^ 22, the display's rectangle is centred in the buffer and fills one of its sides.
  pub get_display_rect-IsCentred :
      (v : VirtualDisplay)
      → 0 < v.source_width
      → 0 < v.source_height
      → v.width < 2 ^ 22
      → v.height < 2 ^ 22
      → IsCentred v.width v.height (get_display_rect fs v)
  unfolding get_display_rect aspect_ratio
  get_display_rect-IsCentred v sw sh w h =
      let limit = to_u32 (times (of_u32 v.height) (aspect_ratio fs v)) in
      elim (Bool-cases (leb v.width limit)) [
        | inl narrow ↦ rw narrow (
            centred-IsCentred v.width v.height v.width
              (to_u32 (over (of_u32 v.width) (aspect_ratio fs v))) (omega arith) (omega arith)
              (omega arith)
              (narrow_height v.width v.height v.source_width v.source_height h sw sh (ground arith))
              (inl refl))
        | inr short ↦ rw short (
            centred-IsCentred v.width v.height limit v.height (omega arith) (omega arith)
              (ground arith) (omega arith) (inr refl))
      ]
