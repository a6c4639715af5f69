-- ===== src/Fbtext/Glyph.antt =====
-- The loops over a glyph, and no pixel off the screen.
use sonna_os.Prelude.{
  ℕ, zero, suc, ◌+◌, ◌*◌, ◌^◌, ◌<◌, ◌≤◌, ◌≡◌, ◌≢◌, ◌⊎◌, refl, ◌∙◌, ap, inl, inr, Bool, Bool-cases,
  true, false, ◌&&◌, some, ltb, if◌then◌else◌, add64, mul64, arith,
}
use sonna_os.Memory.{write}
use sonna_os.Fbtext.{
  Framebuffer, Pixels, stride, fb_clear_area, glyph_bit, draw_pixel, draw_columns, draw_rows,
}
use sonna_os.Fbtext.Clear.{
  IsFramebuffer, fb_clear_area-at, row_apart, sum_fits, product_fits, mul-lt,
}

-- Column `j` of row `k` is not on the screen.
abbrev pub IsOff : Framebuffer → (j k : ℕ) → Type 0
IsOff fb j k = (fb.width ≤ j) ⊎ (fb.height ≤ k)

module _ (fb : Framebuffer) (is : IsFramebuffer fb) (j k : ℕ) (lj : j < stride fb)
    (off : IsOff fb j k) where
  abbrev pub at : ℕ
  at = k * stride fb + j

  other_pixel : (x y : ℕ) → x < fb.width → y < fb.height → at ≢ add64 (mul64 y (stride fb)) x
  other_pixel x y lx ly e =
      let below = mul-lt y fb.height (stride fb) ly in
      let row = product_fits y (stride fb) (omega (arith, is.total)) in
      let sum = sum_fits (y * stride fb) x (omega (arith, is.total, is.narrow)) in
      let here : k * stride fb + j ≡ y * stride fb + x = e ∙ ap (λ r. add64 r x) row ∙ sum in
      elim (order k y) [
        | inl differ ↦ absurd (ground (arith, row_apart k y (stride fb) j lj differ, is.narrow))
        | inr same ↦ let rows = ap (λ r. r * stride fb) same in absurd (ground (arith))
      ]
    where
      order : (a b : ℕ) → ((a < b) ⊎ (b < a)) ⊎ (a ≡ b)
      order a b = ground arith

  write_pixel-off :
      (b : Bool) (x y color : ℕ) (px : Pixels)
      → (if b && ltb x fb.width && ltb y fb.height
            then write px (add64 (mul64 y (stride fb)) x) color
            else px)
          at
        ≡ px at
  unfolding write
  write_pixel-off false x y color px = refl
  write_pixel-off true x y color px = elim (Bool-cases (ltb x fb.width && ltb y fb.height)) [
    | inl inside ↦
        let apart = other_pixel x y (ground arith) (ground arith) in
        rw inside (ground (arith, apart))
    | inr outside ↦ rw outside refl
  ]

  draw_columns-off :
      (left : ℕ) (glyph : ℕ → ℕ) (x y row col bytes_per_row color : ℕ) (px : Pixels)
      → draw_columns left fb glyph x y row col bytes_per_row color px at ≡ px at
  unfolding draw_columns draw_pixel
  draw_columns-off zero glyph x y row col bytes_per_row color px = refl
  draw_columns-off (suc left) glyph x y row col bytes_per_row color px =
      draw_columns-off left glyph x y row (col + 1) bytes_per_row color
        (draw_pixel fb glyph x y row col bytes_per_row color px)
      ∙ write_pixel-off (glyph_bit glyph row col bytes_per_row) (add64 x col) (add64 y row) color px

  pub draw_rows-off :
      (left : ℕ) (glyph : ℕ → ℕ) (width x y row bytes_per_row color : ℕ) (px : Pixels)
      → draw_rows left fb glyph width x y row bytes_per_row color px at ≡ px at
  unfolding draw_rows
  draw_rows-off zero glyph width x y row bytes_per_row color px = refl
  draw_rows-off (suc left) glyph width x y row bytes_per_row color px =
      draw_rows-off left glyph width x y (row + 1) bytes_per_row color
        (draw_columns width fb glyph x y row 0 bytes_per_row color px)
      ∙ draw_columns-off width glyph x y row 0 bytes_per_row color px

  pub clear_area-off :
      (x y width height color : ℕ) (px : Pixels)
      → x + width < 2 ^ 64
      → y + height < 2 ^ 64
      → fb_clear_area (some fb) x y width height color px at ≡ px at
  clear_area-off x y width height color px sx sy =
      fb_clear_area-at fb x y width height color px j k is sx sy lj ∙ ground arith
