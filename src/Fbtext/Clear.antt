-- ===== src/Fbtext/Clear.antt =====
-- `fb_clear_area`: which pixels a call changes.
use sonna_os.Prelude.{
  ℕ, zero, suc, ◌+◌, ◌-◌, ◌*◌, ◌^◌, ◌<◌, ◌≤◌, ◌≡◌, ◌⊎◌, subst, ◌∙◌, ap, ap₂, inl, inr, Bool,
  Bool-cases, ◌&&◌, ◌||◌, some, ◌==◌, ltb, leb, if◌then◌else◌, add64, mul64, arith,
}
use sonna_os.Memory.{write}
use sonna_os.Fbtext.{Framebuffer, Pixels, stride, clear_columns, clear_rows, clip, fb_clear_area}

-- `j` lies among the `n` numbers from `a` on.
abbrev pub within : (a n j : ℕ) → Bool
within a n j = leb a j && ltb j (a + n)

clear_columns-at :
    (left : ℕ) (px : Pixels) (base x dx color a : ℕ)
    → base + x + dx + left < 2 ^ 64
    → clear_columns left px base x dx color a
      ≡ (if within (base + x + dx) left a then color else px a)
unfolding clear_columns write
clear_columns-at zero px base x dx color a small = ground arith
clear_columns-at (suc left) px base x dx color a small =
    clear_columns-at left (write px (add64 base (add64 x dx)) color) base x (dx + 1) color a
      (omega arith)
    ∙ ground arith

pub mul-lt : (a b c : ℕ) → a < b → a * c + c ≤ b * c
mul-lt a b c lt =
    let e : a + 1 + (b - a - 1) ≡ b = omega arith in
    subst (λ x. a * c + c ≤ x * c) e (more (b - a - 1))
  where
    more : (d : ℕ) → a * c + c ≤ (a + 1 + d) * c
    more d = omega arith

pub sum_fits : (a b : ℕ) → a + b < 2 ^ 64 → add64 a b ≡ a + b
sum_fits a b lt = omega arith

pub product_fits : (a b : ℕ) → a * b < 2 ^ 64 → mul64 a b ≡ a * b
product_fits a b lt = omega arith

add-zero : (a : ℕ) → a + 0 ≡ a
add-zero a = omega arith

-- A pixel of row `k` is none of row `r`.
pub row_apart :
    (k r s j : ℕ) → j < s → (k < r) ⊎ (r < k) → (k * s + j < r * s) ⊎ (r * s + s ≤ k * s + j)
row_apart k r s j lj (inl lt) = inl (omega (arith, mul-lt k r s lt))
row_apart k r s j lj (inr lt) = inr (omega (arith, mul-lt r k s lt))

in_row :
    (k r s j x w : ℕ)
    → j < s
    → x + w ≤ s
    → within (r * s + x) w (k * s + j) ≡ (within x w j && (k == r))
in_row k r s j x w lj le = elim (Nat-cases k r) [
  | inl (inl lt) ↦ ground (arith, row_apart k r s j lj (inl lt))
  | inl (inr lt) ↦ ground (arith, row_apart k r s j lj (inr lt))
  | inr same ↦ let e = ap (λ x. x * s) same in ground (arith, e)
]
  where
    Nat-cases : (a b : ℕ) → ((a < b) ⊎ (b < a)) ⊎ (a ≡ b)
    Nat-cases a b = ground arith

clear_rows-at :
    (left : ℕ) (px : Pixels) (x y dy w s color j k : ℕ)
    → j < s
    → x + w ≤ s
    → (y + dy + left) * s < 2 ^ 64
    → y + dy + left < 2 ^ 64
    → clear_rows left px x y dy w s color (k * s + j)
      ≡ (if within x w j && within (y + dy) left k then color else px (k * s + j))
unfolding clear_rows
clear_rows-at zero px x y dy w s color j k lj le small rows = ground arith
clear_rows-at (suc left) px x y dy w s color j k lj le small rows =
    let r = y + dy in
    let room : r * s + s ≤ (y + dy + suc left) * s = mul-lt r (y + dy + suc left) s (omega arith) in
    let row : mul64 (add64 y dy) s ≡ r * s =
      ap (λ v. mul64 v s) (sum_fits y dy (omega arith)) ∙ product_fits r s (omega arith) in
    let here : clear_columns w px (mul64 (add64 y dy) s) x 0 color (k * s + j)
        ≡ (if within x w j && (k == r) then color else px (k * s + j)) =
      ap (λ b. clear_columns w px b x 0 color (k * s + j)) row
      ∙ clear_columns-at w px (r * s) x 0 color (k * s + j) (omega arith)
      ∙ ap (λ b. if within b w (k * s + j) then color else px (k * s + j)) (add-zero (r * s + x))
      ∙ ap (λ b. if b then color else px (k * s + j)) (in_row k r s j x w lj le) in
    let rest =
      clear_rows-at left (clear_columns w px (mul64 (add64 y dy) s) x 0 color) x y (dy + 1) w s
        color j k lj le (omega arith) (omega arith) in
    rest ∙ (rw here (ground arith))

clip_lem :
    (start length limit : ℕ)
    → start < limit
    → start + length < 2 ^ 64
    → limit < 2 ^ 64
    → (j : ℕ) → within start (clip start length limit) j ≡ (within start length j && ltb j limit)
unfolding clip
clip_lem start length limit lt small fits j = ground arith

clip-le :
    (start length limit : ℕ)
    → start < limit
    → start + length < 2 ^ 64
    → limit < 2 ^ 64
    → start + clip start length limit ≤ limit
unfolding clip
clip-le start length limit lt small fits = ground arith

-- The rows lie apart in memory, and the framebuffer in the address space.
pub record IsFramebuffer (fb : Framebuffer) : Type 0 where
  pub narrow : fb.width ≤ stride fb
  pub total : fb.height * stride fb < 2 ^ 64
  pub columns : fb.width < 2 ^ 64
  pub rows : fb.height < 2 ^ 64

mul-le : (a b c : ℕ) → a ≤ b → a * c ≤ b * c
mul-le a b c le =
    let e : a + (b - a) ≡ b = omega arith in subst (λ x. a * c ≤ x * c) e (more (b - a))
  where
    more : (d : ℕ) → a * c ≤ (a + d) * c
    more d = omega arith

-- The part of the rectangle on the screen is filled.
filled :
    (fb : Framebuffer) (x y w h color : ℕ) (px : Pixels) (j k : ℕ)
    → IsFramebuffer fb
    → x + w ≤ fb.width
    → y + h ≤ fb.height
    → j < stride fb
    → (if w == 0 || h == 0 then px else clear_rows h px x y 0 w (stride fb) color)
        (k * stride fb + j)
      ≡ (if within x w j && within y h k then color else px (k * stride fb + j))
filled fb x y w h color px j k is wx hy lj =
    let le = mul-le (y + 0 + h) fb.height (stride fb) (omega arith) in
    let rows =
      clear_rows-at h px x y 0 w (stride fb) color j k lj (omega (arith, is.narrow))
        (omega (arith, is.total)) (omega (arith, is.rows)) in
    elim (Bool-cases (w == 0 || h == 0)) [
      | inl empty ↦ rw empty (ground arith)
      | inr some_rows ↦ rw some_rows (
          rows
          ∙ ap (λ r. if within x w j && within r h k then color else px (k * stride fb + j))
              (add-zero y))
    ]

-- On a framebuffer whose rows lie apart and that fits in the address space, fb_clear_area gives
-- a pixel of the rows' memory the colour exactly if it lies in the rectangle and on the screen,
-- and leaves every other one, the bytes between the rows included, provided that the rectangle's
-- ends do not wrap.
pub fb_clear_area-at :
    (fb : Framebuffer) (x y width height color : ℕ) (px : Pixels) (j k : ℕ)
    → IsFramebuffer fb
    → x + width < 2 ^ 64
    → y + height < 2 ^ 64
    → j < stride fb
    → fb_clear_area (some fb) x y width height color px (k * stride fb + j) ≡ (
        if (within x width j && ltb j fb.width) && (within y height k && ltb k fb.height)
        then color
        else px (k * stride fb + j))
unfolding fb_clear_area
fb_clear_area-at fb x y width height color px j k is sx sy lj =
    elim (Bool-cases (leb fb.width x || leb fb.height y)) [
      | inl off ↦ rw off (ground arith)
      | inr on ↦
          let in_x : x < fb.width = ground arith in
          let in_y : y < fb.height = ground arith in
          let w = clip-le x width fb.width in_x sx is.columns in
          let h = clip-le y height fb.height in_y sy is.rows in
          let cx = clip_lem x width fb.width in_x sx is.columns j in
          let cy = clip_lem y height fb.height in_y sy is.rows k in
          rw on (
            filled fb x y (clip x width fb.width) (clip y height fb.height) color px j k is w h lj
            ∙ ap₂ (λ a b. if a && b then color else px (k * stride fb + j)) cx cy)
    ]
