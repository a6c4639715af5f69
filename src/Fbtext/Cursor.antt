-- ===== src/Fbtext/Cursor.antt =====
-- The steps of `fb_put_char`: the cursor stays where a cell fits, and the pixels off the screen stay.
use sonna_os.Prelude.{
  ℕ, zero, suc, ◌+◌, ◌*◌, ◌/◌, ◌^◌, ◌<◌, ◌≤◌, ◌≡◌, refl, ◌∙◌, ap, inl, inr, Bool, Bool-cases, true,
  false, not, ◌==◌, ltb, if◌then◌else◌, add64, sub64, u32, arith,
}
use sonna_os.Fbtext.{
  Framebuffer, Font, Pixels, Text, stride, left_margin, first_line, fb_newline, fb_advance,
  clear_cell, backspace, draw_rows, glyph_offset, draw_glyph, overwritten,
}
use sonna_os.Fbtext.Clear.{IsFramebuffer}
use sonna_os.Fbtext.Glyph.{IsOff, draw_rows-off, clear_area-off}

-- A font whose cell fits beside the margin.
pub record IsFont (fb : Framebuffer) (font : Font) : Type 0 where
  pub narrow : font.width ≤ left_margin
  pub fits : left_margin + font.width ≤ fb.width
  pub low : font.height ≤ font.line_height
  pub far : fb.width + font.width < 2 ^ 64

-- A cell fits to the right of the cursor, which stands at the top of a line.
pub record IsCursor (fb : Framebuffer) (font : Font) (t : Text) : Type 0 where
  pub column : t.g_cursor_x + font.width ≤ fb.width
  pub lines : ℕ
  pub line : t.g_cursor_y ≡ first_line + lines * font.line_height

abbrev pub SameOff : Framebuffer → (px px' : Pixels) → Type 0
SameOff fb px px' =
    (j k : ℕ) → j < stride fb → IsOff fb j k → px' (k * stride fb + j) ≡ px (k * stride fb + j)

-- What a step from `t` to `t'` keeps.
pub record Kept (fb : Framebuffer) (font : Font) (t t' : Text) : Type 0 where
  pub cursor : IsCursor fb font t'
  pub off : SameOff fb t.pixels t'.pixels

-- What holds on both branches of a test.
pub either : (P : Text → Type 0) (b : Bool) (x y : Text) → P x → P y → P (if b then x else y)
either P true x y px py = px
either P false x y px py = py

module _ (fb : Framebuffer) (font : Font) (is : IsFramebuffer fb) (is_font : IsFont fb font) where
  pub newline-IsCursor :
      (t : Text)
      → IsCursor fb font t
      → t.g_cursor_y + font.line_height < 2 ^ 64
      → IsCursor fb font (fb_newline font t)
  unfolding fb_newline
  newline-IsCursor t ic room = record {
    column = is_font.fits;
    lines = suc ic.lines;
    line = omega (arith, ic.line, room);
  }

  clear_cell-off :
      (t : Text)
      → t.g_cursor_x + font.width < 2 ^ 64
      → t.g_cursor_y + font.height < 2 ^ 64
      → SameOff fb t.pixels (clear_cell fb font t).pixels
  unfolding clear_cell
  clear_cell-off t sx sy j k lj off =
      clear_area-off fb is j k lj off t.g_cursor_x t.g_cursor_y font.width font.height 0 t.pixels sx
        sy

  up-Kept :
      (t : Text)
      → IsCursor fb font t
      → t.g_cursor_y + font.line_height < 2 ^ 64
      → first_line < t.g_cursor_y
      → (n : ℕ) → t.g_cursor_y ≡ first_line + n * font.line_height
      → Kept fb font t (
          clear_cell fb font (record t {
            g_cursor_x = sub64 fb.width font.width;
            g_cursor_y = sub64 t.g_cursor_y font.line_height;
          }))
  unfolding clear_cell
  up-Kept t ic room lower zero line = absurd (omega arith)
  up-Kept t ic room lower (suc n) line = record {
    cursor = record {
      column = omega (arith, is_font.fits, is.columns);
      lines = n;
      line = omega (arith, line, room);
    };
    off =
        clear_cell-off
          (record t {
            g_cursor_x = sub64 fb.width font.width;
            g_cursor_y = sub64 t.g_cursor_y font.line_height;
          })
          (omega (arith, is_font.fits, is.columns)) (omega (arith, line, room, is_font.low));
  }

  pub backspace-Kept :
      (t : Text)
      → IsCursor fb font t
      → t.g_cursor_y + font.line_height < 2 ^ 64
      → Kept fb font t (backspace fb font t)
  unfolding backspace clear_cell
  backspace-Kept t ic room = elim (Bool-cases (ltb left_margin t.g_cursor_x)) [
    | inl behind ↦ rw behind (record {
      cursor = record {
        column = ground (arith, ic.column, is_font.narrow, is.columns);
        lines = ic.lines;
        line = ic.line;
      };
      off =
          clear_cell-off (record t { g_cursor_x = sub64 t.g_cursor_x font.width })
            (ground (arith, ic.column, is_font.narrow, is.columns))
            (omega (arith, room, is_font.low));
    })
    | inr front ↦ elim (Bool-cases (ltb first_line t.g_cursor_y)) [
      | inl lower ↦ rw (front, lower) (up-Kept t ic room (ground arith) ic.lines ic.line)
      | inr top ↦ rw (front, top) (record { cursor = ic; off = λ j k lj off. refl })
    ]
  ]

  advance-IsCursor :
      (t : Text)
      → IsCursor fb font t
      → t.g_cursor_y + font.line_height < 2 ^ 64
      → IsCursor fb font (fb_advance fb font font.width t)
  unfolding fb_advance fb_newline
  advance-IsCursor t ic room =
      elim (Bool-cases (ltb fb.width (add64 (add64 t.g_cursor_x font.width) font.width))) [
        | inl past ↦ rw past (newline-IsCursor t ic room)
        | inr inside ↦ rw inside (record {
          column = ground (arith, ic.column, is_font.far);
          lines = ic.lines;
          line = ic.line;
        })
      ]

  advance-pixels : (t : Text) → (fb_advance fb font font.width t).pixels ≡ t.pixels
  unfolding fb_advance fb_newline
  advance-pixels t =
      elim (Bool-cases (ltb fb.width (add64 (add64 t.g_cursor_x font.width) font.width))) [
        | inl past ↦ rw past refl
        | inr inside ↦ rw inside refl
      ]

  pub draw_glyph-Kept :
      (glyphs : ℕ → ℕ) (codepoint color : ℕ) (t : Text)
      → IsCursor fb font t
      → t.g_cursor_y + font.line_height < 2 ^ 64
      → Kept fb font t (draw_glyph fb font glyphs codepoint color t)
  unfolding draw_glyph
  draw_glyph-Kept glyphs codepoint color t ic room =
      let glyph : ℕ → ℕ = λ i. glyphs (glyph_offset font codepoint + i) in
      let px =
        draw_rows font.height fb glyph font.width t.g_cursor_x t.g_cursor_y 0
          (u32 (font.width + 7) / 8) color t.pixels in
      let drawn = record t { pixels = px } in
      record {
        cursor =
            advance-IsCursor drawn (record { column = ic.column; lines = ic.lines; line = ic.line })
              room;
        off = λ j k lj off.
            ap (λ (f : Pixels). f (k * stride fb + j)) (advance-pixels drawn)
            ∙ draw_rows-off fb is j k lj off font.height glyph font.width t.g_cursor_x t.g_cursor_y
                0 (u32 (font.width + 7) / 8) color t.pixels;
      }

  -- Overwriting moves nothing.
  pub overwritten-Kept :
      (t : Text)
      → IsCursor fb font t
      → t.g_cursor_y + font.line_height < 2 ^ 64
      → Kept fb font t (overwritten fb font t) × ((overwritten fb font t).g_cursor_y ≡ t.g_cursor_y)
  unfolding overwritten
  overwritten-Kept t ic room =
      let off =
        clear_cell-off t (omega (arith, ic.column, is.columns))
          (omega (arith, room, is_font.low)) in
      let same : Kept fb font t t = record { cursor = ic; off = λ j k lj off. refl } in
      let there : (flag : Bool)
          → Kept fb font t (record (clear_cell fb font t) { overwrite = flag }) =
        λ flag. record {
          cursor = record { column = ic.column; lines = ic.lines; line = ic.line };
          off = off;
        } in
      either Good (not t.overwrite) t
        (if ltb t.overwrite_pos (add64 t.g_cursor_x font.width) then flagged else cleared)
        (same, refl)
        (either Good (ltb t.overwrite_pos (add64 t.g_cursor_x font.width)) flagged cleared
          (there (not (add64 t.g_cursor_x font.width == 0)), refl) (there t.overwrite, refl))
    where
      Good : Text → Type 0
      Good t' = Kept fb font t t' × (t'.g_cursor_y ≡ t.g_cursor_y)

      cleared : Text
      cleared = clear_cell fb font t

      flagged : Text
      flagged = record cleared { overwrite = not (add64 t.g_cursor_x font.width == 0) }

  pub Kept-trans : (t t1 t2 : Text) → Kept fb font t t1 → Kept fb font t1 t2 → Kept fb font t t2
  Kept-trans t t1 t2 one two = record {
    cursor = two.cursor;
    off = λ j k lj off. two.off j k lj off ∙ one.off j k lj off;
  }

  pub new_line-Kept :
      (t : Text)
      → IsCursor fb font t
      → t.g_cursor_y + font.line_height < 2 ^ 64
      → Kept fb font t (record (fb_newline font t) { overwrite = false })
  unfolding fb_newline
  new_line-Kept t ic room =
      let next = newline-IsCursor t ic room in
      record {
        cursor = record { column = next.column; lines = next.lines; line = next.line };
        off = λ j k lj off. refl;
      }
