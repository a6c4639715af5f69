-- ===== src/Fbtext/Put.antt =====
-- `fb_put_char` keeps the cursor where a cell fits, and the pixels off the screen.
use sonna_os.Prelude.{
  ℕ, ◌+◌, ◌*◌, ◌^◌, ◌<◌, ◌≡◌, refl, true, false, Option, none, some, ◌==◌, ltb, if◌then◌else◌,
  add64, arith,
}
use sonna_os.Fbtext.{
  Framebuffer, Font, Text, Console, stride, left_margin, fb_newline, backspace, draw_glyph,
  overwritten, put_glyph, put, on_glyphs, fb_put_char,
}
use sonna_os.Fbtext.Clear.{IsFramebuffer}
use sonna_os.Fbtext.Glyph.{IsOff}
use sonna_os.Fbtext.Cursor.{
  IsFont, IsCursor, Kept, either, new_line-Kept, overwritten-Kept, draw_glyph-Kept, Kept-trans,
  backspace-Kept,
}

module _ (fb : Framebuffer) (font : Font) (is : IsFramebuffer fb) (is_font : IsFont fb font) where
  -- The cursor once a cell fits in the line.
  Placed : (t placed : Text) → Type 0
  Placed t placed = Kept fb font t placed × (placed.g_cursor_y + font.line_height < 2 ^ 64)

  draw-Placed-Kept :
      (glyphs : ℕ → ℕ) (codepoint color : ℕ) (t placed : Text)
      → Placed t placed
      → Kept fb font t (
          if ltb fb.height (add64 placed.g_cursor_y font.height)
          then placed
          else draw_glyph fb font glyphs codepoint color (overwritten fb font placed))
  unfolding Placed
  draw-Placed-Kept glyphs codepoint color t placed (kept, room) =
      let (cleared, same) = overwritten-Kept fb font is is_font placed kept.cursor room in
      let drawn =
        draw_glyph-Kept fb font is is_font glyphs codepoint color (overwritten fb font placed)
          cleared.cursor (omega (arith, room, same)) in
      either (Kept fb font t) (ltb fb.height (add64 placed.g_cursor_y font.height)) placed
        (draw_glyph fb font glyphs codepoint color (overwritten fb font placed)) kept
        (Kept-trans fb font is is_font t placed
          (draw_glyph fb font glyphs codepoint color (overwritten fb font placed)) kept
          (Kept-trans fb font is is_font placed (overwritten fb font placed)
            (draw_glyph fb font glyphs codepoint color (overwritten fb font placed)) cleared drawn))

  put_glyph-Kept :
      (glyphs : ℕ → ℕ) (codepoint color : ℕ) (t : Text)
      → IsCursor fb font t
      → t.g_cursor_y + font.line_height + font.line_height < 2 ^ 64
      → Kept fb font t (put_glyph fb font glyphs codepoint color t)
  unfolding put_glyph Placed
  put_glyph-Kept glyphs codepoint color t ic room =
      let wrapped = record (fb_newline font t) { overwrite = false } in
      let wraps = ltb fb.width (add64 t.g_cursor_x font.width) in
      draw-Placed-Kept glyphs codepoint color t (if wraps then wrapped else t) (
        either (Placed t) wraps wrapped t
          (new_line-Kept fb font is is_font t ic (omega arith), newline_room t room)
          (record { cursor = ic; off = λ j k lj off. refl }, omega arith))
    where
      newline_room :
          (t : Text)
          → t.g_cursor_y + font.line_height + font.line_height < 2 ^ 64
          → (record (fb_newline font t) { overwrite = false }).g_cursor_y + font.line_height
            < 2 ^ 64
      newline_room t room = omega arith

  put-Kept :
      (glyphs : ℕ → ℕ) (codepoint color : ℕ) (t : Text)
      → IsCursor fb font t
      → t.g_cursor_y + font.line_height + font.line_height < 2 ^ 64
      → Kept fb font t (put fb font glyphs codepoint color t)
  unfolding put
  put-Kept glyphs codepoint color t ic room =
      let shown = if ltb 255 codepoint then 63 else codepoint in
      let lines = record (fb_newline font t) { overwrite = false } in
      let start = record t {
        g_cursor_x = left_margin;
        overwrite = true;
        overwrite_pos = left_margin;
      } in
      let glyph = put_glyph fb font glyphs shown color t in
      let back = backspace fb font t in
      either (Kept fb font t) (shown == 10) lines
        (if shown == 13 then start else if shown == 8 then back else glyph)
        (new_line-Kept fb font is is_font t ic (omega arith))
        (either (Kept fb font t) (shown == 13) start (if shown == 8 then back else glyph)
          (record {
            cursor = record { column = is_font.fits; lines = ic.lines; line = ic.line };
            off = λ j k lj off. refl;
          })
          (either (Kept fb font t) (shown == 8) back glyph
            (backspace-Kept fb font is is_font t ic (omega arith))
            (put_glyph-Kept glyphs shown color t ic room)))

abbrev pub console : Framebuffer → Font → Text → Console
console fb font t = record { g_fb = some fb; g_font = some font; text = t }

fb_put_char-Kept :
    (fb : Framebuffer) (font : Font) (codepoint color : ℕ) (t : Text)
    → IsFramebuffer fb
    → IsFont fb font
    → IsCursor fb font t
    → t.g_cursor_y + font.line_height + font.line_height < 2 ^ 64
    → Kept fb font t (fb_put_char codepoint color (console fb font t)).text
unfolding fb_put_char
fb_put_char-Kept fb font codepoint color t is is_font ic room = shown (font.glyphs)
  where
    shown :
        (o : Option (ℕ → ℕ))
        → Kept fb font t (on_glyphs o (λ glyphs. put fb font glyphs codepoint color t) t)
    shown none = record { cursor = ic; off = λ j k lj off. refl }
    shown (some glyphs) = put-Kept fb font is is_font glyphs codepoint color t ic room

-- Whatever the character, fb_put_char leaves the cursor at the top of a line and at a column
-- where a cell fits on the screen, if it stood so, if the framebuffer and the font are of sound
-- sizes (IsFramebuffer and IsFont: among them the font at most as wide as the left margin and a
-- cell that fits beside the margin), and if two further lines do not wrap.
pub fb_put_char-IsCursor :
    (fb : Framebuffer) (font : Font) (codepoint color : ℕ) (t : Text)
    → IsFramebuffer fb
    → IsFont fb font
    → IsCursor fb font t
    → t.g_cursor_y + font.line_height + font.line_height < 2 ^ 64
    → IsCursor fb font (fb_put_char codepoint color (console fb font t)).text
fb_put_char-IsCursor fb font codepoint color t is is_font ic room =
    (fb_put_char-Kept fb font codepoint color t is is_font ic room).cursor

-- Under the same conditions fb_put_char changes no pixel that is off the screen: none between
-- the rows and none below the last.
pub fb_put_char-off :
    (fb : Framebuffer) (font : Font) (codepoint color : ℕ) (t : Text) (j k : ℕ)
    → IsFramebuffer fb
    → IsFont fb font
    → IsCursor fb font t
    → t.g_cursor_y + font.line_height + font.line_height < 2 ^ 64
    → j < stride fb
    → IsOff fb j k
    → (fb_put_char codepoint color (console fb font t)).text.pixels (k * stride fb + j)
      ≡ t.pixels (k * stride fb + j)
fb_put_char-off fb font codepoint color t j k is is_font ic room lj off =
    (fb_put_char-Kept fb font codepoint color t is is_font ic room).off j k lj off
