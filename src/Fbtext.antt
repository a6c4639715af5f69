-- ===== src/Fbtext.antt =====
-- kernel/drivers/fbtext.c: text on the framebuffer, with the cursor that the file keeps. The
-- pixels are a function of their index from the framebuffer's address; a string is the list of
-- its bytes before the terminating zero, and a pointer that may be NULL is an `Option`.
pub mod Clear
pub mod Glyph
pub mod Cursor
pub mod Put
pub mod Number
mod Tests
use sonna_os.Prelude.{
  ℕ, zero, suc, ◌+◌, ◌-◌, ◌*◌, ◌/◌, ◌%◌, ◌^◌, ℤ, pos, negsuc, Bool, true, false, not, ◌&&◌, ◌||◌,
  Option, none, some, List, [], ◌∷◌, bit_and, u8, u32, add64, mul64, sub64, shr, ◌==◌, ltb, leb,
  if◌then◌else◌,
}
use sonna_os.Memory.{write}

-- The fields of `struct limine_framebuffer` that the code reads.
pub record Framebuffer : Type 0 where
  pub width : ℕ
  pub height : ℕ
  pub pitch : ℕ

-- `font_t`; of the header it reads `charsize`.
pub record Font : Type 0 where
  pub is_psf2 : Bool
  pub charsize : ℕ
  pub glyphs : Option (ℕ → ℕ)
  pub width : ℕ
  pub height : ℕ
  pub line_height : ℕ

abbrev pub Pixels : Type 0
Pixels = ℕ → ℕ

-- The variables of the file that change, and the framebuffer's pixels.
pub record Text : Type 0 where
  pub g_cursor_x : ℕ
  pub g_cursor_y : ℕ
  pub overwrite : Bool
  pub overwrite_pos : ℕ
  pub pixels : Pixels

pub record Console : Type 0 where
  pub g_fb : Option Framebuffer
  pub g_font : Option Font
  pub text : Text

abbrev pub left_margin : ℕ
left_margin = 20

abbrev pub first_line : ℕ
first_line = 15

abbrev pub stride : Framebuffer → ℕ
stride fb = fb.pitch / 4

abbrev pub has_glyphs : Font → Bool
has_glyphs font = elim (font.glyphs) [ none ↦ false | some g ↦ true ]

abbrev pub home : Text → Text
home t = record t { g_cursor_x = left_margin; g_cursor_y = first_line }

abbrev init_text : Option Font → Text → Text
init_text none t = t
init_text (some font) t =
    if not (has_glyphs font) || font.width == 0 || font.height == 0 then t else home t

unfoldable pub fbtext_init : Option Framebuffer → Option Font → Console → Console
fbtext_init fb font c = record { g_fb = fb; g_font = font; text = init_text font c.text }

unfoldable pub fb_newline : Font → Text → Text
fb_newline font t = record t {
  g_cursor_x = left_margin;
  g_cursor_y = add64 t.g_cursor_y font.line_height;
}

unfoldable pub fb_advance : Framebuffer → Font → (amount : ℕ) → Text → Text
unfolding fb_newline
fb_advance fb font amount t =
    let moved = record t { g_cursor_x = add64 t.g_cursor_x amount } in
    if ltb fb.width (add64 moved.g_cursor_x font.width) then fb_newline font moved else moved

-- The two loops of `fb_clear_area`.
unfoldable pub clear_columns : (left : ℕ) → Pixels → (base x dx color : ℕ) → Pixels
unfolding write
clear_columns zero px base x dx color = px
clear_columns (suc left) px base x dx color =
    clear_columns left (write px (add64 base (add64 x dx)) color) base x (dx + 1) color

unfoldable pub clear_rows : (left : ℕ) → Pixels → (x y dy width stride color : ℕ) → Pixels
unfolding clear_columns
clear_rows zero px x y dy width stride color = px
clear_rows (suc left) px x y dy width stride color =
    clear_rows left (clear_columns width px (mul64 (add64 y dy) stride) x 0 color) x y (dy + 1)
      width stride color

unfoldable pub clip : (start length limit : ℕ) → ℕ
clip start length limit = if ltb limit (add64 start length) then sub64 limit start else length

unfoldable pub fb_clear_area : Option Framebuffer → (x y width height color : ℕ) → Pixels → Pixels
unfolding clip clear_rows
fb_clear_area none x y width height color px = px
fb_clear_area (some fb) x y width height color px =
    if leb fb.width x || leb fb.height y
    then px
    else let w = clip x width fb.width in
      let h = clip y height fb.height in
      if w == 0 || h == 0 then px else clear_rows h px x y 0 w (stride fb) color

-- `fb_clear` dereferences `g_fb` first: `none` stands for NULL.
unfoldable pub fb_clear : Console → Option Console
unfolding fb_clear_area
fb_clear c = elim (c.g_fb) [
  | none ↦ none
  | some fb ↦
      let px = fb_clear_area (some fb) 0 0 fb.width fb.height 0 c.text.pixels in
      some (record c { text = home (record c.text { pixels = px }) })
]

-- The cell at the cursor is cleared.
unfoldable pub clear_cell : Framebuffer → Font → Text → Text
unfolding fb_clear_area
clear_cell fb font t = record t {
  pixels = fb_clear_area (some fb) t.g_cursor_x t.g_cursor_y font.width font.height 0 t.pixels;
}

unfoldable pub backspace : Framebuffer → Font → Text → Text
unfolding clear_cell
backspace fb font t =
    if ltb left_margin t.g_cursor_x
    then record (clear_cell fb font (record t { g_cursor_x = sub64 t.g_cursor_x font.width })) {
      overwrite = false;
    }
    else if ltb first_line t.g_cursor_y
    then clear_cell fb font (record t {
      g_cursor_x = sub64 fb.width font.width;
      g_cursor_y = sub64 t.g_cursor_y font.line_height;
    })
    else t

-- The loops over the columns and the rows of a glyph; `glyph` are its bytes.
unfoldable pub glyph_bit : (ℕ → ℕ) → (row col bytes_per_row : ℕ) → Bool
glyph_bit glyph row col bytes_per_row =
    let byte_idx = u32 (row * bytes_per_row + col / 8) in
    not (bit_and (glyph byte_idx) (shr 0x80 (col % 8)) == 0)

unfoldable pub draw_pixel :
    Framebuffer → (ℕ → ℕ) → (x y row col bytes_per_row color : ℕ) → Pixels → Pixels
unfolding glyph_bit write
draw_pixel fb glyph x y row col bytes_per_row color px =
    let at_x = add64 x col in
    let at_y = add64 y row in
    if glyph_bit glyph row col bytes_per_row && ltb at_x fb.width && ltb at_y fb.height
    then write px (add64 (mul64 at_y (stride fb)) at_x) color
    else px

unfoldable pub draw_columns :
    (left : ℕ) → Framebuffer → (ℕ → ℕ) → (x y row col bytes_per_row color : ℕ) → Pixels → Pixels
unfolding draw_pixel
draw_columns zero fb glyph x y row col bytes_per_row color px = px
draw_columns (suc left) fb glyph x y row col bytes_per_row color px =
    draw_columns left fb glyph x y row (col + 1) bytes_per_row color
      (draw_pixel fb glyph x y row col bytes_per_row color px)

unfoldable pub draw_rows :
    (left : ℕ) → Framebuffer → (ℕ → ℕ) → (width x y row bytes_per_row color : ℕ) → Pixels → Pixels
unfolding draw_columns
draw_rows zero fb glyph width x y row bytes_per_row color px = px
draw_rows (suc left) fb glyph width x y row bytes_per_row color px =
    draw_rows left fb glyph width x y (row + 1) bytes_per_row color
      (draw_columns width fb glyph x y row 0 bytes_per_row color px)

unfoldable pub glyph_offset : Font → (codepoint : ℕ) → ℕ
glyph_offset font codepoint =
    if font.is_psf2 then mul64 codepoint font.charsize else mul64 codepoint font.height

-- The glyph is drawn at the cursor, which moves on.
unfoldable pub draw_glyph : Framebuffer → Font → (ℕ → ℕ) → (codepoint color : ℕ) → Text → Text
unfolding glyph_offset draw_rows fb_advance
draw_glyph fb font glyphs codepoint color t =
    let glyph = λ (i : ℕ). glyphs (glyph_offset font codepoint + i) in
    let px =
      draw_rows font.height fb glyph font.width t.g_cursor_x t.g_cursor_y 0
        (u32 (font.width + 7) / 8) color t.pixels in
    fb_advance fb font font.width (record t { pixels = px })

-- While overwriting, the cell is cleared first; `overwrite = new_right` keeps the flag set.
unfoldable pub overwritten : Framebuffer → Font → Text → Text
unfolding clear_cell
overwritten fb font t =
    let cleared = clear_cell fb font t in
    let new_right = add64 t.g_cursor_x font.width in
    if not t.overwrite
    then t
    else if ltb t.overwrite_pos new_right
    then record cleared { overwrite = not (new_right == 0) }
    else cleared

-- A character without a meaning for the cursor.
unfoldable pub put_glyph : Framebuffer → Font → (ℕ → ℕ) → (codepoint color : ℕ) → Text → Text
unfolding fb_newline overwritten draw_glyph
put_glyph fb font glyphs codepoint color t =
    let placed =
      if ltb fb.width (add64 t.g_cursor_x font.width)
      then record (fb_newline font t) { overwrite = false }
      else t in
    if ltb fb.height (add64 placed.g_cursor_y font.height)
    then placed
    else draw_glyph fb font glyphs codepoint color (overwritten fb font placed)

unfoldable pub put : Framebuffer → Font → (ℕ → ℕ) → (codepoint color : ℕ) → Text → Text
unfolding fb_newline backspace put_glyph
put fb font glyphs codepoint color t =
    let shown = if ltb 255 codepoint then 63 else codepoint in
    if shown == 10
    then record (fb_newline font t) { overwrite = false }
    else if shown == 13
    then record t { g_cursor_x = left_margin; overwrite = true; overwrite_pos = left_margin }
    else if shown == 8
    then backspace fb font t
    else put_glyph fb font glyphs shown color t

abbrev pub on_glyphs : Option (ℕ → ℕ) → ((ℕ → ℕ) → Text) → Text → Text
on_glyphs none use_them t = t
on_glyphs (some glyphs) use_them t = use_them glyphs

abbrev with_glyphs :
    Option Framebuffer → Option Font → (Framebuffer → Font → (ℕ → ℕ) → Text) → Text → Text
with_glyphs none font use_them t = t
with_glyphs (some fb) none use_them t = t
with_glyphs (some fb) (some font) use_them t = on_glyphs font.glyphs (use_them fb font) t

unfoldable pub fb_put_char : (codepoint color : ℕ) → Console → Console
unfolding put
fb_put_char codepoint color c = record c {
  text =
      with_glyphs c.g_fb c.g_font (λ fb font glyphs. put fb font glyphs codepoint color c.text)
        c.text;
}

unfoldable pub print_bytes : List ℕ → (color : ℕ) → Console → Console
unfolding fb_put_char
print_bytes [] color c = c
print_bytes (b ∷ bs) color c = print_bytes bs color (fb_put_char (u8 b) color c)

unfoldable pub fb_print : Option (List ℕ) → (color : ℕ) → Console → Console
unfolding print_bytes
fb_print none color c = c
fb_print (some str) color c = print_bytes str color c

-- `fb_print_at` with the `int` coordinates `x` and `y`.
unfoldable pub fb_print_at : Option (List ℕ) → (color : ℕ) → (x y : ℤ) → Console → Console
unfolding fb_print
fb_print_at str color (negsuc x) y c = c
fb_print_at str color (pos x) (negsuc y) c = c
fb_print_at str color (pos x) (pos y) c =
    let printed =
      fb_print str color (record c { text = record c.text { g_cursor_x = x; g_cursor_y = y } }) in
    record printed {
      text = record printed.text { g_cursor_x = c.text.g_cursor_x; g_cursor_y = c.text.g_cursor_y };
    }

-- The digits of `n` in front of `acc`; `none` is a store before the buffer, which has `room` left.
unfoldable pub number_loop : (room n : ℕ) → (acc : List ℕ) → Option (List ℕ)
number_loop zero n acc = none
number_loop (suc room) n acc =
    let digits = (48 + n % 10) ∷ acc in
    let rest = number_loop room (n / 10) digits in if n / 10 == 0 then some digits else rest

abbrev pub print_digits : Option (List ℕ) → (color : ℕ) → Console → Option Console
print_digits none color c = none
print_digits (some digits) color c = some (fb_print (some digits) color c)

unfoldable pub fb_print_number : (n color : ℕ) → Console → Option Console
unfolding number_loop fb_print
fb_print_number n color c = print_digits (number_loop 31 n []) color c
