-- ===== src/Fbtext/Tests.antt =====
-- Text on a small screen, and the theorems of kernel/drivers/fbtext.c there.
use sonna_os.Prelude.{length, ◌<◌, ℕ, List, All, ◌+◌, ◌*◌, ◌≡◌, refl, true, false, some, arith}
use sonna_os.Strings.Decimal.{decimal, IsDigit}
use sonna_os.Fbtext.Number.{fb_print_number-decimal}
use sonna_os.Fbtext.{fb_print_number, fb_print, Framebuffer, Font, Text, fb_clear_area, fb_put_char}
use sonna_os.Fbtext.Clear.{IsFramebuffer, fb_clear_area-at}
use sonna_os.Fbtext.Cursor.{IsFont, IsCursor}
use sonna_os.Fbtext.Put.{console, fb_put_char-IsCursor}

-- 40 columns in rows of 48 pixels.
abbrev screen : Framebuffer
screen = record { width = 40; height = 50; pitch = 192 }

abbrev font : Font
font = record {
  is_psf2 = true;
  charsize = 2;
  glyphs = some λ i. 255;
  width = 8;
  height = 2;
  line_height = 3;
}

abbrev text : Text
text = record {
  g_cursor_x = 28;
  g_cursor_y = 15;
  overwrite = false;
  overwrite_pos = 0;
  pixels = λ i. 7;
}

screen-IsFramebuffer : IsFramebuffer screen
screen-IsFramebuffer = record {
  narrow = omega arith;
  total = omega arith;
  columns = omega arith;
  rows = omega arith;
}

font-IsFont : IsFont screen font
font-IsFont = record {
  narrow = omega arith;
  fits = omega arith;
  low = omega arith;
  far = omega arith;
}

text-IsCursor : IsCursor screen font text
text-IsCursor = record { column = omega arith; lines = 0; line = refl }

fb_clear_area-at_example : fb_clear_area (some screen) 30 10 20 2 0 (λ i. 7) (11 * 48 + 39) ≡ 0
fb_clear_area-at_example =
    fb_clear_area-at screen 30 10 20 2 0 (λ i. 7) 39 11 screen-IsFramebuffer (omega arith)
      (omega arith) (omega arith)

-- The letter fits, and the next one wraps.
fb_put_char-IsCursor_example :
    IsCursor screen font (fb_put_char 65 9 (console screen font text)).text
fb_put_char-IsCursor_example =
    fb_put_char-IsCursor screen font 65 9 text screen-IsFramebuffer font-IsFont text-IsCursor
      (omega arith)

fb_print_number-decimal_example :
    (digits : List ℕ) × (fb_print_number 1024 9 (console screen font text)
      ≡ some (fb_print (some digits) 9 (console screen font text)))
    × (decimal 0 digits ≡ 1024)
    × All IsDigit digits
    × (0 < length digits)
fb_print_number-decimal_example =
    fb_print_number-decimal 1024 9 (console screen font text) (omega arith)
