-- ===== src/Font.antt =====
-- kernel/drivers/font.c: whether a file is a font that can be used. The file lies in memory; a
-- result of 0 is NULL.
mod Tests
use sonna_os.Prelude.{ℕ, ◌+◌, ◌*◌, ◌^◌, ◌%◌, ◌&&◌, ltb, leb, ◌==◌, if◌then◌else◌}
use sonna_os.Memory.{Mem}
use sonna_os.Memory.Word.{bytes_value}

unfoldable pub load_psf1_font : Mem → (fontfile : ℕ) → ℕ
load_psf1_font m fontfile =
    if fontfile == 0
    then 0
    else if (m fontfile == 0x36) && (m (fontfile + 1) == 0x04)
    then fontfile
    else 0

-- The fields of `struct psf2_header` that the check reads.
pub record Psf2Header : Type 0 where
  pub magic : ℕ
  pub headersize : ℕ
  pub length : ℕ
  pub charsize : ℕ

unfoldable pub read_psf2 : Mem → (p : ℕ) → Psf2Header
unfolding bytes_value
read_psf2 m p = record {
  magic = bytes_value 4 m p;
  headersize = bytes_value 4 m (p + 8);
  length = bytes_value 4 m (p + 16);
  charsize = bytes_value 4 m (p + 20);
}

-- `hdr->headersize + hdr->length * hdr->charsize`, in 32 bits.
abbrev pub font_size : Psf2Header → ℕ
font_size h = (h.headersize + h.length * h.charsize % 2 ^ 32) % 2 ^ 32

unfoldable pub load_psf2_font : Mem → (fontfile size : ℕ) → ℕ
unfolding read_psf2
load_psf2_font m fontfile size =
    let h = read_psf2 m fontfile in
    if fontfile == 0
    then 0
    else if ltb size 32
    then 0
    else if (h.magic == 0x864AB572) && leb (font_size h) size
    then fontfile
    else 0
