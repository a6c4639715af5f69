-- ===== src/Boot.antt =====
-- kernel/arch/x86_64/boot/main.c: the bootloader's name that is shown, and the logo over the
-- background. The bootloader's answers are arguments.
pub mod Name
pub mod Blend
mod Tests
use sonna_os.Prelude.{
  ℕ, zero, suc, ◌+◌, ◌-◌, ◌*◌, ◌/◌, ◌%◌, ◌^◌, Bool, not, ◌&&◌, Option, none, some, List, [], ◌∷◌,
  ◌++◌, length, bit_and, bit_or, shr, shl, u32, ltb, ◌==◌, if◌then◌else◌,
}
use sonna_os.Memory.{Mem}

-- A copying loop of `print_system_info`: `out` is what stands in `bootloader_str` up to `pos`.
-- `none` when the fuel runs out.
unfoldable pub copy_text : (fuel : ℕ) → Mem → (text i : ℕ) → (out : List ℕ) → Option (List ℕ)
copy_text zero m text i out = none
copy_text (suc fuel) m text i out =
    let rest = copy_text fuel m text (i + 1) (out ++ (m (text + i) ∷ [])) in
    if not (m (text + i) == 0) && ltb (length out + 1) 64 then rest else some out

abbrev pub add_space : List ℕ → List ℕ
add_space out = if ltb (length out + 1) 64 then out ++ (32 ∷ []) else out

abbrev pub then_version : (fuel : ℕ) → Mem → (version : ℕ) → Option (List ℕ) → Option (List ℕ)
then_version fuel m version none = none
then_version fuel m version (some out) = copy_text fuel m version 0 (add_space out)

-- `bootloader_str` up to its NUL.
unfoldable pub bootloader_str : (fuel : ℕ) → Mem → (name version : ℕ) → Option (List ℕ)
unfolding copy_text
bootloader_str fuel m name version = then_version fuel m version (copy_text fuel m name 0 [])

-- Where the closing NUL is written.
unfoldable pub end_of : (pos : ℕ) → ℕ
end_of pos = if ltb pos 64 then pos else 63

-- A channel of a pixel over the background, before it is cut to 8 bits.
unfoldable pub mixed : (pixel bg a shift : ℕ) → ℕ
mixed pixel bg a shift =
    bit_and (shr pixel shift) 0xFF * a / 255 + bit_and (shr bg shift) 0xFF * (255 - a) / 255

abbrev pub channel : (pixel bg a shift : ℕ) → ℕ
channel pixel bg a shift = mixed pixel bg a shift % 256

abbrev pub alpha : (pixel : ℕ) → ℕ
alpha pixel = bit_and (shr pixel 24) 0xFF

-- The value of the framebuffer under a pixel of the logo.
unfoldable pub blend : (pixel bg : ℕ) → ℕ
unfolding mixed
blend pixel bg =
    let a = alpha pixel in
    let over =
      bit_or (bit_or (shl (channel pixel bg a 16) 16) (shl (channel pixel bg a 8) 8))
        (channel pixel bg a 0) in
    if a == 0 then bg else if a == 0xFF then bit_and pixel 0x00FFFFFF else over

abbrev pub logo_w : ℕ
logo_w = 447

abbrev pub logo_h : ℕ
logo_h = 126

abbrev pub logo_x : (width : ℕ) → ℕ
logo_x width = u32 (width + (2 ^ 64 - logo_w - 750))

-- The pixels of the screen and of the logo by their index.
abbrev pub Pixels : Type 0
Pixels = (index : ℕ) → ℕ

abbrev pub put_pixel : Pixels → (at value : ℕ) → Pixels
put_pixel screen at value i = if i == at then value else screen i

abbrev pub logo_index : (width stride x y : ℕ) → ℕ
logo_index width stride x y = u32 (u32 ((7 + y) * stride) + u32 (logo_x width + x))

-- A row with `left` pixels to go, and the rows with `left` to go.
unfoldable pub logo_row : (left : ℕ) → Pixels → (logo : Pixels) → (width stride x y : ℕ) → Pixels
unfolding blend
logo_row zero screen logo width stride x y = screen
logo_row (suc left) screen logo width stride x y =
    let at = logo_index width stride x y in
    logo_row left (put_pixel screen at (blend (logo (y * logo_w + x)) (screen at))) logo width
      stride (x + 1) y

unfoldable pub logo_rows : (left : ℕ) → Pixels → (logo : Pixels) → (width stride y : ℕ) → Pixels
unfolding logo_row
logo_rows zero screen logo width stride y = screen
logo_rows (suc left) screen logo width stride y =
    logo_rows left (logo_row logo_w screen logo width stride 0 y) logo width stride (y + 1)

unfoldable pub draw_logo : Pixels → (logo : Pixels) → (width pitch : ℕ) → Pixels
unfolding logo_rows
draw_logo screen logo width pitch = logo_rows logo_h screen logo width (u32 (pitch / 4)) 0
