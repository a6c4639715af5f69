-- ===== src/Font/Tests.antt =====
-- A header of 32 bytes that claims 2^16 glyphs of 2^16 bytes.
use sonna_os.Prelude.{◌-◌, ◌≡◌, refl, [], ◌∷◌, get_or, ltb, if◌then◌else◌}
use sonna_os.Memory.{Mem}
use sonna_os.Font.{load_psf1_font, load_psf2_font}

abbrev memory : Mem
memory = λ p.
    if ltb p 100
    then 0
    else get_or
        (0x72 ∷ 0xB5 ∷ 0x4A ∷ 0x86 ∷ 0 ∷ 0 ∷ 0 ∷ 0 ∷ 32 ∷ 0 ∷ 0 ∷ 0 ∷ 0 ∷ 0 ∷ 0 ∷ 0 ∷ 0 ∷ 0 ∷ 1 ∷ 0
          ∷ 0 ∷ 0 ∷ 1 ∷ 0 ∷ [])
        (p - 100) 0

-- The size wraps to that of the header, and the file passes.
too_long_passes : load_psf2_font memory 100 32 ≡ 100
unfolding load_psf2_font sonna_os.Memory.Word.bytes_value
too_long_passes = refl

no_psf1 : load_psf1_font memory 100 ≡ 0
unfolding load_psf1_font
no_psf1 = refl
