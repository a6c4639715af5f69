-- ===== src/Boot/Tests.antt =====
-- The bootloader `L 9`, and a grey pixel.
use sonna_os.Prelude.{
  ℕ, ◌-◌, ◌≤◌, ◌≡◌, refl, some, List, [], ◌∷◌, ◌++◌, length, take, get_or, ltb, if◌then◌else◌,
  arith,
}
use sonna_os.Memory.{Mem}
use sonna_os.Boot.{bootloader_str, end_of, mixed, channel, blend}
use sonna_os.Boot.Name.{bootloader_str-take}
use sonna_os.Boot.Blend.{mixed-bounds}

abbrev memory : Mem
memory = λ p. if ltb p 10 then 0 else get_or (76 ∷ 0 ∷ 57 ∷ 0 ∷ []) (p - 10) 0

abbrev name_text : List ℕ
name_text = 76 ∷ []

abbrev version_text : List ℕ
version_text = 57 ∷ []

bootloader_str-take_example :
    (bootloader_str 64 memory 10 12 ≡ some (take 63 (name_text ++ 32 ∷ version_text)))
    × (end_of (length (take 63 (name_text ++ 32 ∷ version_text)))
        ≡ length (take 63 (name_text ++ 32 ∷ version_text)))
bootloader_str-take_example =
    bootloader_str-take 64 memory 10 12 name_text version_text (omega arith)
      (refl, omega arith, refl) (refl, omega arith, refl)

mixed-bounds_example :
    (mixed 0x80FFFFFF 0xFFFFFF 128 8 ≤ 255)
    × (channel 0x80FFFFFF 0xFFFFFF 128 8 ≡ mixed 0x80FFFFFF 0xFFFFFF 128 8)
mixed-bounds_example = mixed-bounds 0x80FFFFFF 0xFFFFFF 128 8 (omega arith)

grey : blend 0x80FF8000 0 ≡ 0x804000
unfolding blend mixed
grey = refl
