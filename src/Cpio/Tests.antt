-- ===== src/Cpio/Tests.antt =====
-- The field "1bF" and an address that is no archive.
use sonna_os.Prelude.{◌≡◌, refl, some, [], ◌∷◌, ◌==◌, if◌then◌else◌, arith}
use sonna_os.Memory.{Mem}
use sonna_os.Strings.{strncmp}
use sonna_os.Cpio.{cpio_parse_hex, parse_loop, lookup_loop, cpio_lookup, missing}
use sonna_os.Cpio.Field.{decimal, lower_case, upper_case, hex_number, cpio_parse_hex-number}

abbrev field : Mem
field a = if a == 10 then 49 else if a == 11 then 98 else if a == 12 then 70 else 0

stops_at_nul : cpio_parse_hex field 10 8 ≡ 0x1BF
unfolding cpio_parse_hex parse_loop
stops_at_nul = refl

no_archive : cpio_lookup 2 field 10 11 12 (some 20) ≡ missing
unfolding lookup_loop strncmp
no_archive = refl

cpio_parse_hex-number_example : cpio_parse_hex field 10 3 ≡ hex_number 0 (1 ∷ 11 ∷ 15 ∷ [])
cpio_parse_hex-number_example =
    cpio_parse_hex-number field 10 (1 ∷ 11 ∷ 15 ∷ []) (omega arith)
      (decimal 1 (omega arith), (lower_case 1 (omega arith), (upper_case 5 (omega arith), tt)))
