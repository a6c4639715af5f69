-- ===== src/Numfmt/Tests.antt =====
-- Numbers in the bases 16, 10 and 2.
use sonna_os.Prelude.{◌<◌, ℕ, ◌^◌, ◌-◌, ◌≡◌, refl, some, none, List, length, arith}
use sonna_os.Memory.{Mem, write}
use sonna_os.Strings.{write_all}
use sonna_os.Numfmt.{utoa_loop, utoa_base, itoa_signed}
use sonna_os.Numfmt.Value.{value_in, utoa_base-value_in}

abbrev blank : Mem
blank a = 0

-- A value of 33 binary digits does not fit the 32 bytes of `tmp`.
overruns : utoa_base (2 ^ 32) blank 10 2 ≡ none
unfolding utoa_base utoa_loop
overruns = refl

negative_one : itoa_signed (2 ^ 64 - 1) blank 10 ≡ some (2, write (write blank 10 45) 11 49)
unfolding itoa_signed utoa_base utoa_loop write_all
negative_one = refl

utoa_base-value_in_example :
    (cs : List ℕ) × (utoa_base 48879 blank 10 16 ≡ some (length cs, write_all blank 10 cs))
    × (value_in 16 0 cs ≡ 48879)
    × (0 < length cs)
utoa_base-value_in_example =
    utoa_base-value_in 48879 blank 10 16 (omega arith) (omega arith) (omega arith)
