-- ===== src/Tsc/Tests.antt =====
-- A processor with a crystal of 24 MHz, and a timer of 100 Hz.
use sonna_os.Prelude.{ℕ, ◌+◌, ◌*◌, ◌^◌, ◌<◌, ◌≡◌, refl, if◌then◌else◌, ◌==◌, arith}
use sonna_os.Tsc.{Cpuid, tsc_calibrate_cpuid, tsc_calibrate_hpet, ticks_to_wait}
use sonna_os.Tsc.Rate.{
  IsNarrow, IsQuotient, Counts, IsRate, tsc_calibrate_cpuid-bounds, tsc_calibrate_hpet-IsRate,
}

abbrev processor : Cpuid
processor leaf =
    if leaf == 0x15
    then (record { eax = 2; ebx = 250; ecx = 24000000; edx = 0 })
    else (record { eax = 0x16; ebx = 0; ecx = 0; edx = 0 })

three_gigahertz : tsc_calibrate_cpuid processor ≡ 3000000000
unfolding tsc_calibrate_cpuid
three_gigahertz = refl

processor-IsNarrow : IsNarrow (processor 0x15)
processor-IsNarrow = record { eax = omega arith; ebx = omega arith; ecx = omega arith }

tsc_calibrate_cpuid-bounds_example :
    (tsc_calibrate_cpuid processor < 2 ^ 64)
    × IsQuotient
        ((processor 0x15).ecx * (processor 0x15).ebx)
        (processor 0x15).eax
        (tsc_calibrate_cpuid processor)
tsc_calibrate_cpuid-bounds_example = tsc_calibrate_cpuid-bounds processor processor-IsNarrow refl

-- The timer counts one for each reading, the processor 200000 in all.
abbrev counter : ℕ → ℕ
counter k = 500 + k

abbrev tsc : ℕ → ℕ
tsc k = 1000 + 200000 * k

counter-Counts : Counts counter (ticks_to_wait 100 + 2)
counter-Counts = record { up = λ k lt. omega arith; small = omega arith }

tsc_calibrate_hpet-IsRate_example :
    IsRate counter tsc 100 (ticks_to_wait 100) (tsc_calibrate_hpet 20 100 counter tsc)
tsc_calibrate_hpet-IsRate_example =
    tsc_calibrate_hpet-IsRate 20 100 counter tsc (omega arith) (omega arith) counter-Counts
      (omega arith) (omega arith) (omega arith)
