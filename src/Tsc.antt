-- ===== src/Tsc.antt =====
-- kernel/arch/x86_64/time/tsc.c and hpet.c: how fast the time-stamp counter counts. What the
-- processor and the timer answer are arguments: the registers of each CPUID leaf, the timer's
-- registers, and what each reading of the two counters gives. Serial messages are not modelled.
pub mod Rate
mod Tests
use sonna_os.Prelude.{
  ℕ, zero, suc, ◌+◌, ◌*◌, ◌/◌, ◌^◌, Bool, true, false, not, ◌&&◌, Option, none, some, List, [], ◌∷◌,
  bit_and, bit_or, shr, add64, sub64, mul64, ltb, leb, ◌==◌, if◌then◌else◌,
}
use sonna_os.Memory.Word.{read64}
use sonna_os.Vmm.{Vm}
use sonna_os.Vmm.Ops.{vmm_map}
use sonna_os.Acpi.{acpi_get_hpet}

-- What `cpuid` leaves in the registers.
pub record Registers : Type 0 where
  pub eax : ℕ
  pub ebx : ℕ
  pub ecx : ℕ
  pub edx : ℕ

abbrev pub Cpuid : Type 0
Cpuid = (leaf : ℕ) → Registers

unfoldable pub tsc_is_invariant : Cpuid → Bool
tsc_is_invariant cpuid =
    if leb 0x80000007 (cpuid 0x80000000).eax
    then not (bit_and (cpuid 0x80000007).edx 256 == 0)
    else false

-- The leaves 0x15, a crystal and its ratio, and 0x16, megahertz.
abbrev pub has_crystal : Cpuid → Bool
has_crystal cpuid =
    leb 0x15 (cpuid 0).eax
    && not ((cpuid 0x15).eax == 0)
    && not ((cpuid 0x15).ebx == 0)
    && not ((cpuid 0x15).ecx == 0)

abbrev pub has_megahertz : Cpuid → Bool
has_megahertz cpuid = leb 0x16 (cpuid 0).eax && not ((cpuid 0x16).eax == 0)

unfoldable pub tsc_calibrate_cpuid : Cpuid → ℕ
tsc_calibrate_cpuid cpuid =
    if has_crystal cpuid
    then mul64 (cpuid 0x15).ecx (cpuid 0x15).ebx / (cpuid 0x15).eax
    else if has_megahertz cpuid
    then mul64 (cpuid 0x16).eax 1000000
    else 0

-- `hpet_va` and `hpet_frequency_hz`.
pub record Hpet : Type 0 where
  pub hpet_va : ℕ
  pub hpet_frequency_hz : ℕ

-- The timer's registers are read by their offset, and what is written to them is listed.
pub record HpetInit : Type 0 where
  pub hpet : Hpet
  pub vm : Vm
  pub writes : List (ℕ × ℕ)

abbrev pub capabilities : ℕ
capabilities = 0

abbrev pub config : ℕ
config = 0x10

-- From the reading of the capabilities on.
abbrev pub start_timer : (registers : ℕ → ℕ) → Hpet → Vm → HpetInit
start_timer registers hpet vm =
    let period_fs = bit_and (shr (registers capabilities) 32) 0xFFFFFFFF in
    if period_fs == 0 then record { hpet = hpet; vm = vm; writes = [] } else (record {
      hpet = record hpet { hpet_frequency_hz = 1000000000000000 / period_fs };
      vm = vm;
      writes = (config, bit_or (registers config) 1) ∷ [];
    })

abbrev pub when_mapped : (registers : ℕ → ℕ) → Hpet → Option (Bool × Vm) → Option HpetInit
when_mapped registers hpet none = none
when_mapped registers hpet (some (ok, vm)) = some (start_timer registers hpet vm)

-- `hpet_init`; `none` is a NULL dereference of `vmm_map`, whose other outcome is not looked at.
unfoldable pub hpet_init : (registers : ℕ → ℕ) → Hpet → Vm → (rsdp : ℕ) → Option HpetInit
unfolding acpi_get_hpet read64 vmm_map
hpet_init registers hpet vm rsdp =
    let table = acpi_get_hpet vm.mem vm.pmm.hhdm_offset rsdp in
    let phys = read64 vm.mem (table + 44) in
    let va = add64 phys vm.pmm.hhdm_offset in
    let mapped = vmm_map vm va phys (1 + 2 + 8 + 16) in
    if table == 0
    then some (record { hpet = hpet; vm = vm; writes = [] })
    else when_mapped registers (record hpet { hpet_va = va }) mapped

-- `while (hpet_read(HPET_MAIN_COUNTER) - hpet_start < ticks_to_wait)` from the reading `n` of the
-- main counter on: the number of the first reading behind the loop's last one.
unfoldable pub wait_loop :
    (fuel : ℕ) → (counter : ℕ → ℕ) → (hpet_start ticks_to_wait n : ℕ) → Option ℕ
wait_loop zero counter hpet_start ticks_to_wait n = none
wait_loop (suc fuel) counter hpet_start ticks_to_wait n =
    let rest = wait_loop fuel counter hpet_start ticks_to_wait (n + 1) in
    if ltb (sub64 (counter n) hpet_start) ticks_to_wait then rest else some (n + 1)

-- The end of `tsc_calibrate_hpet`; a `hpet_delta` of 0 is a division by 0.
abbrev pub rate_of :
    (hpet_frequency_hz hpet_start tsc_start : ℕ) (counter tsc : ℕ → ℕ) → Option ℕ → Option ℕ
rate_of hz hpet_start tsc_start counter tsc none = none
rate_of hz hpet_start tsc_start counter tsc (some n) =
    let hpet_delta = sub64 (counter n) hpet_start in
    let tsc_delta = sub64 (tsc 1) tsc_start in
    if hpet_delta == 0 then none else some (mul64 tsc_delta hz / hpet_delta)

abbrev pub ticks_to_wait : (hpet_frequency_hz : ℕ) → ℕ
ticks_to_wait hz = mul64 hz 100000000 / 1000000000

-- `tsc_calibrate_hpet` behind `hpet_init`: `counter` and `tsc` are the successive readings.
unfoldable pub tsc_calibrate_hpet :
    (fuel : ℕ) → (hpet_frequency_hz : ℕ) → (counter tsc : ℕ → ℕ) → Option ℕ
unfolding wait_loop
tsc_calibrate_hpet fuel hz counter tsc =
    if hz == 0
    then some 0
    else rate_of hz (counter 0) (tsc 0) counter tsc
        (wait_loop fuel counter (counter 0) (ticks_to_wait hz) 1)

-- `tsc_frequency_hz` and `tsc_ticks_per_10ms`.
pub record Tsc : Type 0 where
  pub tsc_frequency_hz : ℕ
  pub tsc_ticks_per_10ms : ℕ

-- The end of `tsc_init`, given the result of `tsc_calibrate`.
unfoldable pub set_frequency : Tsc → (frequency : ℕ) → Tsc
set_frequency tsc frequency =
    if frequency == 0
    then record tsc { tsc_frequency_hz = frequency }
    else (record { tsc_frequency_hz = frequency; tsc_ticks_per_10ms = frequency / 100 })

-- `tsc_calibrate`, which asks the timer only when the processor gives no frequency.
abbrev pub or_timer : (from_cpuid : ℕ) → Option ℕ → Option ℕ
or_timer zero from_timer = from_timer
or_timer (suc n) from_timer = some (suc n)

abbrev pub calibrated : Tsc → Option ℕ → Option Tsc
calibrated tsc none = none
calibrated tsc (some frequency) = some (set_frequency tsc frequency)

unfoldable pub tsc_init :
    (fuel : ℕ) → Cpuid → (hpet_frequency_hz : ℕ) → (counter ticks : ℕ → ℕ) → Tsc → Option Tsc
unfolding tsc_calibrate_cpuid tsc_calibrate_hpet set_frequency
tsc_init fuel cpuid hz counter ticks tsc =
    calibrated tsc (or_timer (tsc_calibrate_cpuid cpuid) (tsc_calibrate_hpet fuel hz counter ticks))
