-- ===== src/Lapic.antt =====
-- kernel/arch/x86_64/interrupts/lapic.c and apictimer.c: what is written to the local interrupt
-- controller, in order. What CPUID, the model-specific registers and the time-stamp counter
-- answer are arguments. The timer's effect on the run queue is `timer_tick` of Scheduler.
mod Tests
use sonna_os.Prelude.{
  ℕ, ◌+◌, ◌*◌, ◌/◌, ◌%◌, ◌^◌, Bool, true, false, not, ◌&&◌, Option, none, some, List, [], ◌∷◌, ◌++◌,
  bit_and, bit_or, shr, add64, ◌==◌, if◌then◌else◌,
}
use sonna_os.Memory.Word.{bytes_value}
use sonna_os.Vmm.{Vm}
use sonna_os.Vmm.Ops.{vmm_map}
use sonna_os.Acpi.{acpi_get_madt}
use sonna_os.Tsc.{Cpuid, Tsc, tsc_is_invariant}

-- A model-specific register, or a register in memory.
pub data Place : Type 0 where
  msr : ℕ → Place
  mmio : ℕ → Place

pub record Lapic : Type 0 where
  pub lapic_phys : ℕ
  pub lapic_va : ℕ
  pub x2apic_enabled : Bool

abbrev pub place_of : Lapic → (reg : ℕ) → Place
place_of l reg =
    if l.x2apic_enabled then msr (0x800 + shr reg 4) else mmio (l.lapic_va + 4 * (reg / 4))

unfoldable pub lapic_read : (device : Place → ℕ) → Lapic → (reg : ℕ) → ℕ
lapic_read device l reg = device (place_of l reg) % 2 ^ 32

unfoldable pub lapic_write : Lapic → (reg value : ℕ) → Place × ℕ
lapic_write l reg value = (place_of l reg, value)

unfoldable pub lapic_eoi : Lapic → Place × ℕ
unfolding lapic_write
lapic_eoi l = lapic_write l 0x0B0 0

pub record LapicInit : Type 0 where
  pub lapic : Lapic
  pub vm : Vm
  pub writes : List (Place × ℕ)

-- The end of `lapic_init`, the controller being mapped.
unfoldable pub enable_lapic : Cpuid → (device : Place → ℕ) → Lapic → List (Place × ℕ) × Lapic
unfolding lapic_write
enable_lapic cpuid device l =
    let base = bit_or (device (msr 0x1B)) (2048 + 1024) in
    let on = record l { x2apic_enabled = true } in
    let set =
      (msr 0x1B, base)
      ∷ lapic_write on 0x280 0
      ∷ lapic_write on 0x080 0
      ∷ lapic_write on 0x0F0 (256 + 0xFF)
      ∷ lapic_write on 0x330 65536
      ∷ lapic_write on 0x340 65536
      ∷ lapic_write on 0x350 65536
      ∷ lapic_write on 0x360 65536
      ∷ lapic_write on 0x370 (65536 + 0xFE)
      ∷ [] in
    if not (bit_and (cpuid 1).ecx 2097152 == 0)
    then (set, on)
    else ([], record l { x2apic_enabled = false })

abbrev pub enabled : Vm → List (Place × ℕ) × Lapic → LapicInit
enabled vm (writes, l) = record { lapic = l; vm = vm; writes = writes }

abbrev pub lapic_mapped :
    Cpuid → (device : Place → ℕ) → Lapic → Option (Bool × Vm) → Option LapicInit
lapic_mapped cpuid device l none = none
lapic_mapped cpuid device l (some (ok, vm)) = some (enabled vm (enable_lapic cpuid device l))

-- `lapic_init`; `none` is a NULL dereference of `vmm_map`, whose other outcome is not looked at.
unfoldable pub lapic_init :
    Cpuid → (device : Place → ℕ) → Lapic → Vm → (rsdp : ℕ) → Option LapicInit
unfolding acpi_get_madt bytes_value vmm_map enable_lapic
lapic_init cpuid device l vm rsdp =
    let madt = acpi_get_madt vm.mem vm.pmm.hhdm_offset rsdp in
    let phys = bytes_value 4 vm.mem (madt + 36) in
    let va = add64 phys vm.pmm.hhdm_offset in
    let found = record l { lapic_phys = phys; lapic_va = va } in
    let mapped = vmm_map vm va phys (1 + 2 + 16 + 8) in
    if madt == 0
    then some (record { lapic = l; vm = vm; writes = [] })
    else lapic_mapped cpuid device found mapped

-- `apic_timer_init` when the time-stamp counter reads `now`.
abbrev pub uses_deadline : Cpuid → Tsc → Bool
uses_deadline cpuid tsc =
    not (bit_and (cpuid 1).ecx 16777216 == 0)
    && not (tsc.tsc_frequency_hz == 0)
    && tsc_is_invariant cpuid

unfoldable pub apic_timer_init : Cpuid → Tsc → Lapic → (now : ℕ) → List (Place × ℕ)
unfolding tsc_is_invariant lapic_write
apic_timer_init cpuid tsc l now =
    let deadline =
      lapic_write l 0x320 (0x20 + 262144)
      ∷ (msr 0x6E0, 0)
      ∷ (msr 0x6E0, add64 now tsc.tsc_ticks_per_10ms)
      ∷ [] in
    let periodic =
      lapic_write l 0x3E0 3
      ∷ lapic_write l 0x320 (0x20 + 131072)
      ∷ lapic_write l 0x380 1000000
      ∷ [] in
    (if uses_deadline cpuid tsc then deadline else periodic) ++ (lapic_write l 0x370 0xFE ∷ [])

-- What `lapic_timer_handler` writes.
unfoldable pub timer_writes : Tsc → Lapic → (now : ℕ) → List (Place × ℕ)
unfolding lapic_eoi
timer_writes tsc l now =
    if l.x2apic_enabled
    then (msr 0x6E0, add64 now tsc.tsc_ticks_per_10ms) ∷ lapic_eoi l ∷ []
    else lapic_eoi l ∷ []
