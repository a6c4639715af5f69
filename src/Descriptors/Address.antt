-- ===== src/Descriptors/Address.antt =====
-- The fields of a descriptor give its address back.
use sonna_os.Prelude.{ℕ, ◌+◌, ◌*◌, ◌/◌, ◌^◌, ◌<◌, ◌≡◌, arith}
use sonna_os.Prelude.Bits.{bit_and_low}
use sonna_os.Descriptors.{GdtSystemEntry, IdtEntry, gate, tss_descriptor, tss_size}

-- The address by which the processor finds the handler and the task state.
abbrev pub handler : IdtEntry → ℕ
handler e = e.offset_low + e.offset_mid * 2 ^ 16 + e.offset_high * 2 ^ 32

abbrev pub base : GdtSystemEntry → ℕ
base e = e.base_low + e.base_mid * 2 ^ 16 + e.base_high * 2 ^ 24 + e.base_upper * 2 ^ 32

-- The three offset fields of a gate give back the 64-bit address of its handler.
pub handler-gate : (addr ist : ℕ) → addr < 2 ^ 64 → handler (gate addr ist) ≡ addr
unfolding gate
handler-gate addr ist lt = omega (arith, bit_and_low 16 addr, bit_and_low 16 (addr / 2 ^ 16))

-- The four base fields of the task-state descriptor give back the 64-bit address, and its limit
-- is the size less one.
pub base-tss_descriptor :
    (addr : ℕ)
    → addr < 2 ^ 64
    → (base (tss_descriptor addr) ≡ addr) × ((tss_descriptor addr).limit_low + 1 ≡ tss_size)
unfolding tss_descriptor
base-tss_descriptor addr lt = (
  omega (arith, bit_and_low 16 addr, bit_and_low 8 (addr / 2 ^ 16), bit_and_low 8 (addr / 2 ^ 24)),
  omega arith,
)
