-- ===== src/Ioapic.antt =====
-- kernel/arch/x86_64/interrupts/ioapic.c: which I/O APIC serves an interrupt and what is written to
-- its redirection table. The registers are the device's: a read is an argument, and an operation
-- gives the writes that it makes, in order.
pub mod Pin
pub mod Setup
mod Tests
use sonna_os.Prelude.{
  ℕ, ◌+◌, ◌-◌, ◌*◌, ◌&&◌, Bool, Option, none, some, List, [], ◌∷◌, leb, ltb, if◌then◌else◌, bit_and,
  bit_or, u32, shl, not64, ◌==◌,
}

-- `ioapic_t`.
pub record Ioapic : Type 0 where
  pub ioapic_id : ℕ
  pub gsi_base : ℕ
  pub mmio_base_va : ℕ
  pub max_redirection : ℕ

-- A write of `value` to the register `reg`.
pub record Write : Type 0 where
  pub reg : ℕ
  pub value : ℕ

abbrev pub redir_tbl_offset : ℕ
redir_tbl_offset = 0x10

abbrev pub masked : ℕ
masked = 0x10000

-- The chip and the pin of a global system interrupt.
unfoldable pub ioapic_for_gsi : List Ioapic → (gsi : ℕ) → Option (Ioapic × ℕ)
ioapic_for_gsi [] gsi = none
ioapic_for_gsi (io ∷ ios) gsi =
    let rest = ioapic_for_gsi ios gsi in
    if leb io.gsi_base gsi && ltb gsi (u32 (io.gsi_base + io.max_redirection + 1))
    then some (io, gsi - io.gsi_base)
    else rest

-- `ioapic_write`: nothing without a base address.
abbrev pub ioapic_write : Ioapic → List Write → List Write
ioapic_write io ws = if io.mmio_base_va == 0 then [] else ws

-- `low_val` of `ioapic_set_irq`.
unfoldable pub low_value : (vector : ℕ) → (level low : Bool) → (delivery_mode : ℕ) → ℕ
low_value vector level low delivery_mode =
    bit_or (bit_or (bit_or vector delivery_mode) (if level then 0x8000 else 0))
      (if low then 0x2000 else 0)

abbrev pub set_pin : (low_val destination : ℕ) → Option (Ioapic × ℕ) → List Write
set_pin low_val destination none = []
set_pin low_val destination (some (io, pin)) =
    let low_reg = redir_tbl_offset + pin * 2 in
    ioapic_write io (
      record { reg = low_reg; value = bit_or low_val masked }
      ∷ record { reg = low_reg + 1; value = u32 (shl destination 24) }
      ∷ record { reg = low_reg; value = low_val }
      ∷ [])

unfoldable pub ioapic_set_irq :
    List Ioapic
    → (irq vector : ℕ) → (level_triggered active_low : Bool) → (delivery_mode destination : ℕ)
    → List Write
unfolding ioapic_for_gsi low_value
ioapic_set_irq ioapics irq vector level_triggered active_low delivery_mode destination =
    set_pin (low_value vector level_triggered active_low delivery_mode) destination
      (ioapic_for_gsi ioapics irq)

-- `ioapic_read` of a register that holds `device io reg`.
abbrev pub ioapic_read : (device : Ioapic → ℕ → ℕ) → Ioapic → (reg : ℕ) → ℕ
ioapic_read device io reg = if io.mmio_base_va == 0 then 0xFFFFFFFF else device io reg

-- A change of the low word of a pin's entry.
abbrev pub change_pin : (device : Ioapic → ℕ → ℕ) → (ℕ → ℕ) → Option (Ioapic × ℕ) → List Write
change_pin device change none = []
change_pin device change (some (io, pin)) =
    let low_reg = redir_tbl_offset + pin * 2 in
    ioapic_write io (record { reg = low_reg; value = change (ioapic_read device io low_reg) } ∷ [])

unfoldable pub ioapic_mask_irq : (device : Ioapic → ℕ → ℕ) → List Ioapic → (irq : ℕ) → List Write
unfolding ioapic_for_gsi
ioapic_mask_irq device ioapics irq =
    change_pin device (λ val. bit_or val masked) (ioapic_for_gsi ioapics irq)

unfoldable pub ioapic_unmask_irq : (device : Ioapic → ℕ → ℕ) → List Ioapic → (irq : ℕ) → List Write
unfolding ioapic_for_gsi
ioapic_unmask_irq device ioapics irq =
    change_pin device (λ val. bit_and val (not64 masked)) (ioapic_for_gsi ioapics irq)
