-- ===== src/Descriptors.antt =====
-- kernel/arch/x86_64/cpu/gdt.c and interrupts/idt.c: the tables that describe segments, the task
-- state and the interrupt handlers. The addresses of code and data are arguments; loading the
-- tables into the processor is assembly.
pub mod Address
pub mod Handlers
mod Tests
use sonna_os.Prelude.{
  ℕ, zero, suc, ◌+◌, ◌*◌, ◌-◌, ◌==◌, if◌then◌else◌, bit_and, shr, add64, u8, u16, u32, List, [],
  ◌∷◌,
}

-- `struct gdt_entry`.
pub record GdtEntry : Type 0 where
  pub limit_low : ℕ
  pub base_low : ℕ
  pub base_mid : ℕ
  pub access : ℕ
  pub granularity : ℕ
  pub base_high : ℕ

-- `struct gdt_system_entry`.
pub record GdtSystemEntry : Type 0 where
  pub limit_low : ℕ
  pub base_low : ℕ
  pub base_mid : ℕ
  pub access : ℕ
  pub granularity : ℕ
  pub base_high : ℕ
  pub base_upper : ℕ
  pub reserved : ℕ

-- `sizeof(struct tss_struct)`.
abbrev pub tss_size : ℕ
tss_size = 104

-- The assignments to `gdt[1]` … `gdt[4]`: only access and granularity differ from 0.
abbrev pub flat_segment : (access granularity : ℕ) → GdtEntry
flat_segment access granularity = record {
  limit_low = 0;
  base_low = 0;
  base_mid = 0;
  access = access;
  granularity = granularity;
  base_high = 0;
}

-- `gdt[0]` … `gdt[4]` as `gdt_init` leaves them.
abbrev pub segments : List GdtEntry
segments =
    flat_segment 0 0
    ∷ flat_segment 0x9A 0x20
    ∷ flat_segment 0x92 0x00
    ∷ flat_segment 0xF2 0x00
    ∷ flat_segment 0xFA 0x20
    ∷ []

-- The descriptor of the task state in `gdt[5]` and `gdt[6]`.
unfoldable pub tss_descriptor : (tss_addr : ℕ) → GdtSystemEntry
tss_descriptor tss_addr = record {
  limit_low = u16 (tss_size - 1);
  base_low = u16 (bit_and tss_addr 0xFFFF);
  base_mid = u8 (bit_and (shr tss_addr 16) 0xFF);
  access = 0x89;
  granularity = 0x00;
  base_high = u8 (bit_and (shr tss_addr 24) 0xFF);
  base_upper = u32 (shr tss_addr 32);
  reserved = 0;
}

-- `struct idt_entry`.
pub record IdtEntry : Type 0 where
  pub offset_low : ℕ
  pub selector : ℕ
  pub ist : ℕ
  pub type_attr : ℕ
  pub offset_mid : ℕ
  pub offset_high : ℕ

abbrev pub Idt : Type 0
Idt = ℕ → IdtEntry

-- The entry that `idt_set_gate` writes; its field `zero` is 0 and left out.
unfoldable pub gate : (addr ist : ℕ) → IdtEntry
gate addr ist = record {
  offset_low = u16 (bit_and addr 0xFFFF);
  selector = 0x08;
  ist = ist;
  type_attr = 0x8E;
  offset_mid = u16 (bit_and (shr addr 16) 0xFFFF);
  offset_high = u32 (shr addr 32);
}

unfoldable pub idt_set_gate : Idt → (n addr ist : ℕ) → Idt
unfolding gate
idt_set_gate idt n addr ist q = if q == n then gate addr ist else idt q

-- The first loop of `idt_init`, from `i` on: entry `i` leads 16 * i bytes behind the first stub.
unfoldable pub fill_gates : (left i : ℕ) → (isr0 : ℕ) → Idt → Idt
unfolding idt_set_gate
fill_gates zero i isr0 idt = idt
fill_gates (suc left) i isr0 idt =
    fill_gates left (i + 1) isr0 (idt_set_gate idt i (add64 isr0 (i * 16)) 0)

-- The stacks of the interrupt stack table that `idt_init` names: 2 for the non-maskable interrupt,
-- 1 for the double fault, 3 for the machine check.
abbrev pub ist_of : ℕ → ℕ
ist_of n = if n == 2 then 2 else if n == 8 then 1 else if n == 18 then 3 else 0

-- The calls for the exceptions `n`, `n + 1`, …
unfoldable pub set_exceptions : (left n : ℕ) → (isr : ℕ → ℕ) → Idt → Idt
unfolding idt_set_gate
set_exceptions zero n isr idt = idt
set_exceptions (suc left) n isr idt =
    set_exceptions left (n + 1) isr (idt_set_gate idt n (isr n) (ist_of n))

unfoldable pub idt_init :
    (isr : ℕ → ℕ) → (lapic_timer_isr keyboard_isr lapic_error_isr : ℕ) → Idt → Idt
unfolding fill_gates set_exceptions idt_set_gate
idt_init isr lapic_timer_isr keyboard_isr lapic_error_isr idt =
    let exceptions = set_exceptions 32 0 isr (fill_gates 256 0 (isr 0) idt) in
    let timer = idt_set_gate exceptions 0x20 lapic_timer_isr 0 in
    idt_set_gate (idt_set_gate timer 0x21 keyboard_isr 0) 0xFE lapic_error_isr 0
