-- ===== src/Descriptors/Handlers.antt =====
-- Which handler `idt_init` gives each interrupt vector.
use sonna_os.Prelude.{
  ℕ, zero, suc, ◌+◌, ◌*◌, ◌^◌, ◌<◌, ◌≡◌, refl, ◌/◌, ◌%◌, sym, subst, ◌∙◌, ap, ◌==◌, ltb,
  if◌then◌else◌, add64, arith,
}
use sonna_os.Memory.Copy.{within}
use sonna_os.Descriptors.Address.{handler-gate}
use sonna_os.Descriptors.{
  Idt, IdtEntry, gate, idt_set_gate, fill_gates, set_exceptions, ist_of, idt_init,
}

fill_gates-at :
    (left i isr0 : ℕ) (idt : Idt) (q : ℕ)
    → fill_gates left i isr0 idt q
      ≡ (if within i left q then gate (add64 isr0 (q * 16)) 0 else idt q)
unfolding fill_gates idt_set_gate
fill_gates-at zero i isr0 idt q = ground arith
fill_gates-at (suc left) i isr0 idt q =
    ground (arith, fill_gates-at left (i + 1) isr0 (idt_set_gate idt i (add64 isr0 (i * 16)) 0) q)

set_exceptions-at :
    (left n : ℕ) (isr : ℕ → ℕ) (idt : Idt) (q : ℕ)
    → set_exceptions left n isr idt q ≡ (if within n left q then gate (isr q) (ist_of q) else idt q)
unfolding set_exceptions idt_set_gate
set_exceptions-at zero n isr idt q = ground arith
set_exceptions-at (suc left) n isr idt q =
    ground (arith, set_exceptions-at left (n + 1) isr (idt_set_gate idt n (isr n) (ist_of n)) q)

-- The handler of a vector and its entry of the interrupt stack table.
abbrev pub handler_address :
    (isr : ℕ → ℕ) → (lapic_timer_isr keyboard_isr lapic_error_isr : ℕ) → ℕ → ℕ
handler_address isr timer keyboard error q =
    if q == 254
    then error
    else if q == 33
    then keyboard
    else if q == 32
    then timer
    else if ltb q 32
    then isr q
    else add64 (isr 0) (q * 16)

-- The stack that the vector's handler runs on: that of the double fault, of the non-maskable
-- interrupt or of the machine check, and 0 for no switch.
abbrev pub stack_of : ℕ → ℕ
stack_of q = if q == 8 then 1 else if q == 2 then 2 else if q == 18 then 3 else 0

-- A gate for `address` that is present, for the kernel alone, an interrupt gate, and enters the
-- kernel's code segment on the stack `stack`.
pub record IsGate (g : IdtEntry) (address stack : ℕ) : Type 0 where
  pub target : g.offset_low + g.offset_mid * 2 ^ 16 + g.offset_high * 2 ^ 32 ≡ address
  pub present : g.type_attr / 128 % 2 ≡ 1
  pub privilege : g.type_attr / 32 % 4 ≡ 0
  pub kind : g.type_attr % 32 ≡ 14
  pub segment : g.selector ≡ 8
  pub ist : g.ist ≡ stack

exceptions-at :
    (isr : ℕ → ℕ) (idt : Idt) (q : ℕ)
    → q < 256
    → set_exceptions 32 0 isr (fill_gates 256 0 (isr 0) idt) q
      ≡ (if ltb q 32 then gate (isr q) (ist_of q) else gate (add64 (isr 0) (q * 16)) 0)
exceptions-at isr idt q lt = ground (
  arith,
  set_exceptions-at 32 0 isr (fill_gates 256 0 (isr 0) idt) q,
  fill_gates-at 256 0 (isr 0) idt q,
)

idt_init-device :
    (isr : ℕ → ℕ) (timer keyboard error : ℕ) (idt : Idt) (q : ℕ)
    → idt_init isr timer keyboard error idt q ≡ (
        if q == 254
        then gate error 0
        else if q == 33
        then gate keyboard 0
        else if q == 32
        then gate timer 0
        else set_exceptions 32 0 isr (fill_gates 256 0 (isr 0) idt) q)
unfolding idt_init idt_set_gate
idt_init-device isr timer keyboard error idt q = refl

choose_gate :
    (timer keyboard error exception other q : ℕ)
    → (if q == 254
        then gate error 0
        else if q == 33
        then gate keyboard 0
        else if q == 32
        then gate timer 0
        else if ltb q 32
        then gate exception (ist_of q)
        else gate other 0)
      ≡ gate
          (if q == 254
            then error
            else if q == 33
            then keyboard
            else if q == 32
            then timer
            else if ltb q 32
            then exception
            else other)
          (stack_of q)
choose_gate timer keyboard error exception other q = ground arith

idt_init-gate :
    (isr : ℕ → ℕ) (timer keyboard error : ℕ) (idt : Idt) (q : ℕ)
    → q < 256
    → idt_init isr timer keyboard error idt q
      ≡ gate (handler_address isr timer keyboard error q) (stack_of q)
idt_init-gate isr timer keyboard error idt q lt =
    idt_init-device isr timer keyboard error idt q
    ∙ ap
        (λ g.
          if q == 254
          then gate error 0
          else if q == 33
          then gate keyboard 0
          else if q == 32
          then gate timer 0
          else g)
        (exceptions-at isr idt q lt)
    ∙ choose_gate timer keyboard error (isr q) (add64 (isr 0) (q * 16)) q

-- After idt_init each of the 256 vectors has a present interrupt gate of privilege 0 into the
-- kernel's code segment, whose three offset fields give back the 64-bit address of its handler:
-- the three device handlers at 0x20, 0x21 and 0xFE, the exception stubs below 0x20, with stack 2
-- for the non-maskable interrupt, 1 for the double fault, 3 for the machine check and 0
-- elsewhere, and at the rest 16 bytes times the vector behind the first stub, an address at
-- which isr.S has no stub.
pub idt_init-handler :
    (isr : ℕ → ℕ) (timer keyboard error : ℕ) (idt : Idt) (q : ℕ)
    → q < 256
    → handler_address isr timer keyboard error q < 2 ^ 64
    → IsGate
        (idt_init isr timer keyboard error idt q)
        (handler_address isr timer keyboard error q)
        (stack_of q)
unfolding gate
idt_init-handler isr timer keyboard error idt q lt small =
    let e = idt_init-gate isr timer keyboard error idt q lt in
    let address = handler_address isr timer keyboard error q in
    subst (λ g. IsGate g address (stack_of q)) (sym e)
      (record {
        target = handler-gate address (stack_of q) small;
        present = refl;
        privilege = refl;
        kind = refl;
        segment = refl;
        ist = refl;
      })
