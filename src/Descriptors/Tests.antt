-- ===== src/Descriptors/Tests.antt =====
-- A handler in the upper half of the address space.
use sonna_os.Prelude.{ℕ, ◌+◌, ◌*◌, arith}
use sonna_os.Descriptors.{gate, Idt, idt_init}
use sonna_os.Descriptors.Handlers.{IsGate, idt_init-handler}

abbrev no_gates : Idt
no_gates q = gate 0 0

abbrev stubs : ℕ → ℕ
stubs n = 0xFFFFFFFF80001000 + n * 16

idt_init-handler_example : IsGate (idt_init stubs 7000 8000 9000 no_gates 8) 0xFFFFFFFF80001080 1
idt_init-handler_example =
    idt_init-handler stubs 7000 8000 9000 no_gates 8 (omega arith) (omega arith)
