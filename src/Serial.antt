-- ===== src/Serial.antt =====
-- kernel/drivers/serial.c: the bytes that are written to the ports of COM1, in order. What the
-- line's status register answers is an argument, reading by reading.
mod Tests
use sonna_os.Prelude.{
  ℕ, zero, suc, ◌+◌, Option, none, some, List, [], ◌∷◌, ◌++◌, bit_and, ◌==◌, if◌then◌else◌,
}
use sonna_os.Memory.{Mem}

abbrev pub com1_port : ℕ
com1_port = 0x3F8

-- A write of `val` to `port`.
pub record Outb : Type 0 where
  pub port : ℕ
  pub val : ℕ

abbrev out : (port val : ℕ) → Outb
out port val = record { port = port; val = val }

abbrev pub serial_init : List Outb
serial_init =
    out (com1_port + 1) 0x00
    ∷ out (com1_port + 3) 0x80
    ∷ out (com1_port + 0) 0x03
    ∷ out (com1_port + 1) 0x00
    ∷ out (com1_port + 3) 0x03
    ∷ out (com1_port + 2) 0xC7
    ∷ out (com1_port + 4) 0x0B
    ∷ []

-- `while (!(inb(COM1_PORT + 5) & 0x20));` from the reading `k` on: the number of the next reading,
-- or `none` when the fuel runs out.
unfoldable pub wait_ready : (fuel : ℕ) → (status : ℕ → ℕ) → (k : ℕ) → Option ℕ
wait_ready zero status k = none
wait_ready (suc fuel) status k =
    let rest = wait_ready fuel status (k + 1) in
    if bit_and (status k) 0x20 == 0 then rest else some (k + 1)

-- The readings used and the writes made.
pub record Line : Type 0 where
  pub readings : ℕ
  pub written : List Outb

abbrev pub sent : Line → (c : ℕ) → Option ℕ → Option Line
sent l c none = none
sent l c (some k) = some (record { readings = k; written = l.written ++ (out com1_port c ∷ []) })

unfoldable pub serial_putc : (fuel : ℕ) → (status : ℕ → ℕ) → Line → (c : ℕ) → Option Line
unfolding wait_ready
serial_putc fuel status l c = sent l c (wait_ready fuel status l.readings)

abbrev pub and_then : Option Line → (Line → Option Line) → Option Line
and_then none next = none
and_then (some l) next = next l

-- A character of a text: a newline gets a carriage return before it.
abbrev pub put_char : (fuel : ℕ) → (status : ℕ → ℕ) → Line → (c : ℕ) → Option Line
put_char fuel status l c =
    let returned = serial_putc fuel status l 13 in
    and_then (if c == 10 then returned else some l) λ l. serial_putc fuel status l c

unfoldable pub serial_puts : (fuel wait : ℕ) → (status : ℕ → ℕ) → Mem → Line → (s : ℕ) → Option Line
unfolding serial_putc
serial_puts zero wait status m l s = none
serial_puts (suc fuel) wait status m l s =
    let next : Line → Option Line = λ l. serial_puts fuel wait status m l (s + 1) in
    let one = put_char wait status l (m s) in if m s == 0 then some l else and_then one next
