-- ===== src/Ioapic/Pin.antt =====
-- The pin that `ioapic_for_gsi` finds.
use sonna_os.Prelude.{
  ℕ, ◌+◌, ◌-◌, ◌^◌, ◌<◌, ◌≡◌, refl, Bool, ◌&&◌, Option, none, some, List, [], ◌∷◌, leb, ltb,
  if◌then◌else◌, u32, All, arith,
}
use sonna_os.Ioapic.{Ioapic, ioapic_for_gsi}

-- The interrupts of a chip do not wrap.
abbrev pub IsPlaced : Ioapic → Type 0
IsPlaced io = io.gsi_base + io.max_redirection + 1 < 2 ^ 32

abbrev pub serves : Ioapic → ℕ → Bool
serves io gsi = leb io.gsi_base gsi && leb gsi (io.gsi_base + io.max_redirection)

-- The first chip that serves the interrupt.
abbrev pub first_serving : List Ioapic → ℕ → Option (Ioapic × ℕ)
first_serving [] gsi = none
first_serving (io ∷ ios) gsi =
    if serves io gsi then some (io, gsi - io.gsi_base) else first_serving ios gsi

in_range :
    (io : Ioapic) (gsi : ℕ)
    → IsPlaced io
    → (leb io.gsi_base gsi && ltb gsi (u32 (io.gsi_base + io.max_redirection + 1))) ≡ serves io gsi
in_range io gsi placed = ground (arith, placed)

-- When no chip's interrupt range wraps, ioapic_for_gsi gives the first chip whose range, from
-- its base to its base plus its last redirection entry, holds the interrupt, with the offset
-- into that range as pin, and none if there is no such chip.
pub ioapic_for_gsi-first_serving :
    (ios : List Ioapic) (gsi : ℕ)
    → All IsPlaced ios
    → ioapic_for_gsi ios gsi ≡ first_serving ios gsi
unfolding ioapic_for_gsi
ioapic_for_gsi-first_serving [] gsi placed = refl
ioapic_for_gsi-first_serving (io ∷ ios) gsi (here, placed) =
    rw (in_range io gsi here, ioapic_for_gsi-first_serving ios gsi placed) refl
