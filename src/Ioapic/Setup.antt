-- ===== src/Ioapic/Setup.antt =====
-- The I/O APICs that the MADT lists: `ioapic_init_one` and `ioapic_init_all`.
use sonna_os.Prelude.{
  ℕ, zero, suc, ◌+◌, ◌*◌, Bool, Option, none, some, List, [], ◌∷◌, ◌++◌, map, length, bit_and, shr,
  add64, ltb, leb, ◌==◌, if◌then◌else◌,
}
use sonna_os.Memory.Word.{bytes_value}
use sonna_os.Vmm.{Vm}
use sonna_os.Vmm.Ops.{vmm_map}
use sonna_os.Ioapic.{Ioapic, Write, redir_tbl_offset, masked, ioapic_read, ioapic_write}

-- `ioapics` up to `ioapic_count`, and the writes so far, each with the chip's base address.
pub record Chips : Type 0 where
  pub ioapics : List Ioapic
  pub vm : Vm
  pub writes : List (ℕ × Write)

-- The loop over the redirection table with `left` pins to go.
unfoldable pub mask_pins : (left i : ℕ) → List Write
mask_pins zero i = []
mask_pins (suc left) i =
    record { reg = redir_tbl_offset + i * 2; value = masked }
    ∷ record { reg = redir_tbl_offset + i * 2 + 1; value = 0 }
    ∷ mask_pins left (i + 1)

-- From `ioapics[ioapic_count++]` on; `io` has the fields that do not come from the chip.
abbrev pub add_chip : (device : Ioapic → ℕ → ℕ) → Chips → Ioapic → Chips
add_chip device c io =
    let version = ioapic_read device io 1 in
    let chip = record io { max_redirection = bit_and (shr version 16) 0xFF } in
    let made : List Write = ioapic_write chip (mask_pins (chip.max_redirection + 1) 0) in
    record c {
      ioapics = c.ioapics ++ (chip ∷ []);
      writes = c.writes ++ map (λ w. (chip.mmio_base_va, w)) made;
    }

abbrev pub add_mapped :
    (device : Ioapic → ℕ → ℕ) → Chips → (entry virt : ℕ) → Option (Bool × Vm) → Option Chips
add_mapped device c entry virt none = none
add_mapped device c entry virt (some (ok, vm)) = some (
    add_chip device (record c { vm = vm })
      (record {
        ioapic_id = vm.mem (entry + 2);
        gsi_base = bytes_value 4 vm.mem (entry + 8);
        mmio_base_va = virt;
        max_redirection = 0;
      }))

-- `ioapic_init_one` of the entry at `entry`; `none` is a NULL dereference of `vmm_map`, whose
-- other outcome is not looked at.
unfoldable pub ioapic_init_one : (device : Ioapic → ℕ → ℕ) → Chips → (entry : ℕ) → Option Chips
unfolding bytes_value vmm_map mask_pins
ioapic_init_one device c entry =
    let phys = bytes_value 4 c.vm.mem (entry + 4) in
    let virt = add64 phys c.vm.pmm.hhdm_offset in
    let mapped = vmm_map c.vm virt phys (1 + 2 + 16 + 8) in
    if leb 8 (length c.ioapics) then some c else add_mapped device c entry virt mapped

-- What the walk over the entries comes to; `out_of_fuel` is no outcome of the code.
pub data Walk : Type 0 where
  finished : Chips → Walk
  crashed : Walk
  out_of_fuel : Walk

abbrev pub walk_on : (Chips → Walk) → Option Chips → Walk
walk_on next none = crashed
walk_on next (some c) = next c

unfoldable pub walk_entries : (fuel : ℕ) → (device : Ioapic → ℕ → ℕ) → Chips → (ptr end : ℕ) → Walk
unfolding ioapic_init_one
walk_entries zero device c ptr end = out_of_fuel
walk_entries (suc fuel) device c ptr end =
    let next : Chips → Walk = λ c. walk_entries fuel device c (ptr + c.vm.mem (ptr + 1)) end in
    let one = ioapic_init_one device c ptr in
    if ltb ptr end then (if c.vm.mem ptr == 1 then walk_on next one else next c) else finished c

unfoldable pub ioapic_init_all : (fuel : ℕ) → (device : Ioapic → ℕ → ℕ) → Chips → (madt : ℕ) → Walk
unfolding walk_entries bytes_value
ioapic_init_all fuel device c madt =
    walk_entries fuel device c (madt + 44) (madt + bytes_value 4 c.vm.mem (madt + 4))
