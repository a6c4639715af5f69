-- ===== src/Acpi.antt =====
-- kernel/arch/x86_64/acpi/acpi.c: the search for a table of the firmware, in the memory where the
-- tables lie. A pointer is an address, and 0 is NULL.
pub mod Find
mod Tests
use sonna_os.Prelude.{
  ℕ, zero, suc, ◌+◌, ◌*◌, ◌/◌, Bool, true, false, ◌&&◌, List, [], ◌∷◌, ◌==◌, ltb, get_or,
  if◌then◌else◌, add64, sub64,
}
use sonna_os.Memory.{Mem}
use sonna_os.Memory.Word.{bytes_value, read64}

-- The size of `struct acpi_sdt_header`.
abbrev pub sdt_header_size : ℕ
sdt_header_size = 36

-- `acpi_get_xsdt`: the fields `revision` and `xsdt_address` of the `struct rsdp2` at `rsdp`.
unfoldable pub acpi_get_xsdt : Mem → (hhdm_offset rsdp : ℕ) → ℕ
unfolding read64
acpi_get_xsdt m hhdm_offset rsdp =
    if ltb (m (rsdp + 15)) 2 then 0 else add64 (read64 m (rsdp + 24)) hhdm_offset

-- The loop over the four characters of a signature, with `left` to go; `match` as the result. The
-- signature is the string literal's bytes, and 0 behind them.
unfoldable pub has_signature : (left : ℕ) → Mem → (header j : ℕ) → (signature : List ℕ) → Bool
has_signature zero m header j signature = true
has_signature (suc left) m header j signature =
    let rest = has_signature left m header (j + 1) signature in
    if m (header + j) == get_or signature j 0 then rest else false

-- The table of the `i`th entry of the XSDT.
unfoldable pub entry_table : Mem → (hhdm_offset xsdt i : ℕ) → ℕ
unfolding read64
entry_table m hhdm_offset xsdt i = add64 (read64 m (xsdt + sdt_header_size + 8 * i)) hhdm_offset

-- The loop of `acpi_find_table` with `left` entries to go.
unfoldable pub find_loop : (left : ℕ) → Mem → (hhdm_offset xsdt i : ℕ) → (signature : List ℕ) → ℕ
unfolding has_signature entry_table
find_loop zero m hhdm_offset xsdt i signature = 0
find_loop (suc left) m hhdm_offset xsdt i signature =
    let rest = find_loop left m hhdm_offset xsdt (i + 1) signature in
    if has_signature 4 m (entry_table m hhdm_offset xsdt i) 0 signature
    then entry_table m hhdm_offset xsdt i
    else rest

-- How many entries the length of the XSDT leaves.
unfoldable pub entries : Mem → (xsdt : ℕ) → ℕ
unfolding bytes_value
entries m xsdt = sub64 (bytes_value 4 m (xsdt + 4)) sdt_header_size / 8

unfoldable pub acpi_find_table : Mem → (hhdm_offset xsdt : ℕ) → (signature : List ℕ) → ℕ
unfolding find_loop entries
acpi_find_table m hhdm_offset xsdt signature =
    find_loop (entries m xsdt) m hhdm_offset xsdt 0 signature

abbrev table_of : Mem → (hhdm_offset rsdp : ℕ) → (signature : List ℕ) → ℕ
table_of m hhdm_offset rsdp signature =
    let xsdt = acpi_get_xsdt m hhdm_offset rsdp in
    if xsdt == 0 then 0 else acpi_find_table m hhdm_offset xsdt signature

-- "APIC".
unfoldable pub acpi_get_madt : Mem → (hhdm_offset rsdp : ℕ) → ℕ
unfolding acpi_get_xsdt acpi_find_table
acpi_get_madt m hhdm_offset rsdp = table_of m hhdm_offset rsdp (65 ∷ 80 ∷ 73 ∷ 67 ∷ [])

-- "HPET".
unfoldable pub acpi_get_hpet : Mem → (hhdm_offset rsdp : ℕ) → ℕ
unfolding acpi_get_xsdt acpi_find_table
acpi_get_hpet m hhdm_offset rsdp = table_of m hhdm_offset rsdp (72 ∷ 80 ∷ 69 ∷ 84 ∷ [])
