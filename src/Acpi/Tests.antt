-- ===== src/Acpi/Tests.antt =====
-- Two tables in memory, the second with the signature "APIC".
use sonna_os.Prelude.{ℕ, ◌≡◌, refl, List, [], ◌∷◌, arith, ◌==◌, if◌then◌else◌}
use sonna_os.Memory.{Mem}
use sonna_os.Acpi.{acpi_find_table, acpi_get_madt, acpi_get_hpet}
use sonna_os.Acpi.Find.{IsFirst, acpi_find_table-IsFirst}

-- The pointer at 24 leads to 0x100, where the entries name 0x200 and 0x300.
abbrev tables : Mem
tables a =
    if a == 15
    then 2
    else if a == 25
    then 1
    else if a == 0x104
    then 52
    else if a == 0x125
    then 2
    else if a == 0x12D
    then 3
    else if a == 0x300
    then 65
    else if a == 0x301
    then 80
    else if a == 0x302
    then 73
    else if a == 0x303
    then 67
    else 0

abbrev apic : List ℕ
apic = 65 ∷ 80 ∷ 73 ∷ 67 ∷ []

found : acpi_get_madt tables 0 0 ≡ 0x300
unfolding acpi_get_madt
found = refl

not_found : acpi_get_hpet tables 0 0 ≡ 0
unfolding acpi_get_hpet
not_found = refl

acpi_find_table-IsFirst_example :
    IsFirst tables 0 0x100 apic 0 2 (acpi_find_table tables 0 0x100 apic)
acpi_find_table-IsFirst_example =
    acpi_find_table-IsFirst tables 0 0x100 apic (omega arith) (omega arith)
