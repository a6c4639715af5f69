-- ===== src/Vmm.antt =====
-- kernel/arch/x86_64/mm/vmm.c: four levels of page tables in memory, with tables from the frame
-- allocator. The flush of the processor's cache (`invlpg`) and the serial messages are not
-- modelled. A pointer that may be NULL is an `Option`; a function that would dereference NULL
-- gives `none`.
pub mod Ops
pub mod Entry
pub mod Word
pub mod Table
pub mod Space
pub mod Grow
pub mod Extends
pub mod Keep
pub mod Fresh
pub mod Make
pub mod Leaf
pub mod Map
pub mod Advance
pub mod Take
pub mod Store
pub mod Empty
pub mod Range
pub mod Query
pub mod Unmap
pub mod Tests
use sonna_os.Prelude.{
  ℕ, zero, suc, ◌+◌, ◌*◌, ◌^◌, ◌-◌, ◌≡◌, Bool, true, false, not, ◌&&◌, ◌||◌, Option, none, some,
  bit_and, bit_or, shr, add64, mul64, sub64, not64, ◌==◌, if◌then◌else◌,
}
use sonna_os.Memory.{Mem}
use sonna_os.Memory.Word.{read64, write64}
use sonna_os.Pmm.{Pmm, alloc_zeroed, page_size}

-- What the code reads and writes: the allocator, memory by kernel virtual address, and
-- `kernel_pml4_phys`.
pub record Vm : Type 0 where
  pub pmm : Pmm
  pub mem : Mem
  pub kernel_pml4_phys : ℕ

abbrev pub huge_2mb : ℕ
huge_2mb = 2 * 1024 * 1024

abbrev pub pte_present : ℕ
pte_present = 1

abbrev pub pte_write : ℕ
pte_write = 2

abbrev pub pte_user : ℕ
pte_user = 4

abbrev pub pte_huge : ℕ
pte_huge = 128

abbrev pub pte_nx : ℕ
pte_nx = 2 ^ 63

unfoldable pub phys_to_virt : Vm → ℕ → ℕ
phys_to_virt vm phys = add64 phys vm.pmm.hhdm_offset

-- The macros `PML4_INDEX`, `PDP_INDEX`, `PD_INDEX` and `PT_INDEX`.
unfoldable pub index : (shift virt : ℕ) → ℕ
index shift virt = bit_and (shr virt shift) 0x1FF

abbrev pub pml4_index : ℕ → ℕ
pml4_index virt = index 39 virt

abbrev pub pdp_index : ℕ → ℕ
pdp_index virt = index 30 virt

abbrev pub pd_index : ℕ → ℕ
pd_index virt = index 21 virt

abbrev pub pt_index : ℕ → ℕ
pt_index virt = index 12 virt

-- `e & PTE_PRESENT`, `e & PTE_HUGE` and `e & ~0xFFF`.
unfoldable pub is_present : ℕ → Bool
is_present e = not (bit_and e pte_present == 0)

unfoldable pub is_huge : ℕ → Bool
is_huge e = not (bit_and e pte_huge == 0)

unfoldable pub frame_of : ℕ → ℕ
frame_of e = bit_and e (not64 0xFFF)

-- `virt & 0xFFF`, as a test.
unfoldable pub misaligned : (mask a : ℕ) → Bool
misaligned mask a = not (bit_and a mask == 0)

-- `&table[i]`.
abbrev pub slot : (table i : ℕ) → ℕ
slot table i = table + 8 * i

-- The table that a present entry points to.
unfoldable pub below : Vm → (e : ℕ) → ℕ
unfolding phys_to_virt frame_of
below vm e = phys_to_virt vm (frame_of e)

unfoldable pub get_pml4e : (pml4 virt : ℕ) → ℕ
unfolding index
get_pml4e pml4 virt = slot pml4 (pml4_index virt)

unfoldable pub get_pdpe : Vm → (pml4 virt : ℕ) → Option ℕ
unfolding get_pml4e below index is_present
get_pdpe vm pml4 virt =
    let pml4e = read64 vm.mem (get_pml4e pml4 virt) in
    if not (is_present pml4e) then none else some (slot (below vm pml4e) (pdp_index virt))

abbrev pub pd_slot : Vm → (virt : ℕ) → Option ℕ → Option ℕ
pd_slot vm virt none = none
pd_slot vm virt (some pdpe) =
    let e = read64 vm.mem pdpe in
    if not (is_present e) then none else some (slot (below vm e) (pd_index virt))

unfoldable pub get_pde : Vm → (pml4 virt : ℕ) → Option ℕ
unfolding get_pdpe below index is_present
get_pde vm pml4 virt = pd_slot vm virt (get_pdpe vm pml4 virt)

abbrev pub pt_slot : Vm → (virt : ℕ) → Option ℕ → Option ℕ
pt_slot vm virt none = none
pt_slot vm virt (some pde) =
    let e = read64 vm.mem pde in
    if not (is_present e)
    then none
    else if is_huge e
    then some pde
    else some (slot (below vm e) (pt_index virt))

unfoldable pub get_pte : Vm → (pml4 virt : ℕ) → Option ℕ
unfolding get_pde below index is_present is_huge
get_pte vm pml4 virt = pt_slot vm virt (get_pde vm pml4 virt)

abbrev pub set_word : Vm → (p v : ℕ) → Vm
set_word vm p v = record vm { mem = write64 vm.mem p v }

-- The end of `create_table`: the new table is entered, or there is no memory.
abbrev pub enter_table : (ℕ → ℕ) → Vm → (entry : ℕ) → Option ℕ × Pmm × Mem → Bool × Vm
enter_table word vm entry (none, s, m) = (false, record vm { pmm = s; mem = m })
enter_table word vm entry (some phys, s, m) =
    (true, set_word (record vm { pmm = s; mem = m }) entry (word phys))

-- A table for an entry that has none, whose entry is `word` of the table's address.
unfoldable pub make_table : (ℕ → ℕ) → Vm → (entry : ℕ) → Bool × Vm
unfolding is_present
make_table word vm entry =
    if is_present (read64 vm.mem entry)
    then (true, vm)
    else enter_table word vm entry (alloc_zeroed vm.pmm vm.mem)

abbrev pub table_word : (flags phys : ℕ) → ℕ
table_word flags phys = bit_or (bit_or (bit_or phys flags) pte_present) pte_write

unfoldable pub create_table : Vm → (entry flags : ℕ) → Bool × Vm
unfolding make_table
create_table vm entry flags = make_table (table_word flags) vm entry
