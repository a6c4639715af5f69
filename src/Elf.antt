-- ===== src/Elf.antt =====
-- kernel/arch/x86_64/usermode/elf.c: a program's segments, in frames of their own that are mapped
-- into the task's page tables. The file lies in memory; its fields are read where the structures
-- of elf.h have them.
pub mod Pages
pub mod Load
pub mod InMemory
pub mod Put
pub mod Rounds
pub mod Segments
pub mod Tests
use sonna_os.Prelude.{
  ℕ, zero, suc, ◌+◌, ◌*◌, ◌/◌, ◌^◌, ◌-◌, Bool, true, false, not, ◌&&◌, ◌||◌, Option, none, some,
  bit_and, bit_or, not64, add64, sub64, ◌==◌, ltb, if◌then◌else◌,
}
use sonna_os.Memory.{Mem, memcpy}
use sonna_os.Memory.Word.{bytes_value, read64}
use sonna_os.Pmm.{Pmm, page_size, alloc_frames_zeroed, free_frames}
use sonna_os.Vmm.{Vm, pte_present, pte_write, pte_user, pte_nx, phys_to_virt}
use sonna_os.Vmm.Ops.{vmm_map_range_for_pml4}

-- The fields of `Elf64_Ehdr` that the code reads.
pub record Elf64Ehdr : Type 0 where
  pub magic : ℕ
  pub class : ℕ
  pub data_encoding : ℕ
  pub e_type : ℕ
  pub e_machine : ℕ
  pub e_entry : ℕ
  pub e_phoff : ℕ
  pub e_phnum : ℕ

unfoldable pub read_ehdr : Mem → (p : ℕ) → Elf64Ehdr
unfolding bytes_value read64
read_ehdr m p = record {
  magic = bytes_value 4 m p;
  class = m (p + 4);
  data_encoding = m (p + 5);
  e_type = bytes_value 2 m (p + 16);
  e_machine = bytes_value 2 m (p + 18);
  e_entry = read64 m (p + 24);
  e_phoff = read64 m (p + 32);
  e_phnum = bytes_value 2 m (p + 56);
}

-- Those of `Elf64_Phdr`.
pub record Elf64Phdr : Type 0 where
  pub p_type : ℕ
  pub p_flags : ℕ
  pub p_offset : ℕ
  pub p_vaddr : ℕ
  pub p_filesz : ℕ
  pub p_memsz : ℕ

unfoldable pub read_phdr : Mem → (p : ℕ) → Elf64Phdr
unfolding bytes_value read64
read_phdr m p = record {
  p_type = bytes_value 4 m p;
  p_flags = bytes_value 4 m (p + 4);
  p_offset = read64 m (p + 8);
  p_vaddr = read64 m (p + 16);
  p_filesz = read64 m (p + 32);
  p_memsz = read64 m (p + 40);
}

-- `0x7F`, 'E', 'L' and 'F', as a number of four bytes.
unfoldable pub is_valid : Elf64Ehdr → Bool
is_valid h =
    (h.magic == 0x464C457F)
    && (h.class == 2)
    && (h.data_encoding == 1)
    && (h.e_machine == 0x3E)
    && (h.e_type == 2)

-- `vaddr & ~(PAGE_SIZE - 1)` and `num_pages`.
abbrev pub page_start : (vaddr : ℕ) → ℕ
page_start vaddr = bit_and vaddr (not64 (page_size - 1))

abbrev pub num_pages : Elf64Phdr → ℕ
num_pages ph =
    sub64 (add64 (add64 ph.p_memsz (sub64 ph.p_vaddr (page_start ph.p_vaddr))) page_size) 1
    / page_size

unfoldable pub pte_flags : (p_flags : ℕ) → ℕ
pte_flags p_flags =
    let base = bit_or pte_present pte_user in
    let writes = if bit_and p_flags 2 == 0 then base else bit_or base pte_write in
    if bit_and p_flags 1 == 0 then bit_or writes pte_nx else writes

-- What is done with the result of the mapping: a failure gives the frames back.
abbrev pub map_result : (phys count : ℕ) → Bool × Vm → Bool × Vm
map_result phys count (true, vm) = (true, vm)
map_result phys count (false, vm) = (false, record vm { pmm = free_frames vm.pmm phys count })

abbrev pub fill_segment : (elf_data pml4 : ℕ) → Elf64Phdr → Vm → Option ℕ × Pmm × Mem → Bool × Vm
fill_segment elf_data pml4 ph vm (none, s, m) = (false, record vm { pmm = s; mem = m })
fill_segment elf_data pml4 ph vm (some phys, s, m) =
    let start = page_start ph.p_vaddr in
    let dest = add64 (add64 phys s.hhdm_offset) (sub64 ph.p_vaddr start) in
    let filled = memcpy m dest (add64 elf_data ph.p_offset) ph.p_filesz in
    map_result phys (num_pages ph) (
      vmm_map_range_for_pml4 (record vm { pmm = s; mem = filled }) pml4 start phys (num_pages ph)
        (pte_flags ph.p_flags))

-- A round of the loop for a header of type 1 (`PT_LOAD`).
unfoldable pub load_segment : (elf_data pml4 : ℕ) → Elf64Phdr → Vm → Bool × Vm
unfolding alloc_frames_zeroed memcpy vmm_map_range_for_pml4 free_frames pte_flags
load_segment elf_data pml4 ph vm =
    fill_segment elf_data pml4 ph vm (alloc_frames_zeroed vm.pmm vm.mem (num_pages ph))

abbrev pub go_on : (Vm → Bool × Vm) → Bool × Vm → Bool × Vm
go_on next (false, vm) = (false, vm)
go_on next (true, vm) = next vm

-- The loop over the program headers, at `i`, with `left` numbers of 16 bits to go. The number of
-- headers is read again in every round; when no number is left, `i` has passed it.
unfoldable pub load_segments : (left : ℕ) → (elf_data pml4 phdr i : ℕ) → Vm → Bool × Vm
unfolding read_ehdr read_phdr load_segment
load_segments zero elf_data pml4 phdr i vm = (true, vm)
load_segments (suc left) elf_data pml4 phdr i vm =
    let ph = read_phdr vm.mem (phdr + 56 * i) in
    let next : Vm → Bool × Vm = λ vm. load_segments left elf_data pml4 phdr (i + 1) vm in
    if ltb i (read_ehdr vm.mem elf_data).e_phnum
    then (if ph.p_type == 1 then go_on next (load_segment elf_data pml4 ph vm) else next vm)
    else (true, vm)

-- `load_elf`, with the entry point that it stores, if it does.
unfoldable pub load_elf : (elf_data pml4 : ℕ) → Vm → Option ℕ × (Bool × Vm)
unfolding read_ehdr is_valid load_segments
load_elf elf_data pml4 vm =
    let h = read_ehdr vm.mem elf_data in
    if not (is_valid h)
    then (none, (false, vm))
    else (some h.e_entry, load_segments (2 ^ 16) elf_data pml4 (add64 elf_data h.e_phoff) 0 vm)
