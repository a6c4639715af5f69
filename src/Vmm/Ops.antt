-- ===== src/Vmm/Ops.antt =====
-- The operations of kernel/arch/x86_64/mm/vmm.c on the page tables.
use sonna_os.Prelude.{
  ℕ, zero, suc, ◌+◌, ◌-◌, Bool, true, false, not, ◌||◌, Option, none, some, bit_and, bit_or, add64,
  mul64, not64, if◌then◌else◌,
}
use sonna_os.Memory.Word.{read64}
use sonna_os.Pmm.{page_size}
use sonna_os.Vmm.{
  Vm, huge_2mb, pte_present, pte_write, pte_user, pte_huge, pte_nx, phys_to_virt, is_present,
  is_huge, frame_of, misaligned, slot, below, get_pml4e, get_pdpe, get_pde, get_pte, set_word,
  make_table, create_table, pml4_index, pdp_index, pd_index, pt_index,
}

-- `if (!step) return false;` and what follows.
abbrev pub then_do {ℓ} : {R : Type ℓ} → (Vm → R) → Bool × Vm → (Vm → R) → R
then_do failed (false, vm) next = failed vm
then_do failed (true, vm) next = next vm

-- The result of a kernel operation; `none` is a NULL dereference.
abbrev pub Result : Type 0
Result = Option (Bool × Vm)

abbrev pub failed : Vm → Result
failed vm = some (false, vm)

-- A use of a pointer as it is, and one behind `if (!p) return false;`.
abbrev pub deref : Option ℕ → (ℕ → Result) → Result
deref none use_it = none
deref (some p) use_it = use_it p

abbrev pub checked : Vm → Option ℕ → (ℕ → Result) → Result
checked vm none use_it = failed vm
checked vm (some p) use_it = use_it p

-- The value of the entry of a page and of a huge page.
abbrev pub page_word : (phys flags : ℕ) → ℕ
page_word phys flags = bit_or (bit_or phys (bit_and flags (not64 pte_present))) pte_present

abbrev pub huge_word : (phys flags : ℕ) → ℕ
huge_word phys flags =
    bit_or (bit_or (bit_or phys (bit_and flags (not64 (bit_or pte_present pte_huge)))) pte_present)
      pte_huge

-- The entry is set unless it is present.
unfoldable pub fill_slot : Vm → (entry word : ℕ) → Bool × Vm
unfolding is_present
fill_slot vm entry word =
    if is_present (read64 vm.mem entry) then (false, vm) else (true, set_word vm entry word)

abbrev pub kernel_pml4 : Vm → ℕ
kernel_pml4 vm = phys_to_virt vm vm.kernel_pml4_phys

unfoldable pub vmm_map : Vm → (virt phys flags : ℕ) → Result
unfolding phys_to_virt misaligned get_pml4e get_pdpe get_pde get_pte create_table fill_slot
vmm_map vm virt phys flags =
    let pml4 = kernel_pml4 vm in
    let attempt = then_do failed (create_table vm (get_pml4e pml4 virt) pte_write) λ vm1.
      deref (get_pdpe vm1 pml4 virt) λ pdpe. then_do failed (create_table vm1 pdpe pte_write) λ vm2.
        deref (get_pde vm2 pml4 virt) λ pde. then_do failed (create_table vm2 pde pte_write) λ vm3.
          checked vm3 (get_pte vm3 pml4 virt)
            λ pte. some (fill_slot vm3 pte (page_word phys flags)) in
    if misaligned 0xFFF virt || misaligned 0xFFF phys then failed vm else attempt

unfoldable pub vmm_map_huge_2mb : Vm → (virt phys flags : ℕ) → Result
unfolding phys_to_virt misaligned get_pml4e get_pdpe get_pde create_table fill_slot
vmm_map_huge_2mb vm virt phys flags =
    let pml4 = kernel_pml4 vm in
    let attempt = then_do failed (create_table vm (get_pml4e pml4 virt) pte_write) λ vm1.
      deref (get_pdpe vm1 pml4 virt) λ pdpe. then_do failed (create_table vm1 pdpe pte_write) λ vm2.
        checked vm2 (get_pde vm2 pml4 virt)
          λ pde. some (fill_slot vm2 pde (huge_word phys flags)) in
    if misaligned (huge_2mb - 1) virt || misaligned (huge_2mb - 1) phys then failed vm else attempt

abbrev and_rest : Result → (Vm → Result) → Result
and_rest none rest = none
and_rest (some step) rest = then_do failed step rest

-- The loop of `vmm_map_range` with `left` pages to go.
unfoldable pub map_loop : (left : ℕ) → Vm → (virt phys i flags : ℕ) → Result
unfolding vmm_map
map_loop zero vm virt phys i flags = some (true, vm)
map_loop (suc left) vm virt phys i flags =
    and_rest (vmm_map vm (add64 virt (mul64 i page_size)) (add64 phys (mul64 i page_size)) flags)
      λ next. map_loop left next virt phys (i + 1) flags

unfoldable pub vmm_map_range : Vm → (virt phys count flags : ℕ) → Result
unfolding map_loop
vmm_map_range vm virt phys count flags = map_loop count vm virt phys 0 flags

-- `*entry = 0` if the entry is there and present.
abbrev pub clear_slot : Vm → Option ℕ → Bool × Vm
clear_slot vm none = (false, vm)
clear_slot vm (some entry) =
    if not (is_present (read64 vm.mem entry)) then (false, vm) else (true, set_word vm entry 0)

unfoldable pub vmm_unmap : Vm → (virt : ℕ) → Bool × Vm
unfolding phys_to_virt misaligned get_pte is_present
vmm_unmap vm virt =
    if misaligned 0xFFF virt then (false, vm) else clear_slot vm (get_pte vm (kernel_pml4 vm) virt)

unfoldable pub vmm_unmap_huge_2mb : Vm → (virt : ℕ) → Bool × Vm
unfolding phys_to_virt misaligned get_pde is_present
vmm_unmap_huge_2mb vm virt =
    if misaligned (huge_2mb - 1) virt
    then (false, vm)
    else clear_slot vm (get_pde vm (kernel_pml4 vm) virt)

-- The loop of `vmm_unmap_range`, which returns true whatever its steps do.
unfoldable pub unmap_loop : (left : ℕ) → Vm → (virt i : ℕ) → Vm
unfolding vmm_unmap
unmap_loop zero vm virt i = vm
unmap_loop (suc left) vm virt i =
    unmap_loop left ((vmm_unmap vm (add64 virt (mul64 i page_size))).1) virt (i + 1)

unfoldable pub vmm_unmap_range : Vm → (virt count : ℕ) → Bool × Vm
unfolding unmap_loop
vmm_unmap_range vm virt count = (true, unmap_loop count vm virt 0)

-- The physical address that an entry gives to `virt`.
unfoldable pub physical : (e virt : ℕ) → ℕ
unfolding is_huge frame_of
physical e virt =
    if is_huge e
    then add64 (bit_and e (not64 (huge_2mb - 1))) (bit_and virt (huge_2mb - 1))
    else add64 (frame_of e) (bit_and virt 0xFFF)

abbrev pub physical_at : Vm → (virt : ℕ) → Option ℕ → ℕ
physical_at vm virt none = 0
physical_at vm virt (some pte) =
    let e = read64 vm.mem pte in if not (is_present e) then 0 else physical e virt

unfoldable pub vmm_get_physical : Vm → (virt : ℕ) → ℕ
unfolding phys_to_virt get_pte is_present physical
vmm_get_physical vm virt = physical_at vm virt (get_pte vm (kernel_pml4 vm) virt)

abbrev pub flags_at : Vm → Option ℕ → ℕ
flags_at vm none = 0
flags_at vm (some pte) = bit_and (read64 vm.mem pte) 0xFFF

unfoldable pub vmm_get_flags : Vm → (virt : ℕ) → ℕ
unfolding phys_to_virt get_pte
vmm_get_flags vm virt = flags_at vm (get_pte vm (kernel_pml4 vm) virt)

-- `vmm_init` when the register CR3 holds `cr3`.
unfoldable pub vmm_init : Vm → (cr3 : ℕ) → Vm
unfolding frame_of
vmm_init vm cr3 = record vm { kernel_pml4_phys = frame_of cr3 }

-- The entry of a table in a task's tree.
abbrev pub user_word : (phys : ℕ) → ℕ
user_word phys = bit_or (bit_or (bit_or phys pte_present) pte_write) pte_user

-- The entry of a page there: the closing `*pte &= ~(1ULL << 63)` takes the no-execute bit away.
abbrev pub user_page_word : (phys flags : ℕ) → ℕ
user_page_word phys flags = bit_and (page_word phys flags) (not64 pte_nx)

abbrev pub refused : Vm → Bool × Vm
refused vm = (false, vm)

-- A level of `vmm_map_for_pml4`: the slot of `table` at `i` gets a table if it has none, and the
-- code goes on in that table.
unfoldable pub enter_level : Vm → (table i : ℕ) → (Vm → ℕ → Bool × Vm) → Bool × Vm
unfolding make_table below
enter_level vm table i next =
    then_do refused (make_table user_word vm (slot table i))
      λ vm1. next vm1 (below vm1 (read64 vm1.mem (slot table i)))

unfoldable pub vmm_map_for_pml4 : Vm → (pml4 virt phys flags : ℕ) → Bool × Vm
unfolding misaligned enter_level fill_slot
vmm_map_for_pml4 vm pml4 virt phys flags =
    let attempt = enter_level vm pml4 (pml4_index virt) λ vm1 pdpt.
      enter_level vm1 pdpt (pdp_index virt) λ vm2 pd.
        enter_level vm2 pd (pd_index virt)
          λ vm3 pt. fill_slot vm3 (slot pt (pt_index virt)) (user_page_word phys flags) in
    if misaligned 0xFFF virt || misaligned 0xFFF phys then refused vm else attempt

-- The loop of `vmm_map_range_for_pml4`.
unfoldable pub map_loop_for_pml4 : (left : ℕ) → Vm → (pml4 virt phys i flags : ℕ) → Bool × Vm
unfolding vmm_map_for_pml4
map_loop_for_pml4 zero vm pml4 virt phys i flags = (true, vm)
map_loop_for_pml4 (suc left) vm pml4 virt phys i flags =
    then_do refused
      (vmm_map_for_pml4 vm pml4 (add64 virt (mul64 i page_size)) (add64 phys (mul64 i page_size))
        flags)
      λ next. map_loop_for_pml4 left next pml4 virt phys (i + 1) flags

unfoldable pub vmm_map_range_for_pml4 : Vm → (pml4 virt phys count flags : ℕ) → Bool × Vm
unfolding map_loop_for_pml4
vmm_map_range_for_pml4 vm pml4 virt phys count flags =
    map_loop_for_pml4 count vm pml4 virt phys 0 flags
