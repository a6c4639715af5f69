-- ===== src/Task.antt =====
-- `task_create_from_elf` (kernel/arch/x86_64/usermode/scheduler.c) and `runElf_ring3`
-- (kernel/arch/x86_64/usermode/usermode.c): page tables of a task's own, its program, its stacks
-- and the registers that it starts with. `task_t` and `cpu_context_t` lie in memory where the
-- compiler puts their fields. A NULL of the allocator is used as address 0, as the code does.
pub mod Pml4
pub mod Context
pub mod Finish
pub mod Stack
pub mod New
pub mod Start
pub mod Returned
pub mod Create
mod Tests
use sonna_os.Prelude.{
  ℕ, zero, suc, ◌+◌, ◌*◌, ◌%◌, ◌^◌, Bool, true, false, Option, none, some, List, [], ◌∷◌, add64,
  sub64, bit_or,
}
use sonna_os.Memory.{Mem, memset}
use sonna_os.Memory.Word.{bytes_value, write_bytes, read64}
use sonna_os.Pmm.{Pmm, page_size, alloc_zeroed, alloc_frames_zeroed}
use sonna_os.Vmm.{Vm, phys_to_virt, slot, set_word, pte_present, pte_write, pte_user, pte_nx}
use sonna_os.Vmm.Ops.{vmm_map_for_pml4, vmm_map_range_for_pml4}
use sonna_os.Elf.{load_elf}
use sonna_os.Scheduler.{TaskState, ready, running, blocked, dead, Task}

abbrev pub user_stack_vaddr : ℕ
user_stack_vaddr = 0x7FFFFFFF0000

abbrev pub user_stack_pages : ℕ
user_stack_pages = 8

abbrev pub user_heap_vaddr : ℕ
user_heap_vaddr = 0x400000000000

abbrev pub task_stack_size : ℕ
task_stack_size = 16 * 4096

abbrev pub user_data_flags : ℕ
user_data_flags = bit_or (bit_or (bit_or pte_present pte_write) pte_user) pte_nx

-- What the allocator returned, as the address that the code goes on with.
abbrev pub taken : Vm → Option ℕ × Pmm × Mem → ℕ × Vm
taken vm (none, s, m) = (0, record vm { pmm = s; mem = m })
taken vm (some phys, s, m) = (phys, record vm { pmm = s; mem = m })

unfoldable pub take_page : Vm → ℕ × Vm
unfolding alloc_zeroed
take_page vm = taken vm (alloc_zeroed vm.pmm vm.mem)

unfoldable pub take_pages : Vm → (count : ℕ) → ℕ × Vm
unfolding alloc_frames_zeroed
take_pages vm count = taken vm (alloc_frames_zeroed vm.pmm vm.mem count)

-- `for (int i = 256; i < 512; i++) pml4[i] = kpml4[i];` with `left` entries to go.
unfoldable pub copy_entries : (left : ℕ) → Vm → (pml4 kpml4 i : ℕ) → Vm
copy_entries zero vm pml4 kpml4 i = vm
copy_entries (suc left) vm pml4 kpml4 i =
    copy_entries left (set_word vm (slot pml4 i) (read64 vm.mem (slot kpml4 i))) pml4 kpml4 (i + 1)

-- The new PML4: a page of its own with the kernel's upper half.
abbrev pub share_kernel : ℕ × Vm → ℕ × Vm
share_kernel (phys, vm) =
    (phys, copy_entries 256 vm (phys_to_virt vm phys) (phys_to_virt vm vm.kernel_pml4_phys) 256)

unfoldable pub new_pml4 : Vm → ℕ × Vm
unfolding take_page copy_entries phys_to_virt
new_pml4 vm = share_kernel (take_page vm)

abbrev pub map_stack : (pml4 : ℕ) → ℕ × Vm → Bool × Vm
map_stack pml4 (phys, vm) =
    vmm_map_range_for_pml4 vm pml4 user_stack_vaddr phys user_stack_pages user_data_flags

unfoldable pub make_user_stack : Vm → (pml4 : ℕ) → Bool × Vm
unfolding take_pages vmm_map_range_for_pml4
make_user_stack vm pml4 = map_stack pml4 (take_pages vm user_stack_pages)

-- `task->pid = pid` for the `uint32_t` of the task at `task`; the other fields that are set are
-- words.
abbrev pub set_pid : Vm → (task pid : ℕ) → Vm
set_pid vm task pid = record vm { mem = write_bytes 4 vm.mem (task + 28) pid }

-- The registers at `ctx`: 20 words, of which the last five are set.
unfoldable pub set_context : Vm → (ctx entry : ℕ) → Vm
unfolding memset
set_context vm ctx entry =
    let cleared = record vm { mem = memset vm.mem ctx 0 160 } in
    let rip = set_word cleared (ctx + 120) entry in
    let cs = set_word rip (ctx + 128) 0x23 in
    let rflags = set_word cs (ctx + 136) 0x202 in
    let rsp = set_word rflags (ctx + 144) (user_stack_vaddr + user_stack_pages * 4096) in
    set_word rsp (ctx + 152) 0x1B

-- From `pmm_alloc_frames_zeroed(TASK_STACK_SIZE / 4096)` on.
abbrev pub fill_task : (task entry : ℕ) → ℕ × Vm → Vm
fill_task task entry (phys, vm) =
    let vm1 = set_word vm (task + 16) (phys_to_virt vm phys) in
    let top = add64 (read64 vm1.mem (task + 16)) task_stack_size in
    let ctx = sub64 top 160 in set_word (set_context vm1 ctx entry) task ctx

unfoldable pub finish_task : Vm → (task entry : ℕ) → Vm
unfolding take_pages phys_to_virt set_context
finish_task vm task entry = fill_task task entry (take_pages vm 16)

-- The outcome of `load_elf` and what follows; `entry` is 0 before.
abbrev pub entry_or : (before : ℕ) → Option ℕ → ℕ
entry_or before none = before
entry_or before (some entry) = entry

abbrev pub with_program : (task pml4 : ℕ) → Option ℕ × (Bool × Vm) → Option ℕ × Vm
with_program task pml4 (entry, (false, vm)) = (none, vm)
with_program task pml4 (entry, (true, vm)) =
    (some task, finish_task ((make_user_stack vm pml4).1) task (entry_or 0 entry))

-- The task and `next_pid` after it; `none` is NULL.
abbrev pub with_pml4 : (elf_data task : ℕ) → ℕ × Vm → Option ℕ × Vm
with_pml4 elf_data task (phys, vm) =
    let pml4 = phys_to_virt vm phys in
    with_program task pml4 (load_elf elf_data pml4 (set_word vm (task + 8) phys))

abbrev pub with_task : (elf_data pid : ℕ) → ℕ × Vm → Option ℕ × Vm
with_task elf_data pid (phys, vm) =
    let task = phys_to_virt vm phys in with_pml4 elf_data task (new_pml4 (set_pid vm task pid))

unfoldable pub task_create_from_elf : (elf_data next_pid : ℕ) → Vm → (Option ℕ × Vm) × ℕ
unfolding take_page phys_to_virt new_pml4 load_elf make_user_stack finish_task
task_create_from_elf elf_data next_pid vm =
    (with_task elf_data next_pid (take_page vm), (next_pid + 1) % 2 ^ 32)

-- The `task_t` at `p`.
unfoldable pub state_of : ℕ → TaskState
state_of zero = ready
state_of (suc zero) = running
state_of (suc (suc zero)) = blocked
state_of (suc (suc (suc n))) = dead

unfoldable pub read_task : Mem → (p : ℕ) → Task
unfolding state_of bytes_value read64
read_task m p = record {
  ctx = read64 m p;
  pml4_phys = read64 m (p + 8);
  kernel_stack = read64 m (p + 16);
  state = state_of (bytes_value 4 m (p + 24));
  pid = bytes_value 4 m (p + 28);
  next = read64 m (p + 32);
}

-- What `runElf_ring3` comes to: it returns, or it enters user mode with the physical address of
-- the page tables and the stack pointer that `iretq` takes the registers from.
pub data Launch : Type 0 where
  returned : Launch
  enters : (pml4_phys sp : ℕ) → Launch

-- `*--sp = w` for the words of the list.
unfoldable pub push_words : Vm → (sp : ℕ) → List ℕ → ℕ × Vm
push_words vm sp [] = (sp, vm)
push_words vm sp (w ∷ words) = push_words (set_word vm (sub64 sp 8) w) (sub64 sp 8) words

abbrev pub enter_with : (pml4_phys : ℕ) → ℕ × Vm → Launch × Vm
enter_with pml4_phys (sp, vm) = (enters pml4_phys sp, vm)

abbrev pub push_frame : (pml4_phys entry : ℕ) → ℕ × Vm → Launch × Vm
push_frame pml4_phys entry (phys, vm) = enter_with pml4_phys (
    push_words vm (add64 (phys_to_virt vm phys) page_size)
      (0x1B ∷ (user_stack_vaddr + user_stack_pages * 4096) ∷ 0x202 ∷ 0x23 ∷ entry ∷ []))

abbrev pub after_heap : (pml4_phys entry : ℕ) → Bool × Vm → Launch × Vm
after_heap pml4_phys entry (false, vm) = (returned, vm)
after_heap pml4_phys entry (true, vm) = push_frame pml4_phys entry (take_page vm)

abbrev pub map_heap : (pml4_phys pml4 entry : ℕ) → ℕ × Vm → Launch × Vm
map_heap pml4_phys pml4 entry (phys, vm) =
    after_heap pml4_phys entry (vmm_map_for_pml4 vm pml4 user_heap_vaddr phys user_data_flags)

abbrev pub after_stack : (pml4_phys pml4 entry : ℕ) → Bool × Vm → Launch × Vm
after_stack pml4_phys pml4 entry (false, vm) = (returned, vm)
after_stack pml4_phys pml4 entry (true, vm) = map_heap pml4_phys pml4 entry (take_page vm)

-- `entry_point` is not initialised, but is set whenever the program is loaded.
abbrev pub after_program : (pml4_phys pml4 : ℕ) → Option ℕ × (Bool × Vm) → Launch × Vm
after_program pml4_phys pml4 (entry, (false, vm)) = (returned, vm)
after_program pml4_phys pml4 (entry, (true, vm)) =
    after_stack pml4_phys pml4 (entry_or 0 entry) (make_user_stack vm pml4)

abbrev pub launch_in : (elf_data : ℕ) → ℕ × Vm → Launch × Vm
launch_in elf_data (phys, vm) =
    let pml4 = phys_to_virt vm phys in after_program phys pml4 (load_elf elf_data pml4 vm)

unfoldable pub run_elf_ring3 : (elf_data : ℕ) → Vm → Launch × Vm
unfolding new_pml4 phys_to_virt load_elf make_user_stack take_page vmm_map_for_pml4 push_words
run_elf_ring3 elf_data vm = launch_in elf_data (new_pml4 vm)
