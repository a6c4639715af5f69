-- ===== src/Task/Create.antt =====
-- `task_create_from_elf` from the first page to the task that is returned.
use sonna_os.Prelude.{
  ℕ, ◌+◌, ◌*◌, ◌%◌, ◌^◌, ◌<◌, ◌≡◌, refl, sym, subst, ◌∙◌, ap, ap₂, Bool, true, false, Option, some,
  add64, arith,
}
use sonna_os.Pmm.{page_size, alloc_zeroed, alloc_frames_zeroed}
use sonna_os.Pmm.Valid.{IsValid}
use sonna_os.Vmm.{Vm}
use sonna_os.Vmm.Table.{page}
use sonna_os.Elf.{read_ehdr}
use sonna_os.Vmm.Advance.{Advances-trans}
use sonna_os.Elf.Segments.{IsProgram, load_elf-RoundsDone}
use sonna_os.Task.{
  user_stack_pages, make_user_stack, finish_task, entry_or, with_program, task_create_from_elf,
}
use sonna_os.Task.Pml4.{task_root, IsKernelTable}
use sonna_os.Task.Finish.{finish_task-Finished}
use sonna_os.Task.Stack.{make_user_stack-UserStack}
use sonna_os.Task.Start.{
  new, before-Started, before-half, with_task_page, new_task, tree, task_pml4, before_program,
  loading, stacked, phys_to_virt_lem,
}
use sonna_os.Task.Returned.{Created, created}

with_program-some :
    (task pml4 : ℕ) (r : Option ℕ × (Bool × Vm))
    → r.1.0 ≡ true
    → with_program task pml4 r
      ≡ (some task, finish_task ((make_user_stack r.1.1 pml4).1) task (entry_or 0 r.0))
with_program-some task pml4 (entry, (true, vm)) ok = refl
with_program-some task pml4 (entry, (false, vm)) ok = absurd (ground arith)

-- The function with its steps named.
create_lem :
    (vm : Vm) (elf_data pid : ℕ)
    → task_create_from_elf elf_data pid vm ≡ (
      with_program (new_task vm elf_data pid) (task_pml4 vm elf_data pid) (loading vm elf_data pid),
      (pid + 1) % 2 ^ 32,
    )
unfolding task_create_from_elf
create_lem vm elf_data pid = refl

-- When the allocations of task_create_from_elf give frames, the program loads and the user stack
-- is mapped, the function returns the new task and counts the pid on. The task is ready, has the
-- pid, no successor and its own page tables, which are well formed and have the kernel's entries
-- from 256 on. Every byte of every segment of the program is in memory as load_elf puts it. The
-- eight pages from 0x7FFFFFFF0000 on lead, writable and for the user, to eight frames in order
-- that read as zero, and the kernel stack is 16 frames: the frames of both stacks are in use and
-- no tables, were not in use in the state in which the program was loaded, tables aside, and
-- differ from each other. The registers, 160 bytes below the top of the kernel stack, are zero
-- but for the program's entry point, the user segments, the flags and the stack pointer
-- 0x7FFFFFFF8000. The allocator must be sound, the window of physical memory must not wrap, the
-- kernel's table must be a frame in use that holds bytes, the pid and the entry point must fit
-- their widths, and the file and its segments be as for load_elf.
pub task_create_from_elf-Created :
    (vm : Vm) (kf elf_data pid a1 a2 a3 a4 : ℕ)
    → IsValid vm.pmm
    → vm.pmm.hhdm_offset + vm.pmm.bitmap_frames * page_size < 2 ^ 64
    → IsKernelTable vm kf
    → pid < 2 ^ 32
    → (alloc_zeroed vm.pmm vm.mem).0 ≡ some a1
    → (alloc_zeroed (with_task_page vm elf_data pid).pmm (with_task_page vm elf_data pid).mem).0
      ≡ some a2
    → IsProgram (before_program vm elf_data pid) (task_root (task_pml4 vm elf_data pid)) elf_data
    → (read_ehdr (before_program vm elf_data pid).mem elf_data).e_entry < 2 ^ 64
    → (loading vm elf_data pid).1.0 ≡ true
    → (alloc_frames_zeroed
        (loading vm elf_data pid).1.1.pmm
        (loading vm elf_data pid).1.1.mem
        user_stack_pages).0
      ≡ some a3
    → (stacked vm elf_data pid).0 ≡ true
    → (alloc_frames_zeroed (stacked vm elf_data pid).1.pmm (stacked vm elf_data pid).1.mem 16).0
      ≡ some a4
    → ((task_create_from_elf elf_data pid vm).0.0 ≡ some (new_task vm elf_data pid))
      × ((task_create_from_elf elf_data pid vm).1 ≡ (pid + 1) % 2 ^ 32)
      × Created vm
          (page vm.pmm.hhdm_offset kf)
          (before_program vm elf_data pid)
          elf_data
          pid
          (new_task vm elf_data pid)
          (task_create_from_elf elf_data pid vm).0.1
task_create_from_elf-Created vm kf elf_data pid a1 a2 a3 a4 valid room kernel small got1 got2 can
      entry_small ok got3 stack_ok got4 =
    let before = before_program vm elf_data pid in
    let pml4 = task_pml4 vm elf_data pid in
    let at = new_task vm elf_data pid in
    let started = before-Started vm kf elf_data pid a1 a2 valid room kernel small got1 got2 in
    let half = before-half vm kf elf_data pid a1 a2 valid room kernel small got1 got2 in
    let (good, entry_is, segments) =
      load_elf-RoundsDone before (task_root pml4) elf_data started.is_vm can ok in
    let stack =
      make_user_stack-UserStack (loading vm elf_data pid).1.1 pml4 a3 segments.advances.is_vm got3
        stack_ok in
    let t = (new vm kf elf_data pid a1 a2 valid room kernel small got1 got2).t in
    let last = (stacked vm elf_data pid).1 in
    let advanced =
      Advances-trans before (loading vm elf_data pid).1.1 last (task_root pml4) segments.advances
        stack.advances in
    let entry = (read_ehdr before.mem elf_data).e_entry in
    let done =
      finish_task-Finished last (task_root pml4) t entry a4 stack.advances.is_vm
        ((advanced.keeps.frames t started.apart).still) entry_small got4 in
    let tables_at : add64 (tree vm elf_data pid).0 before.pmm.hhdm_offset ≡ pml4 =
      sym (phys_to_virt_lem (tree vm elf_data pid).1 (tree vm elf_data pid).0) in
    let here : page last.pmm.hhdm_offset t ≡ at =
      ap (λ h. page h t) advanced.hhdm ∙ sym started.place in
    let complete =
      created before t at pid (tree vm elf_data pid).0 pml4 elf_data started tables_at
        (loading vm elf_data pid).1.1 last (finish_task last (page last.pmm.hhdm_offset t) entry)
        segments can stack done vm (page vm.pmm.hhdm_offset kf) half in
    let call : task_create_from_elf elf_data pid vm
        ≡ ((some at, finish_task last (page last.pmm.hhdm_offset t) entry), (pid + 1) % 2 ^ 32) =
      create_lem vm elf_data pid
      ∙ ap (λ r. (r, (pid + 1) % 2 ^ 32))
          (with_program-some at pml4 (loading vm elf_data pid) ok
            ∙ ap₂ (λ p e. (some at, finish_task last p (entry_or 0 e))) (sym here) entry_is) in
    (
      ap (λ r. r.0.0) call,
      ap (λ r. r.1) call,
      subst (λ x. Created vm (page vm.pmm.hhdm_offset kf) before elf_data pid at x.0.1) (sym call)
          complete,
    )
