-- ===== src/Task/Tests.antt =====
-- A task of the program in `Elf.Tests`.
use sonna_os.Prelude.{
  ℕ, ◌+◌, ◌*◌, ◌%◌, ◌^◌, ◌<◌, ◌≤◌, ◌≡◌, refl, sym, subst, ap, ◌∙◌, true, some, add64, arith,
}
use sonna_os.Memory.Word.{read64, write64}
use sonna_os.Pmm.{test_frame, page_size, alloc_zeroed, alloc_frames_zeroed}
use sonna_os.Vmm.{Vm, index, phys_to_virt}
use sonna_os.Vmm.Table.{Root, page}
use sonna_os.Vmm.Advance.{InFrame}
use sonna_os.Elf.Pages.{IsLoadable}
use sonna_os.Elf.Rounds.{AreLoadable}
use sonna_os.Elf.Segments.{IsProgram}
use sonna_os.Task.Returned.{Created}
use sonna_os.Task.Create.{task_create_from_elf-Created}
use sonna_os.Elf.{read_ehdr, read_phdr, load_elf}
use sonna_os.Elf.Tests.{machine, elf, memory, frames-IsValid, segment, task_covered}
use sonna_os.Task.{user_stack_pages, new_pml4, task_create_from_elf}
use sonna_os.Task.Pml4.{NewTree, new_pml4-NewTree, task_root, IsKernelTable}
use sonna_os.Task.Start.{
  before-IsApart, with_task_page, before_program, loading, stacked, new_task, task_pml4,
}

got1 : (alloc_zeroed machine.pmm machine.mem).0 ≡ some 0x3000
unfolding alloc_zeroed test_frame sonna_os.Pmm.set_frames sonna_os.Pmm.set_frame
    sonna_os.Memory.memset
got1 = refl

got2 :
    (alloc_zeroed (with_task_page machine elf 7).pmm (with_task_page machine elf 7).mem).0
    ≡ some 0x4000
unfolding alloc_zeroed test_frame sonna_os.Pmm.set_frames sonna_os.Pmm.set_frame
    sonna_os.Memory.memset sonna_os.Task.take_page sonna_os.Vmm.phys_to_virt
got2 = refl

phnum : (read_ehdr (before_program machine elf 7).mem elf).e_phnum ≡ 1
unfolding read_ehdr read64 alloc_zeroed test_frame sonna_os.Pmm.set_frames sonna_os.Pmm.set_frame
    sonna_os.Memory.memset sonna_os.Task.new_pml4 sonna_os.Vmm.phys_to_virt write64
phnum = refl

loads : (loading machine elf 7).1.0 ≡ true
unfolding load_elf read_ehdr read64 alloc_zeroed test_frame sonna_os.Pmm.set_frames
    sonna_os.Pmm.set_frame sonna_os.Memory.memset sonna_os.Task.new_pml4 sonna_os.Vmm.phys_to_virt
    write64 index sonna_os.Memory.memcpy
loads = refl

got3 :
    (alloc_frames_zeroed
      (loading machine elf 7).1.1.pmm
      (loading machine elf 7).1.1.mem
      user_stack_pages).0
    ≡ some 0x9000
unfolding load_elf read_ehdr read64 alloc_zeroed test_frame sonna_os.Pmm.set_frames
    sonna_os.Pmm.set_frame sonna_os.Memory.memset sonna_os.Task.new_pml4 sonna_os.Vmm.phys_to_virt
    write64 index sonna_os.Memory.memcpy alloc_frames_zeroed
got3 = refl

stack_ok : (stacked machine elf 7).0 ≡ true
unfolding load_elf read_ehdr read64 alloc_zeroed test_frame sonna_os.Pmm.set_frames
    sonna_os.Pmm.set_frame sonna_os.Memory.memset sonna_os.Task.new_pml4 sonna_os.Vmm.phys_to_virt
    write64 index sonna_os.Memory.memcpy alloc_frames_zeroed sonna_os.Task.make_user_stack
stack_ok = refl

got4 :
    (alloc_frames_zeroed (stacked machine elf 7).1.pmm (stacked machine elf 7).1.mem 16).0
    ≡ some 0x14000
unfolding load_elf read_ehdr read64 alloc_zeroed test_frame sonna_os.Pmm.set_frames
    sonna_os.Pmm.set_frame sonna_os.Memory.memset sonna_os.Task.new_pml4 sonna_os.Vmm.phys_to_virt
    write64 index sonna_os.Memory.memcpy alloc_frames_zeroed sonna_os.Task.make_user_stack
got4 = refl

entry_there : (read_ehdr (before_program machine elf 7).mem elf).e_entry ≡ 0x40201000
unfolding read_ehdr read64 alloc_zeroed test_frame sonna_os.Pmm.set_frames sonna_os.Pmm.set_frame
    sonna_os.Memory.memset sonna_os.Task.new_pml4 sonna_os.Vmm.phys_to_virt write64
entry_there = refl

phoff : (read_ehdr (before_program machine elf 7).mem elf).e_phoff ≡ 64
unfolding read_ehdr read64 alloc_zeroed test_frame sonna_os.Pmm.set_frames sonna_os.Pmm.set_frame
    sonna_os.Memory.memset sonna_os.Task.new_pml4 sonna_os.Vmm.phys_to_virt write64
phoff = refl

segment_kept : read_phdr (before_program machine elf 7).mem (elf + 64) ≡ segment
unfolding read_phdr read64 alloc_zeroed test_frame sonna_os.Pmm.set_frames sonna_os.Pmm.set_frame
    sonna_os.Memory.memset sonna_os.Task.new_pml4 sonna_os.Vmm.phys_to_virt write64
segment_kept = refl

before_hhdm : (before_program machine elf 7).pmm.hhdm_offset ≡ 0x100000
unfolding alloc_zeroed test_frame sonna_os.Pmm.set_frames sonna_os.Pmm.set_frame
    sonna_os.Memory.memset sonna_os.Task.new_pml4 sonna_os.Vmm.phys_to_virt write64
before_hhdm = refl

kernel_table : IsKernelTable machine 1
unfolding test_frame
kernel_table = record {
  address = refl;
  inside = omega arith;
  used = refl;
  are_bytes = λ b low high. let null : memory b ≡ 0 = ground arith in omega (arith, null);
}

room : machine.pmm.hhdm_offset + machine.pmm.bitmap_frames * page_size < 2 ^ 64
room = omega arith

abbrev task_root_there : Root
task_root_there = task_root (task_pml4 machine elf 7)

in_frame :
    (b : ℕ) → 0x100000 ≤ b → b < 0x101000 → InFrame (before_program machine elf 7) task_root_there b
unfolding test_frame
in_frame b low high = record {
  frame = 0;
  is_apart =
      before-IsApart machine 1 elf 7 0x3000 0x4000 frames-IsValid room kernel_table (omega arith)
        got1 got2 0 refl;
  from = omega (arith, before_hhdm);
  to = omega (arith, before_hhdm);
}

segment-IsLoadable : IsLoadable (before_program machine elf 7) task_root_there elf segment
segment-IsLoadable = record {
  file_part = omega arith;
  top = omega arith;
  covers = λ a low high. task_covered a (omega arith);
  in_frames = λ b low high. in_frame b (omega arith) (omega arith);
}

file-AreLoadable : AreLoadable (before_program machine elf 7) task_root_there elf (elf + 64) 0 1
file-AreLoadable = record {
  in_frames = λ k low high b from to. in_frame b (omega arith) (omega (arith, to));
  loadable = λ k low high load.
      let only : k ≡ 0 = omega arith in
      let there : read_phdr (before_program machine elf 7).mem (elf + 64 + 56 * k) ≡ segment =
        ap (λ k. read_phdr (before_program machine elf 7).mem (elf + 64 + 56 * k)) only
        ∙ segment_kept in
      subst (IsLoadable (before_program machine elf 7) task_root_there elf) (sym there)
        segment-IsLoadable;
}

elf-AreLoadable :
    AreLoadable
      (before_program machine elf 7)
      task_root_there
      elf
      (add64 elf (read_ehdr (before_program machine elf 7).mem elf).e_phoff)
      0
      (read_ehdr (before_program machine elf 7).mem elf).e_phnum
elf-AreLoadable =
    subst
      (λ n.
        AreLoadable (before_program machine elf 7) task_root_there elf
          (add64 elf (read_ehdr (before_program machine elf 7).mem elf).e_phoff) 0 n)
      (sym phnum)
      (subst (λ o. AreLoadable (before_program machine elf 7) task_root_there elf (add64 elf o) 0 1)
        (sym phoff) file-AreLoadable)

elf-IsProgram : IsProgram (before_program machine elf 7) task_root_there elf
elf-IsProgram = record {
  header_in = λ b low high. in_frame b (omega arith) (omega (arith, high));
  count = omega (arith, phnum);
  headers = elf-AreLoadable;
}

task_create_from_elf-Created_example :
    ((task_create_from_elf elf 7 machine).0.0 ≡ some (new_task machine elf 7))
    × ((task_create_from_elf elf 7 machine).1 ≡ (7 + 1) % 2 ^ 32)
    × Created machine
        (page machine.pmm.hhdm_offset 1)
        (before_program machine elf 7)
        elf
        7
        (new_task machine elf 7)
        (task_create_from_elf elf 7 machine).0.1
task_create_from_elf-Created_example =
    task_create_from_elf-Created machine 1 elf 7 0x3000 0x4000 0x9000 0x14000 frames-IsValid room
      kernel_table (omega arith) got1 got2 elf-IsProgram (omega (arith, entry_there)) loads got3
      stack_ok got4

new_pml4-NewTree_example : NewTree machine (page machine.pmm.hhdm_offset 1) (new_pml4 machine)
new_pml4-NewTree_example = new_pml4-NewTree machine 1 0x3000 frames-IsValid room kernel_table got1
