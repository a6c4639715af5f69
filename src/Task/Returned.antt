-- ===== src/Task/Returned.antt =====
-- A task from its page tables on: the program, the stacks and the registers together.
use sonna_os.Prelude.{
  ℕ, ◌%◌, ◌≢◌, true, false, List, ◌+◌, ◌-◌, ◌*◌, ◌/◌, ◌<◌, ◌≤◌, ◌≡◌, ◌⊎◌, refl, sym, subst, ◌∙◌, ap,
  inl, inr, Bool, Option, some, add64, arith,
}
use sonna_os.Memory.Word.{read64, read64-frame}
use sonna_os.Vmm.{Vm, slot, phys_to_virt}
use sonna_os.Vmm.Entry.{index-lt}
use sonna_os.Vmm.Table.{Root, page}
use sonna_os.Vmm.Extends.{IsVm, lookup_in}
use sonna_os.Vmm.Map.{page_path}
use sonna_os.Vmm.Range.{page_at, leaf, leaf-IsPath}
use sonna_os.Elf.{Elf64Phdr, page_start, read_phdr, read_ehdr, load_elf}
use sonna_os.Elf.Load.{IsLoaded}
use sonna_os.Elf.Pages.{IsLoadable, covered_of}
use sonna_os.Elf.InMemory.{IsLoaded-IsInMemory, frame_in, page_path-page}
use sonna_os.Vmm.Keep.{IsApart}
use sonna_os.Vmm.Word.{leaf_word}
use sonna_os.Pmm.{test_frame}
use sonna_os.Vmm.Advance.{Advances, Advances-trans}
use sonna_os.Elf.Segments.{IsProgram, IsPlaced}
use sonna_os.Elf.Rounds.{RoundsDone}
use sonna_os.Elf.Put.{IsPut, IsLoaded-Advances, IsLoadable-Advances}
use sonna_os.Scheduler.{ready}
use sonna_os.Task.{user_stack_vaddr, task_stack_size, read_task, state_of}
use sonna_os.Task.Pml4.{task_root}
use sonna_os.Task.Context.{IsContext}
use sonna_os.Task.Finish.{Finished}
use sonna_os.Task.Stack.{UserStack, stack_covered}
use sonna_os.Task.New.{IsBlank, IsBlank-frame}
use sonna_os.Task.Start.{Started}

-- A frame in use is not one that is not.
used_ne :
    (bitmap : List ℕ) (a b : ℕ) → test_frame bitmap a ≡ false → test_frame bitmap b ≡ true → a ≢ b
used_ne bitmap a b unused used e =
    true-ne-false (sym used ∙ ap (test_frame bitmap) (sym e) ∙ unused)
  where
    true-ne-false : true ≡ false → ⊥
    true-ne-false e = absurd (cc)

-- What the task that is returned has: its page tables are well formed, have the kernel's half as
-- `vm` had it, and lead to the program's segments, as `started` had the file, and to the user
-- stack, which reads as zero; its fields are set, and its registers wait on its kernel stack. The
-- frames of both stacks are in use, no tables, and frames of which `started` used none, tables
-- aside.
pub record Created (vm : Vm) (kpml4 : ℕ) (started : Vm) (elf_data pid task : ℕ) (vm' : Vm)
    : Type 0 where
  pub address : ℕ
  pub pml4_phys : ℕ
  pub tables : phys_to_virt vm' pml4_phys ≡ address
  pub is_vm : IsVm vm' (task_root address)
  pub kernel_half :
      (j : ℕ) → 256 ≤ j → j < 512 → read64 vm'.mem (slot address j) ≡ read64 vm.mem (slot kpml4 j)
  pub loaded :
      (k : ℕ)
      → k < (read_ehdr started.mem elf_data).e_phnum
      → (read_phdr started.mem
          (add64 elf_data (read_ehdr started.mem elf_data).e_phoff + 56 * k)).p_type
        ≡ 1
      → IsPlaced started
          (task_root address)
          elf_data
          vm'
          (read_phdr started.mem (add64 elf_data (read_ehdr started.mem elf_data).e_phoff + 56 * k))
  pub stack_frame : ℕ
  pub stack_leads :
      (k : ℕ)
      → k < 8
      → lookup_in vm' (task_root address) (page_path (0x7FFFFFFF0000 + k * 4096))
        ≡ some (leaf_word (stack_frame + k) true)
  pub stack_own : (k : ℕ) → k < 8 → IsApart vm' (task_root address) (stack_frame + k)
  pub stack_fresh : (f k : ℕ) → IsApart started (task_root address) f → k < 8 → stack_frame + k ≢ f
  pub stack_zeros : (o : ℕ) → o < 8 * 4096 → vm'.mem (page vm'.pmm.hhdm_offset stack_frame + o) ≡ 0
  pub kernel_frame : ℕ
  pub kernel_own : (k : ℕ) → k < 16 → IsApart vm' (task_root address) (kernel_frame + k)
  pub kernel_fresh :
      (f k : ℕ) → IsApart started (task_root address) f → k < 16 → kernel_frame + k ≢ f
  pub kernel_apart : (j k : ℕ) → j < 8 → k < 16 → kernel_frame + k ≢ stack_frame + j
  pub kernel_place : (read_task vm'.mem task).kernel_stack ≡ page vm'.pmm.hhdm_offset kernel_frame
  pub fields : read_task vm'.mem task ≡ record {
    ctx = (read_task vm'.mem task).kernel_stack + 16 * 4096 - 160;
    pml4_phys = pml4_phys;
    kernel_stack = (read_task vm'.mem task).kernel_stack;
    state = ready;
    pid = pid;
    next = 0;
  }
  pub context :
      IsContext vm'.mem (read_task vm'.mem task).ctx (read_ehdr started.mem elf_data).e_entry

-- From there on: the program, the stack and the registers.
module _ (vm : Vm) (t task pid phys address elf_data : ℕ)
    (started : Started vm (task_root address) t task pid phys)
    (tables_at : add64 phys vm.pmm.hhdm_offset ≡ address) where
  abbrev root : Root
  root = task_root address

  abbrev program : Option ℕ × (Bool × Vm)
  program = load_elf elf_data address vm

  abbrev phdr : ℕ
  phdr = add64 elf_data (read_ehdr vm.mem elf_data).e_phoff

  abbrev count : ℕ
  count = (read_ehdr vm.mem elf_data).e_phnum

  abbrev entry : ℕ
  entry = (read_ehdr vm.mem elf_data).e_entry

  module _ (vm1 vm2 vm3 : Vm) (segments : RoundsDone vm root elf_data phdr 0 count vm1)
      (can : IsProgram vm root elf_data) (stack : UserStack vm1 root vm2)
      (done : Finished vm2 root t entry vm3) where
    hhdm : vm3.pmm.hhdm_offset ≡ vm.pmm.hhdm_offset
    hhdm = done.hhdm ∙ stack.advances.hhdm ∙ segments.advances.hhdm

    both : Advances vm root vm2
    both = Advances-trans vm vm1 vm2 root segments.advances stack.advances

    task_byte :
        (b : ℕ)
        → task + 8 ≤ b
        → b < task + 4096
        → (b < task + 16) ⊎ (task + 24 ≤ b)
        → vm3.mem b ≡ vm.mem b
    task_byte b low high off =
        done.fields b (omega (arith, low, started.place, both.hhdm))
          (omega (arith, high, started.place, both.hhdm))
          (ground (arith, off, started.place, both.hhdm))
        ∙ (both.keeps.frames t started.apart).bytes b (omega (arith, low, started.place))
            (omega (arith, high, started.place))

    at_task : page vm2.pmm.hhdm_offset t ≡ task
    at_task = ap (λ h. page h t) both.hhdm ∙ sym started.place

    kernel_stack_field : read64 vm3.mem (task + 16) ≡ page vm2.pmm.hhdm_offset done.stack
    kernel_stack_field = ap (λ p. read64 vm3.mem (p + 16)) (sym at_task) ∙ done.kernel_stack

    ctx_field : read64 vm3.mem task ≡ page vm2.pmm.hhdm_offset (done.stack + 16) - 160
    ctx_field = ap (read64 vm3.mem) (sym at_task) ∙ done.ctx

    pml4_field : read64 vm3.mem (task + 8) ≡ phys
    pml4_field =
        read64-frame vm.mem vm3.mem (task + 8)
          (λ b low high. task_byte b low (omega arith) (inl (omega arith)))
        ∙ started.pml4_field

    blank : IsBlank vm3.mem task pid
    blank =
        IsBlank-frame vm.mem vm3.mem task pid
          (λ b low high. task_byte b (omega arith) (omega arith) (inr low)) started.is_blank

    -- The frames of the user stack are not the task's.
    stack_apart : (k : ℕ) → k < 8 → stack.start + k ≢ t
    stack_apart k lt =
        used_ne vm1.pmm.bitmap (stack.start + k) t (stack.unused k lt)
          ((segments.advances.keeps.frames t started.apart).still).used

    -- A segment stays as it was put, since its frames are not the task's.
    segment_stays :
        (ph : Elf64Phdr)
        → IsLoadable vm root elf_data ph
        → IsPut vm root elf_data vm1 ph
        → IsPlaced vm root elf_data vm3 ph
    segment_stays ph loadable put =
        let two =
          IsLoaded-Advances vm1 vm2 root elf_data ph stack.advances vm.mem put.start
            (IsLoadable-Advances vm vm1 root elf_data ph segments.advances loadable)
            put.is_loaded in
        let last : IsLoaded vm3 root vm.mem elf_data ph put.start = record {
          own = λ k lt.
              (done.frames (put.start + k) (two.own k lt) (put.apart t k started.apart lt)).still;
          leads = λ k lt.
              let at = page_at (page_start ph.p_vaddr) k in
              done.stays _ (leaf at) _ (index-lt 12 at)
                (leaf-IsPath root at (covered_of loadable k (omega arith) (omega (arith, lt)))) refl
                (two.leads k lt);
          content = λ o lt.
              ap (λ h. vm3.mem (page h put.start + o)) done.hhdm
              ∙ (done.frames (put.start + o / 4096) (two.own (o / 4096) (omega arith))
                    (put.apart t (o / 4096) started.apart (omega arith))).bytes
                  (page vm2.pmm.hhdm_offset put.start + o) (omega arith) (omega arith)
              ∙ two.content o lt;
        } in
        record {
          start = put.start;
          in_memory = IsLoaded-IsInMemory vm3 root vm vm.mem elf_data ph put.start loadable last;
          fresh = λ f o apart inside.
              put.apart f ((ph.p_vaddr % 4096 + o) / 4096) apart
                (frame_in vm3 root vm vm.mem elf_data ph put.start loadable o inside);
        }

    kernel_stack_read : (read_task vm3.mem task).kernel_stack ≡ read64 vm3.mem (task + 16)
    unfolding read_task
    kernel_stack_read = refl

    ctx_read : (read_task vm3.mem task).ctx ≡ read64 vm3.mem task
    unfolding read_task
    ctx_read = refl

    ctx_on_stack : read64 vm3.mem task ≡ read64 vm3.mem (task + 16) + task_stack_size - 160
    ctx_on_stack = omega (arith, ctx_field, kernel_stack_field)

    task_fields : read_task vm3.mem task ≡ record {
      ctx = (read_task vm3.mem task).kernel_stack + task_stack_size - 160;
      pml4_phys = phys;
      kernel_stack = (read_task vm3.mem task).kernel_stack;
      state = ready;
      pid = pid;
      next = 0;
    }
    unfolding read_task state_of
    task_fields = rw (ctx_on_stack, pml4_field, blank.state, blank.pid_field, blank.next) refl

    pub created :
        (vm0 : Vm) (kpml4 : ℕ)
        → ((j : ℕ)
            → 256 ≤ j
            → j < 512
            → read64 vm.mem (slot address j) ≡ read64 vm0.mem (slot kpml4 j))
        → Created vm0 kpml4 vm elf_data pid task vm3
    unfolding phys_to_virt
    created vm0 kpml4 half = record {
      address = address;
      pml4_phys = phys;
      tables = ap (add64 phys) hhdm ∙ tables_at;
      is_vm = done.is_vm;
      kernel_half = λ j low high.
          done.shared j high (ground arith)
          ∙ both.keeps.shared j high (ground arith)
          ∙ half j low high;
      loaded = λ k lt load.
          segment_stays (read_phdr vm.mem (phdr + 56 * k))
            (can.headers.loadable k (omega arith) (omega (arith, lt)) load)
            (segments.loaded k (omega arith) (omega (arith, lt)) load);
      stack_frame = stack.start;
      stack_leads = λ k lt.
          let at = page_at user_stack_vaddr k in
          ap (lookup_in vm3 root) (page_path-page (0x7FFFFFFF0000 + k * 4096) at (omega arith))
          ∙ done.stays _ (leaf at) _ (index-lt 12 at)
              (leaf-IsPath root at (stack_covered address k (omega arith) (omega (arith, lt)))) refl
              (stack.leads k lt);
      stack_own = λ k lt. (done.frames (stack.start + k) (stack.own k lt) (stack_apart k lt)).still;
      stack_fresh = λ f k apart lt.
          used_ne vm1.pmm.bitmap (stack.start + k) f (stack.unused k lt)
            ((segments.advances.keeps.frames f apart).still).used;
      stack_zeros = λ o lt.
          ap (λ h. vm3.mem (page h stack.start + o)) done.hhdm
          ∙ (done.frames (stack.start + o / 4096) (stack.own (o / 4096) (omega arith))
                (stack_apart (o / 4096) (omega arith))).bytes
              (page vm2.pmm.hhdm_offset stack.start + o) (omega arith) (omega arith)
          ∙ stack.zeros o lt;
      kernel_frame = done.stack;
      kernel_own = done.own;
      kernel_fresh = λ f k apart lt.
          used_ne vm2.pmm.bitmap (done.stack + k) f (done.unused k lt)
            ((both.keeps.frames f apart).still).used;
      kernel_apart = λ j k low lt.
          used_ne vm2.pmm.bitmap (done.stack + k) (stack.start + j) (done.unused k lt)
            (stack.own j low).used;
      kernel_place =
          kernel_stack_read ∙ kernel_stack_field ∙ ap (λ h. page h done.stack) (sym done.hhdm);
      fields = task_fields;
      context = subst (λ c. IsContext vm3.mem c entry) (sym (ctx_read ∙ ctx_field)) done.context;
    }
