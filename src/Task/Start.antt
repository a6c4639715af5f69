-- ===== src/Task/Start.antt =====
-- `task_create_from_elf` up to the call of `load_elf`.
use sonna_os.Prelude.{
  ℕ, ◌+◌, ◌*◌, ◌%◌, ◌^◌, ◌<◌, ◌≤◌, ◌≡◌, ◌⊎◌, refl, sym, subst, ◌∙◌, ap, inr, Bool, true, not, ◌==◌,
  Option, some, add64, arith,
}
use sonna_os.Memory.{Mem}
use sonna_os.Memory.Word.{read64, write64, read64-write64, read64-frame, write64-Outside}
use sonna_os.Pmm.{test_frame, page_size, alloc_zeroed}
use sonna_os.Pmm.Valid.{IsValid}
use sonna_os.Vmm.{Vm, slot, set_word, phys_to_virt}
use sonna_os.Vmm.Entry.{is_present_lem}
use sonna_os.Vmm.Table.{Root, page}
use sonna_os.Vmm.Extends.{IsVm}
use sonna_os.Vmm.Keep.{IsApart}
use sonna_os.Vmm.Empty.{root-is_table}
use sonna_os.Vmm.Store.{stored-IsVm, stored-IsApart, stored-entry}
use sonna_os.Elf.{load_elf}
use sonna_os.Task.{new_pml4, make_user_stack, take_page}
use sonna_os.Task.Pml4.{task_root, NewTree, IsKernelTable, new_pml4-NewTree}
use sonna_os.Task.New.{IsBlank, IsBlank-frame, NewTask, take_page-NewTask, task_of, named}

-- A blank task in the frame `t`, with the page tables at `phys`, before its program is loaded.
pub record Started (vm : Vm) (root : Root) (t task pid phys : ℕ) : Type 0 where
  pub place : task ≡ page vm.pmm.hhdm_offset t
  pub is_vm : IsVm vm root
  pub apart : IsApart vm root t
  pub is_blank : IsBlank vm.mem task pid
  pub pml4_field : read64 vm.mem (task + 8) ≡ phys

-- The page tables are new and the task knows them.
module _ (vm : Vm) (kpml4 t pid : ℕ) (r : ℕ × Vm) (used : test_frame vm.pmm.bitmap t ≡ true)
    (new : NewTree vm kpml4 r) (blank : IsBlank vm.mem (page vm.pmm.hhdm_offset t) pid) where
  abbrev address : ℕ
  address = page vm.pmm.hhdm_offset new.n

  abbrev task : ℕ
  task = page vm.pmm.hhdm_offset t

  abbrev known : Mem
  known = write64 r.1.mem (task + 8) r.0

  used_apart : (f : ℕ) → test_frame vm.pmm.bitmap f ≡ true → IsApart r.1 (task_root address) f
  used_apart f used = record {
    used = new.marks f used;
    no_table = λ path p ip e c.
        let at_root =
          root-is_table r.1.pmm r.1.mem (task_root address)
            (λ i li own.
              is_present_lem (read64 r.1.mem (slot address i))
              ∙ ap (λ x. not (x % 2 == 0)) (new.own_half i (ground arith)))
            path p ip e in
        let same : f ≡ new.n = omega (arith, at_root, c, new.same_hhdm) in
        absurd (ground (arith, new.unused, ap (test_frame vm.pmm.bitmap) same, used));
  }

  task_apart : IsApart r.1 (task_root address) t
  task_apart = used_apart t used

  known_outside :
      (b : ℕ)
      → (b < page r.1.pmm.hhdm_offset t) ⊎ (page r.1.pmm.hhdm_offset t + 4096 ≤ b)
      → known b ≡ r.1.mem b
  known_outside b off = write64-Outside r.1.mem (task + 8) r.0 b (ground (arith, new.same_hhdm))

  pub known-Started : Started (set_word r.1 (task + 8) r.0) (task_root address) t task pid r.0
  known-Started = record {
    place = ap (λ h. page h t) (sym new.same_hhdm);
    is_vm = stored-IsVm r.1 (task_root address) t known new.is_vm task_apart known_outside;
    apart =
        stored-IsApart r.1 (task_root address) t known new.is_vm task_apart known_outside t
          task_apart;
    is_blank =
        IsBlank-frame vm.mem known task pid
          (λ b low high.
            write64-Outside r.1.mem (task + 8) r.0 b (inr (omega arith))
            ∙ new.bytes t b used (omega arith) (omega arith))
          blank;
    pml4_field = read64-write64 r.1.mem (task + 8) r.0 new.small;
  }

  pub known-IsApart :
      (f : ℕ)
      → test_frame vm.pmm.bitmap f ≡ true
      → IsApart (set_word r.1 (task + 8) r.0) (task_root address) f
  known-IsApart f in_use =
      stored-IsApart r.1 (task_root address) t known new.is_vm task_apart known_outside f
        (used_apart f in_use)

  -- The kernel's half is in place.
  pub known_half :
      (j : ℕ) → 256 ≤ j → j < 512 → read64 known (slot address j) ≡ read64 vm.mem (slot kpml4 j)
  known_half j low high =
      stored-entry r.1 (task_root address) t known new.is_vm task_apart known_outside j high
      ∙ new.kernel_half j low high

-- The states on the way.
module _ (vm : Vm) (elf_data pid : ℕ) where
  abbrev pub new_task : ℕ
  new_task = task_of (take_page vm)

  abbrev pub with_task_page : Vm
  with_task_page = named (take_page vm) pid

  abbrev pub tree : ℕ × Vm
  tree = new_pml4 with_task_page

  abbrev pub task_pml4 : ℕ
  task_pml4 = phys_to_virt tree.1 tree.0

  abbrev pub before_program : Vm
  before_program = set_word tree.1 (new_task + 8) tree.0

  abbrev pub loading : Option ℕ × (Bool × Vm)
  loading = load_elf elf_data task_pml4 before_program

  abbrev pub stacked : Bool × Vm
  stacked = make_user_stack loading.1.1 task_pml4

-- The kernel's table is not touched by the first page.
named-IsKernelTable :
    (vm : Vm) (kf pid p : ℕ) (vm' : Vm)
    → IsKernelTable vm kf
    → NewTask vm pid p vm'
    → IsKernelTable vm' kf
named-IsKernelTable vm kf pid p vm' kernel new = record {
  address = new.kernel ∙ kernel.address;
  inside = omega (arith, kernel.inside, new.frames);
  used = new.marks kf kernel.used;
  are_bytes = λ b low high.
      let from : page vm.pmm.hhdm_offset kf ≤ b = omega (arith, low, new.hhdm) in
      let to : b < page vm.pmm.hhdm_offset kf + 4096 = omega (arith, high, new.hhdm) in
      omega (arith, new.bytes kf b kernel.used from to, kernel.are_bytes b from to);
}

kernel_entry :
    (vm : Vm) (kf pid p : ℕ) (vm' : Vm)
    → IsKernelTable vm kf
    → NewTask vm pid p vm'
    → (j : ℕ) → j < 512
    → read64 vm'.mem (slot (page vm'.pmm.hhdm_offset kf) j)
      ≡ read64 vm.mem (slot (page vm.pmm.hhdm_offset kf) j)
kernel_entry vm kf pid p vm' kernel new j lj =
    ap (λ h. read64 vm'.mem (slot (page h kf) j)) new.hhdm
    ∙ read64-frame vm.mem vm'.mem (slot (page vm.pmm.hhdm_offset kf) j)
        (λ b low high. new.bytes kf b kernel.used (omega arith) (omega (arith, high, lj)))

pub phys_to_virt_lem : (vm : Vm) (phys : ℕ) → phys_to_virt vm phys ≡ add64 phys vm.pmm.hhdm_offset
unfolding phys_to_virt
phys_to_virt_lem vm phys = refl

-- Everything up to `load_elf`.
module _ (vm : Vm) (kf elf_data pid a1 a2 : ℕ) (valid : IsValid vm.pmm)
    (room : vm.pmm.hhdm_offset + vm.pmm.bitmap_frames * page_size < 2 ^ 64)
    (kernel : IsKernelTable vm kf) (small : pid < 2 ^ 32)
    (got1 : (alloc_zeroed vm.pmm vm.mem).0 ≡ some a1)
    (got2 : (alloc_zeroed
        (with_task_page vm elf_data pid).pmm
        (with_task_page vm elf_data pid).mem).0
      ≡ some a2) where
  abbrev v : Vm
  v = with_task_page vm elf_data pid

  abbrev place : ℕ
  place = new_task vm elf_data pid

  pub new : NewTask vm pid place v
  new = take_page-NewTask vm pid a1 valid room small got1

  tables : NewTree v (page v.pmm.hhdm_offset kf) (tree vm elf_data pid)
  tables =
      new_pml4-NewTree v kf a2 new.valid new.room (named-IsKernelTable vm kf pid place v kernel new)
        got2

  task_place : place ≡ page v.pmm.hhdm_offset new.t
  task_place = new.place ∙ ap (λ h. page h new.t) (sym new.hhdm)

  blank_there : IsBlank v.mem (page v.pmm.hhdm_offset new.t) pid
  blank_there = subst (λ p. IsBlank v.mem p pid) task_place new.is_blank

  pub before-Started :
      Started
        (before_program vm elf_data pid)
        (task_root (task_pml4 vm elf_data pid))
        new.t
        place
        pid
        (tree vm elf_data pid).0
  before-Started =
      subst
        (λ x.
          Started (before_program vm elf_data pid) (task_root x) new.t place pid
            (tree vm elf_data pid).0)
        (sym tables.place)
        (subst
          (λ y.
            Started (set_word (tree vm elf_data pid).1 (y + 8) (tree vm elf_data pid).0)
              (task_root (page v.pmm.hhdm_offset tables.n)) new.t y pid (tree vm elf_data pid).0)
          (sym task_place)
          (known-Started v (page v.pmm.hhdm_offset kf) new.t pid (tree vm elf_data pid) new.used
            tables blank_there))

  pub before-IsApart :
      (f : ℕ)
      → test_frame vm.pmm.bitmap f ≡ true
      → IsApart (before_program vm elf_data pid) (task_root (task_pml4 vm elf_data pid)) f
  before-IsApart f in_use =
      subst (λ x. IsApart (before_program vm elf_data pid) (task_root x) f) (sym tables.place)
        (subst
          (λ y.
            IsApart (set_word (tree vm elf_data pid).1 (y + 8) (tree vm elf_data pid).0)
              (task_root (page v.pmm.hhdm_offset tables.n)) f)
          (sym task_place)
          (known-IsApart v (page v.pmm.hhdm_offset kf) new.t pid (tree vm elf_data pid) new.used
            tables blank_there f (new.marks f in_use)))

  pub before-half :
      (j : ℕ)
      → 256 ≤ j
      → j < 512
      → read64 (before_program vm elf_data pid).mem (slot (task_pml4 vm elf_data pid) j)
        ≡ read64 vm.mem (slot (page vm.pmm.hhdm_offset kf) j)
  before-half j low high =
      ap (λ x. read64 (before_program vm elf_data pid).mem (slot x j)) tables.place
      ∙ ap
          (λ y.
            read64 (write64 (tree vm elf_data pid).1.mem (y + 8) (tree vm elf_data pid).0)
              (slot (page v.pmm.hhdm_offset tables.n) j))
          task_place
      ∙ known_half v (page v.pmm.hhdm_offset kf) new.t pid (tree vm elf_data pid) new.used tables
          blank_there j low high
      ∙ kernel_entry vm kf pid place v kernel new j high
