-- ===== src/Task/Stack.antt =====
-- The stack of a task in user mode.
use sonna_os.Prelude.{
  ℕ, ◌+◌, ◌*◌, ◌/◌, ◌<◌, ◌≤◌, ◌≡◌, ◌⊎◌, refl, sym, subst, ◌∙◌, ap, Bool, true, false, Option, none,
  some, arith,
}
use sonna_os.Memory.{Mem}
use sonna_os.Pmm.{Pmm, test_frame, alloc_frames_zeroed}
use sonna_os.Pmm.Search.{any}
use sonna_os.Pmm.Valid.{Allocated}
use sonna_os.Pmm.Zeroed.{IsCleared, alloc_frames_zeroed-IsCleared}
use sonna_os.Vmm.{Vm}
use sonna_os.Vmm.Word.{leaf_word, user_page_word_lem}
use sonna_os.Vmm.Entry.{index_lem}
use sonna_os.Vmm.Ops.{user_page_word, vmm_map_range_for_pml4}
use sonna_os.Vmm.Table.{Root, page}
use sonna_os.Vmm.Extends.{IsVm, lookup_in}
use sonna_os.Vmm.Keep.{IsApart}
use sonna_os.Vmm.Map.{page_path}
use sonna_os.Vmm.Advance.{Advances, Advances-trans}
use sonna_os.Vmm.Take.{taken-Advances, taken-IsApart}
use sonna_os.Vmm.Range.{page_at, Mapped, IsRangeCovered, range-Mapped}
use sonna_os.Task.{
  user_stack_vaddr, user_stack_pages, user_data_flags, taken, take_pages, map_stack,
  make_user_stack,
}
use sonna_os.Task.Pml4.{task_root}

-- The pages of the stack lead to a run of frames that were free and read as zero.
pub record UserStack (vm : Vm) (root : Root) (vm' : Vm) : Type 0 where
  pub advances : Advances vm root vm'
  pub start : ℕ
  pub own : (k : ℕ) → k < 8 → IsApart vm' root (start + k)
  pub unused : (k : ℕ) → k < 8 → test_frame vm.pmm.bitmap (start + k) ≡ false
  pub leads :
      (k : ℕ)
      → k < 8
      → lookup_in vm' root (page_path (page_at user_stack_vaddr k))
        ≡ some (leaf_word (start + k) true)
  pub zeros : (o : ℕ) → o < 8 * 4096 → vm'.mem (page vm'.pmm.hhdm_offset start + o) ≡ 0

pub stack_covered : (address : ℕ) → IsRangeCovered (task_root address) user_stack_vaddr 0 8
stack_covered address k low high = ground (arith, index_lem 39 (page_at user_stack_vaddr k))

module _ (vm : Vm) (address a : ℕ) (s : Pmm) (m : Mem) (is : IsVm vm (task_root address))
    (out : Allocated vm.pmm any 8 a s)
    (cleared : IsCleared vm.mem (a + vm.pmm.hhdm_offset) (8 * 4096) m) where
  abbrev root : Root
  root = task_root address

  abbrev vm1 : Vm
  vm1 = record vm { pmm = s; mem = m }

  outside :
      (b : ℕ)
      → (b < page vm.pmm.hhdm_offset out.start) ⊎ (page vm.pmm.hhdm_offset (out.start + 8) ≤ b)
      → m b ≡ vm.mem b
  outside b off = cleared.outside b (ground (arith, out.address))

  first : Advances vm root vm1
  first = taken-Advances vm root a 8 s m is out outside

  abbrev call : Bool × Vm
  call = vmm_map_range_for_pml4 vm1 address user_stack_vaddr a user_stack_pages user_data_flags

  mapped : Mapped vm1 root user_stack_vaddr a 0 8 user_data_flags call.0 call.1
  mapped =
      range-Mapped vm1 root user_stack_vaddr a 8 user_data_flags first.is_vm (omega arith)
        (stack_covered address)

  pub mapped-UserStack : call.0 ≡ true → UserStack vm root call.1
  mapped-UserStack ok = record {
    advances = Advances-trans vm vm1 call.1 root first mapped.advances;
    start = out.start;
    own = λ k lt.
        (mapped.advances.keeps.frames (out.start + k)
          (taken-IsApart vm root a 8 s m is out outside k lt)).still;
    unused = λ k lt. (out.run).1 (out.start + k) (omega arith) (omega arith);
    leads = λ k lt.
        mapped.mapped k ok (omega arith) (omega arith)
        ∙ ap some (
            ap (λ p. user_page_word p user_data_flags)
              (omega (arith, lt, out.address, out.inside, is.valid.small))
            ∙ user_page_word_lem (out.start + k) user_data_flags 1 6 refl (omega arith)
                (omega arith));
    zeros = λ o lt.
        let own = taken-IsApart vm root a 8 s m is out outside (o / 4096) (omega arith) in
        ap (λ h. call.1.mem (page h out.start + o)) (mapped.advances.hhdm ∙ out.same_hhdm)
        ∙ (mapped.advances.keeps.frames (out.start + o / 4096) own).bytes
            (page vm.pmm.hhdm_offset out.start + o) (omega (arith, out.same_hhdm))
            (omega (arith, out.same_hhdm))
        ∙ ap (λ p. m (p + vm.pmm.hhdm_offset + o)) (sym out.address)
        ∙ cleared.inside o lt;
  }

make_user_stack_lem :
    (vm : Vm) (pml4 : ℕ)
    → make_user_stack vm pml4
      ≡ map_stack pml4 (taken vm (alloc_frames_zeroed vm.pmm vm.mem user_stack_pages))
unfolding make_user_stack take_pages
make_user_stack_lem vm pml4 = refl

-- When make_user_stack gets its frames and maps them, the eight pages of the stack lead in order
-- to a run of frames that were free and read as zero, and nothing else is lost.
pub make_user_stack-UserStack :
    (vm : Vm) (address a : ℕ)
    → IsVm vm (task_root address)
    → (alloc_frames_zeroed vm.pmm vm.mem user_stack_pages).0 ≡ some a
    → (make_user_stack vm address).0 ≡ true
    → UserStack vm (task_root address) (make_user_stack vm address).1
make_user_stack-UserStack vm address a is got ok =
    let shut = make_user_stack_lem vm address in
    subst (λ r. UserStack vm (task_root address) r.1) (sym shut)
      (go (alloc_frames_zeroed vm.pmm vm.mem user_stack_pages) refl got
        (sym (ap (λ (r : Bool × Vm). r.0) shut) ∙ ok))
  where
    go :
        (r : Option ℕ × Pmm × Mem)
        → alloc_frames_zeroed vm.pmm vm.mem user_stack_pages ≡ r
        → r.0 ≡ some a
        → (map_stack address (taken vm r)).0 ≡ true
        → UserStack vm (task_root address) (map_stack address (taken vm r)).1
    go (none, s, m) e got ok = absurd (cc)
    go (some b, s, m) e got ok =
        let (out, cleared) = alloc_frames_zeroed-IsCleared vm.pmm vm.mem 8 is.valid is.room e in
        mapped-UserStack vm address b s m is out cleared ok
