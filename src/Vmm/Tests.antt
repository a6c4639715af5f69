-- ===== src/Vmm/Tests.antt =====
-- The page tables of kernel/arch/x86_64/mm/vmm.c in a memory of zeros, and their theorems there.
use sonna_os.Prelude.{
  ℕ, zero, suc, ◌^◌, ◌<◌, ltb, ◌≡◌, ◌≢◌, refl, sym, subst, ◌∙◌, ap, inr, true, false, Option, none,
  some, eq_of_some, List, [], ◌∷◌, arith,
}
use sonna_os.Memory.{Mem}
use sonna_os.Memory.Word.{read64, read64-zero}
use sonna_os.Pmm.{Pmm, test_frame}
use sonna_os.Pmm.Bitmap.{IsBytes}
use sonna_os.Pmm.Frames.{clears}
use sonna_os.Pmm.Valid.{IsValid}
use sonna_os.Vmm.{Vm, is_present, slot, index, pml4_index}
use sonna_os.Vmm.Ops.{user_page_word, vmm_map_for_pml4}
use sonna_os.Vmm.Entry.{index_lem}
use sonna_os.Vmm.Table.{Root, step, table_at, IsPath, none-ne-some}
use sonna_os.Vmm.Extends.{IsVm, lookup_in}
use sonna_os.Vmm.Query.{path_pd, kernel_root, whole, translated, IsPlain, vmm_get_physical-lookup}
use sonna_os.Vmm.Unmap.{Unmapped, vmm_unmap-Unmapped}
use sonna_os.Vmm.{phys_to_virt, is_huge, pd_index}
use sonna_os.Vmm.Ops.{vmm_get_physical, vmm_unmap}
use sonna_os.Vmm.Extends.{table_in}
use sonna_os.Vmm.Map.{
  page_path, succeeds, mapped_vm, vmm_map_for_pml4-IsVm, vmm_map_for_pml4-mapped,
  vmm_map_for_pml4-others,
}

-- 16 frames, of which 0 and 1 are used.
abbrev pub frames : Pmm
frames = record {
  bitmap = 0x03 ∷ 0x00 ∷ [];
  bitmap_bytes = 2;
  bitmap_frames = 16;
  total_frames = 16;
  usable_frames = 16;
  free_frames = 14;
  used_frames = 2;
  next_fit_hint = 1;
  hhdm_offset = 0x100000;
}

abbrev pub zeros : Mem
zeros = λ a. 0

-- The root table is frame 1, and it is empty.
abbrev pub vm : Vm
vm = record { pmm = frames; mem = zeros; kernel_pml4_phys = 0x1000 }

abbrev pub root : Root
root = record { address = 0x101000; covers = λ i. ltb i 256 }

frames-IsBytes : IsBytes frames.bitmap
frames-IsBytes zero = omega arith
frames-IsBytes (suc zero) = omega arith
frames-IsBytes (suc (suc i)) = omega arith

frames-IsValid : IsValid frames
unfolding test_frame clears
frames-IsValid = record {
  bytes = frames-IsBytes;
  covers = omega arith;
  small = omega arith;
  hint_in = omega arith;
  zero_used = refl;
  counted = omega arith;
  balanced = refl;
}

absent : (p : ℕ) → is_present (read64 zeros p) ≡ false
unfolding is_present
absent p = rw (read64-zero zeros p (λ a le lt. refl)) refl

step-nowhere : (i : ℕ) (o : Option ℕ) → step zeros 0x100000 i o ≡ none
step-nowhere i none = refl
step-nowhere i (some p) = rw (absent (slot p i)) refl

nowhere : (i : ℕ) (path : List ℕ) → table_at zeros 0x100000 root (i ∷ path) ≡ none
nowhere i path = step-nowhere i (table_at zeros 0x100000 root path)

only_root :
    (path : List ℕ) (p : ℕ)
    → table_at zeros 0x100000 root path ≡ some p
    → (path ≡ []) × (p ≡ root.address)
only_root [] p e = (refl, sym (eq_of_some e))
only_root (i ∷ path) p e = absurd (none-ne-some (sym (nowhere i path) ∙ e))

pub vm-IsVm : IsVm vm root
unfolding test_frame
vm-IsVm = record {
  valid = frames-IsValid;
  room = omega arith;
  space = record {
    placed = λ path p is e. record {
      frame = 1;
      address = (only_root path p e).1;
      inside = omega arith;
      used = refl;
    };
    apart = λ a b p ia ib ea eb. (only_root a p ea).0 ∙ sym ((only_root b p eb).0);
  };
}

-- An address of a task stands below the entries that are the task's own.
pub task_covered : (virt : ℕ) → virt < 2 ^ 47 → root.covers (pml4_index virt) ≡ true
task_covered virt low = ground (arith, index_lem 39 virt)

-- Three tables are added below the root.
ok : succeeds vm root 0x40201000 0x5000 7 ≡ true
unfolding vmm_map_for_pml4 read64 sonna_os.Pmm.alloc_zeroed test_frame sonna_os.Memory.Word.write64
    index sonna_os.Memory.memset sonna_os.Pmm.set_frames sonna_os.Pmm.set_frame
ok = refl

vmm_map_for_pml4-IsVm_example : IsVm (mapped_vm vm root 0x40201000 0x5000 7) root
vmm_map_for_pml4-IsVm_example =
    vmm_map_for_pml4-IsVm vm root 0x40201000 0x5000 7 vm-IsVm
      (task_covered 0x40201000 (omega arith))

vmm_map_for_pml4-mapped_example :
    (lookup_in vm root (page_path 0x40201000) ≡ none)
    × (lookup_in (mapped_vm vm root 0x40201000 0x5000 7) root (page_path 0x40201000)
        ≡ some (user_page_word 0x5000 7))
vmm_map_for_pml4-mapped_example =
    vmm_map_for_pml4-mapped vm root 0x40201000 0x5000 7 vm-IsVm
      (task_covered 0x40201000 (omega arith)) ok

zeros-IsPath : IsPath root (1 ∷ 1 ∷ 0 ∷ [])
zeros-IsPath = record {
  covered = refl;
  indices = (omega arith, (omega arith, (omega arith, tt)));
  short = omega arith;
}

abbrev head_or : List ℕ → ℕ
head_or [] = 0
head_or (x ∷ xs) = x

-- The next page.
vmm_map_for_pml4-others_example :
    lookup_in (mapped_vm vm root 0x40201000 0x5000 7) root (2 ∷ 1 ∷ 1 ∷ 0 ∷ [])
    ≡ lookup_in vm root (2 ∷ 1 ∷ 1 ∷ 0 ∷ [])
vmm_map_for_pml4-others_example =
    vmm_map_for_pml4-others vm root 0x40201000 0x5000 7 2 (1 ∷ 1 ∷ 0 ∷ []) vm-IsVm
      (task_covered 0x40201000 (omega arith)) (omega arith) zeros-IsPath refl (inr other_page)
  where
    other_page : 2 ∷ 1 ∷ 1 ∷ 0 ∷ [] ≢ page_path 0x40201000
    other_page e = absurd (omega (arith, ap head_or e, index_lem 12 0x40201000))

-- The page that was mapped, in the kernel's tree.
abbrev vm1 : Vm
vm1 = mapped_vm vm root 0x40201000 0x5000 7

vm1-IsVm : IsVm vm1 (kernel_root vm1 root.covers)
unfolding vmm_map_for_pml4 phys_to_virt read64 sonna_os.Pmm.alloc_zeroed test_frame
    sonna_os.Memory.Word.write64 index sonna_os.Memory.memset sonna_os.Pmm.set_frames
    sonna_os.Pmm.set_frame
vm1-IsVm =
    vmm_map_for_pml4-IsVm vm root 0x40201000 0x5000 7 vm-IsVm
      (task_covered 0x40201000 (omega arith))

directory_at : table_in vm1 (whole vm1) (path_pd 0x40201000) ≡ some 0x103000
unfolding vmm_map_for_pml4 phys_to_virt read64 sonna_os.Pmm.alloc_zeroed test_frame
    sonna_os.Memory.Word.write64 index sonna_os.Memory.memset sonna_os.Pmm.set_frames
    sonna_os.Pmm.set_frame
directory_at = refl

small_page : is_huge (read64 vm1.mem (slot 0x103000 (pd_index 0x40201000))) ≡ false
unfolding vmm_map_for_pml4 is_huge phys_to_virt read64 sonna_os.Pmm.alloc_zeroed test_frame
    sonna_os.Memory.Word.write64 index sonna_os.Memory.memset sonna_os.Pmm.set_frames
    sonna_os.Pmm.set_frame
small_page = refl

plain :
    (p : ℕ)
    → table_in vm1 (whole vm1) (path_pd 0x40201000) ≡ some p
    → is_huge (read64 vm1.mem (slot p (pd_index 0x40201000))) ≡ false
plain p e =
    subst (λ q. is_huge (read64 vm1.mem (slot q (pd_index 0x40201000))) ≡ false)
      (eq_of_some (sym directory_at ∙ e)) small_page

entry_at : lookup_in vm1 (whole vm1) (page_path 0x40201000) ≡ some 0x5007
unfolding vmm_map_for_pml4 phys_to_virt read64 sonna_os.Pmm.alloc_zeroed test_frame
    sonna_os.Memory.Word.write64 index sonna_os.Memory.memset sonna_os.Pmm.set_frames
    sonna_os.Pmm.set_frame
entry_at = refl

words : (e : ℕ) → lookup_in vm1 (whole vm1) (page_path 0x40201000) ≡ some e → IsPlain e
words e there = subst IsPlain (eq_of_some (sym entry_at ∙ there)) (omega arith, refl)

vmm_get_physical-lookup_example :
    vmm_get_physical vm1 0x40201000
    ≡ translated 0x40201000 (lookup_in vm1 (whole vm1) (page_path 0x40201000))
vmm_get_physical-lookup_example = vmm_get_physical-lookup vm1 0x40201000 plain words

vmm_unmap-Unmapped_example :
    Unmapped vm1
      (kernel_root vm1 root.covers)
      (page_path 0x40201000)
      (vmm_unmap vm1 0x40201000).0
      (vmm_unmap vm1 0x40201000).1
vmm_unmap-Unmapped_example =
    vmm_unmap-Unmapped vm1 root.covers 0x40201000 vm1-IsVm (task_covered 0x40201000 (omega arith))
      refl plain
