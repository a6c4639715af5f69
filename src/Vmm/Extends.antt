-- ===== src/Vmm/Extends.antt =====
-- What page tables in use satisfy, and what may happen to them while a page is mapped.
use sonna_os.Prelude.{ℕ, ◌+◌, ◌*◌, ◌^◌, ◌<◌, ◌≡◌, refl, ◌∙◌, Option, some, List, ◌∷◌, length}
use sonna_os.Pmm.{page_size}
use sonna_os.Pmm.Valid.{IsValid}
use sonna_os.Vmm.{Vm}
use sonna_os.Vmm.Entry.{IsTableWord}
use sonna_os.Vmm.Table.{Root, table_at, lookup, IsPath, IsSpace}

-- The allocator is sound, its window on memory does not wrap, and the tables form a tree.
pub record IsVm (vm : Vm) (root : Root) : Type 0 where
  pub valid : IsValid vm.pmm
  pub room : vm.pmm.hhdm_offset + vm.pmm.bitmap_frames * page_size < 2 ^ 64
  pub space : IsSpace vm.pmm vm.mem root

abbrev pub table_in : Vm → (root : Root) → List ℕ → Option ℕ
table_in vm root path = table_at vm.mem vm.pmm.hhdm_offset root path

abbrev pub lookup_in : Vm → (root : Root) → List ℕ → Option ℕ
lookup_in vm root path = lookup vm.mem vm.pmm.hhdm_offset root path

-- From `vm` to `vm'` the tree may have grown, and no translation has changed.
pub record Extends (vm : Vm) (root : Root) (vm' : Vm) : Type 0 where
  pub is_vm : IsVm vm' root
  pub kernel : vm'.kernel_pml4_phys ≡ vm.kernel_pml4_phys
  pub hhdm : vm'.pmm.hhdm_offset ≡ vm.pmm.hhdm_offset
  pub stays :
      (a : List ℕ) (q : ℕ)
      → IsPath root a
      → table_in vm root a ≡ some q
      → table_in vm' root a ≡ some q
  pub lookups :
      (j : ℕ) (a : List ℕ)
      → j < 512
      → IsPath root a
      → length a ≡ 3
      → lookup_in vm' root (j ∷ a) ≡ lookup_in vm root (j ∷ a)

pub Extends-refl : (vm : Vm) (root : Root) → IsVm vm root → Extends vm root vm
Extends-refl vm root is = record {
  is_vm = is;
  kernel = refl;
  hhdm = refl;
  stays = λ a q ia e. e;
  lookups = λ j a lj ia deep. refl;
}

pub Extends-trans :
    (vm vm1 vm2 : Vm) (root : Root)
    → Extends vm root vm1
    → Extends vm1 root vm2
    → Extends vm root vm2
Extends-trans vm vm1 vm2 root one two = record {
  is_vm = two.is_vm;
  kernel = two.kernel ∙ one.kernel;
  hhdm = two.hhdm ∙ one.hhdm;
  stays = λ a q ia e. two.stays a q ia (one.stays a q ia e);
  lookups = λ j a lj ia deep. two.lookups j a lj ia deep ∙ one.lookups j a lj ia deep;
}

abbrev pub IsWord : (ℕ → ℕ) → Type 0
IsWord word = (f : ℕ) → f < 2 ^ 52 → IsTableWord f (word (f * 4096))
