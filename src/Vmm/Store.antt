-- ===== src/Vmm/Store.antt =====
-- Stores to a frame in use that holds no table: the tree and its translations stay.
use sonna_os.Prelude.{
  ℕ, ◌+◌, ◌<◌, ◌≤◌, ◌≡◌, ◌≢◌, ◌⊎◌, refl, sym, ◌∙◌, ap, some, List, [], ◌∷◌, arith,
}
use sonna_os.Memory.{Mem}
use sonna_os.Memory.Word.{read64, read64-frame}
use sonna_os.Vmm.{Vm, slot}
use sonna_os.Vmm.Table.{Root, table_at-frame, final, final-frame, IsPath, IsPath-rest, page}
use sonna_os.Vmm.Space.{IsSpace-frame}
use sonna_os.Vmm.Extends.{IsVm, table_in, lookup_in}
use sonna_os.Vmm.Keep.{IsApart, IsPath-root}

module _ (vm : Vm) (root : Root) (f : ℕ) (m' : Mem) (is : IsVm vm root) (apart : IsApart vm root f)
    (same : (b : ℕ)
      → (b < page vm.pmm.hhdm_offset f) ⊎ (page vm.pmm.hhdm_offset f + 4096 ≤ b)
      → m' b ≡ vm.mem b) where
  abbrev stored : Vm
  stored = record vm { mem = m' }

  kept_entry :
      (path : List ℕ) (q j : ℕ)
      → IsPath root path
      → j < 512
      → table_in vm root path ≡ some q
      → read64 m' (slot q j) ≡ read64 vm.mem (slot q j)
  kept_entry path q j ip lj e =
      let placed = is.space.placed path q ip e in
      let other : placed.frame ≢ f =
        λ c. apart.no_table path q ip e (placed.address ∙ ap (page vm.pmm.hhdm_offset) c) in
      read64-frame vm.mem m' (slot q j)
        (λ b low high. same b (ground (arith, placed.address, other)))

  kept_table :
      (path : List ℕ) → IsPath root path → table_in stored root path ≡ table_in vm root path
  kept_table path ip =
      table_at-frame vm.mem m' vm.pmm.hhdm_offset root path
        (λ above q j ij e. kept_entry above q j (IsPath-rest j above ij) ((ij.indices).0) e) ip

  pub stored-IsVm : IsVm stored root
  stored-IsVm = record {
    valid = is.valid;
    room = is.room;
    space =
        IsSpace-frame vm.pmm vm.pmm vm.mem m' root
          (record { hhdm = refl; frames = refl; marks = λ g u. u }) kept_table is.space;
  }

  pub stored-lookup :
      (j : ℕ) (path : List ℕ)
      → j < 512
      → IsPath root path
      → lookup_in stored root (j ∷ path) ≡ lookup_in vm root (j ∷ path)
  stored-lookup j path lj ip =
      ap (final m' j) (kept_table path ip)
      ∙ final-frame vm.mem m' j (table_in vm root path) (λ q at. kept_entry path q j ip lj at)

  pub stored-IsApart : (g : ℕ) → IsApart vm root g → IsApart stored root g
  stored-IsApart g is_apart = record {
    used = is_apart.used;
    no_table = λ path p ip e. is_apart.no_table path p ip (sym (kept_table path ip) ∙ e);
  }

  pub stored-byte :
      (g b : ℕ)
      → g ≢ f
      → page vm.pmm.hhdm_offset g ≤ b
      → b < page vm.pmm.hhdm_offset g + 4096
      → m' b ≡ vm.mem b
  stored-byte g b ne low high = same b (ground arith)

  pub stored-entry :
      (j : ℕ) → j < 512 → read64 m' (slot root.address j) ≡ read64 vm.mem (slot root.address j)
  stored-entry j lj = kept_entry [] root.address j (IsPath-root root) lj refl
