-- ===== src/Vmm/Empty.antt =====
-- A tree of page tables that is a root only.
use sonna_os.Prelude.{
  ℕ, ◌<◌, ◌≡◌, refl, sym, ◌∙◌, ap, true, false, none, some, eq_of_some, List, [], ◌∷◌,
}
use sonna_os.Memory.{Mem}
use sonna_os.Memory.Word.{read64}
use sonna_os.Pmm.{Pmm}
use sonna_os.Vmm.{is_present, slot}
use sonna_os.Vmm.Table.{Root, step, table_at, IsPath, IsPath-rest, IsPlaced, IsSpace, none-ne-some}

module _ (s : Pmm) (m : Mem) (root : Root)
    (empty : (i : ℕ)
      → i < 512
      → root.covers i ≡ true
      → is_present (read64 m (slot root.address i)) ≡ false) where
  pub nothing_below :
      (i : ℕ) (path : List ℕ)
      → IsPath root (i ∷ path)
      → table_at m s.hhdm_offset root (i ∷ path) ≡ none
  nothing_below i [] is = rw (empty i ((is.indices).0) is.covered) refl
  nothing_below i (j ∷ path) is =
      ap (step m s.hhdm_offset i) (nothing_below j path (IsPath-rest i (j ∷ path) is))

  only_root :
      (path : List ℕ) (p : ℕ)
      → IsPath root path
      → table_at m s.hhdm_offset root path ≡ some p
      → (path ≡ []) × (p ≡ root.address)
  only_root [] p is e = (refl, sym (eq_of_some e))
  only_root (i ∷ path) p is e = absurd (none-ne-some (sym (nothing_below i path is) ∙ e))

  pub root-IsSpace : IsPlaced s root.address → IsSpace s m root
  root-IsSpace placed = record {
    placed = λ path p is e. rw ((only_root path p is e).1) placed;
    apart = λ a b p ia ib ea eb. (only_root a p ia ea).0 ∙ sym ((only_root b p ib eb).0);
  }

  -- The root is the only table.
  pub root-is_table :
      (path : List ℕ) (p : ℕ)
      → IsPath root path
      → table_at m s.hhdm_offset root path ≡ some p
      → p ≡ root.address
  root-is_table path p is e = (only_root path p is e).1
