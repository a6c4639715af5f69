-- ===== src/Vmm/Leaf.antt =====
-- A store to an entry of the last level: what it does to the tree and to the translations.
use sonna_os.Prelude.{
  ℕ, ◌<◌, ◌≡◌, ◌≢◌, ◌⊎◌, refl, sym, ◌∙◌, ap, ap₂, inl, inr, Bool-cases, some, List, ◌∷◌, length,
  ◌==◌, ==→eq, ==→ne,
}
use sonna_os.Memory.Word.{read64, read64-write64_ne}
use sonna_os.Vmm.{Vm, slot, set_word}
use sonna_os.Vmm.Table.{Root, final, final-frame, IsPath}
use sonna_os.Vmm.Space.{IsSpace-frame, table_at-leaf, paths-Disjoint}
use sonna_os.Vmm.Extends.{IsVm, table_in, lookup_in}

-- The entry `i` of the table that `leaf` leads to becomes `word`.
module _ (vm : Vm) (root : Root) (is : IsVm vm root) (i : ℕ) (leaf : List ℕ) (p word : ℕ)
    (il : IsPath root leaf) (deep : length leaf ≡ 3) (li : i < 512)
    (at : table_in vm root leaf ≡ some p) where
  abbrev pub after : Vm
  after = set_word vm (slot p i) word

  pub same_tables : (a : List ℕ) → IsPath root a → table_in after root a ≡ table_in vm root a
  same_tables a ia = table_at-leaf vm.pmm vm.mem root is.space leaf p i word a il deep li at ia

  same_entry :
      (a : List ℕ) (q j : ℕ)
      → IsPath root a
      → j < 512
      → table_in vm root a ≡ some q
      → (leaf ≢ a) ⊎ (i ≢ j)
      → read64 after.mem (slot q j) ≡ read64 vm.mem (slot q j)
  same_entry a q j ia lj e differ =
      read64-write64_ne vm.mem (slot p i) word (slot q j)
        (paths-Disjoint vm.pmm vm.mem root is.space leaf a p q i j il ia li lj at e differ)

  pub set_word-IsVm : IsVm after root
  set_word-IsVm = record {
    valid = is.valid;
    room = is.room;
    space =
        IsSpace-frame vm.pmm vm.pmm vm.mem after.mem root
          (record { hhdm = refl; frames = refl; marks = λ f u. u }) same_tables is.space;
  }

  apart : (j : ℕ) (a : List ℕ) → j ∷ a ≢ i ∷ leaf → (leaf ≢ a) ⊎ (i ≢ j)
  apart j a ne = elim (Bool-cases (i == j)) [
    | inl same ↦ inl λ c. ne (ap₂ (λ x xs. x ∷ xs) (sym (==→eq i j same)) (sym c))
    | inr other ↦ inr (==→ne i j other)
  ]

  -- Every other translation stays.
  pub set_word-others :
      (j : ℕ) (a : List ℕ)
      → j < 512
      → IsPath root a
      → j ∷ a ≢ i ∷ leaf
      → lookup_in after root (j ∷ a) ≡ lookup_in vm root (j ∷ a)
  set_word-others j a lj ia ne =
      ap (final after.mem j) (same_tables a ia)
      ∙ final-frame vm.mem after.mem j (table_in vm root a)
          (λ q e. same_entry a q j ia lj e (apart j a ne))
