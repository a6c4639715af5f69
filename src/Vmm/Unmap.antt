-- ===== src/Vmm/Unmap.antt =====
-- `vmm_unmap`: a page is taken out of the kernel's tree.
use sonna_os.Prelude.{
  ℕ, ◌%◌, ◌<◌, ◌≡◌, ◌≢◌, ◌⊎◌, refl, sym, subst, ◌∙◌, ap, inl, inr, Bool, Bool-cases, true, false,
  Option, none, some, List, ◌∷◌, length, if◌then◌else◌, arith,
}
use sonna_os.Prelude.Bits.{bit_and_low}
use sonna_os.Memory.Word.{read64, read64-write64}
use sonna_os.Vmm.{
  Vm, is_present, is_huge, misaligned, slot, pml4_index, pd_index, pt_index, get_pte,
}
use sonna_os.Vmm.Ops.{kernel_pml4, clear_slot, vmm_unmap}
use sonna_os.Vmm.Table.{Root, IsPath, none-ne-some}
use sonna_os.Vmm.Entry.{index-lt, is_present_lem}
use sonna_os.Vmm.Extends.{IsVm, table_in, lookup_in}
use sonna_os.Vmm.Map.{page_path}
use sonna_os.Vmm.Range.{leaf-IsPath}
use sonna_os.Vmm.Leaf.{same_tables, set_word-IsVm, set_word-others}
use sonna_os.Vmm.Query.{at_slot, path_pd, kernel_root, get_pte-table_in}

-- What unmapping the page of the four indices `path` leaves.
pub record Unmapped (vm : Vm) (root : Root) (path : List ℕ) (ok : Bool) (vm' : Vm) : Type 0 where
  pub is_vm : IsVm vm' root
  pub found : (ok ≡ false) ⊎ (lookup_in vm root path ≢ none)
  pub gone : lookup_in vm' root path ≡ none
  pub others :
      (j : ℕ) (a : List ℕ)
      → j < 512
      → IsPath root a
      → j ∷ a ≢ path
      → lookup_in vm' root (j ∷ a) ≡ lookup_in vm root (j ∷ a)

null_absent : is_present 0 ≡ false
null_absent = is_present_lem 0

entry_is :
    (vm : Vm) (root : Root) (i : ℕ) (leaf : List ℕ) (p : ℕ)
    → table_in vm root leaf ≡ some p
    → is_present (read64 vm.mem (slot p i)) ≡ true
    → lookup_in vm root (i ∷ leaf) ≡ some (read64 vm.mem (slot p i))
entry_is vm root i leaf p at there = rw (at, there) refl

clear_slot-Unmapped :
    (vm : Vm) (root : Root) (i : ℕ) (leaf : List ℕ) (o : Option ℕ)
    → IsVm vm root
    → IsPath root leaf
    → length leaf ≡ 3
    → i < 512
    → table_in vm root leaf ≡ o
    → Unmapped vm root (i ∷ leaf) (clear_slot vm (at_slot i o)).0 (clear_slot vm (at_slot i o)).1
clear_slot-Unmapped vm root i leaf none is il deep li at = record {
  is_vm = is;
  found = inl refl;
  gone = rw at refl;
  others = λ j a lj ia ne. refl;
}
clear_slot-Unmapped vm root i leaf (some p) is il deep li at =
    elim (Bool-cases (is_present (read64 vm.mem (slot p i)))) [
      | inl there ↦ rw there (record {
        is_vm = set_word-IsVm vm root is i leaf p 0 il deep li at;
        found = inr (λ e. none-ne-some (sym e ∙ entry_is vm root i leaf p at there));
        gone =
            rw
              (
                same_tables vm root is i leaf p 0 il deep li at leaf il,
                at,
                read64-write64 vm.mem (slot p i) 0 (omega arith),
                null_absent,
              )
              refl;
        others = λ j a lj ia ne. set_word-others vm root is i leaf p 0 il deep li at j a lj ia ne;
      })
      | inr missing ↦ rw missing (record {
        is_vm = is;
        found = inl refl;
        gone = rw (at, missing) refl;
        others = λ j a lj ia ne. refl;
      })
    ]

shut :
    (vm : Vm) (virt : ℕ)
    → vmm_unmap vm virt ≡ (
        if misaligned 0xFFF virt
        then (false, vm)
        else clear_slot vm (get_pte vm (kernel_pml4 vm) virt))
unfolding vmm_unmap
shut vm virt = refl

straight : (virt : ℕ) → virt % 4096 ≡ 0 → misaligned 0xFFF virt ≡ false
unfolding misaligned
straight virt e = rw (bit_and_low 12 virt, e) refl

-- On the kernel's well-formed page tables, for an aligned address that no huge page of 2 MiB
-- covers, vmm_unmap leaves the address without an entry and every other translation as it was,
-- keeps the page tables well formed, and returns true only if there was an entry; the tree
-- counts the entries of its root that it covers, the address's among them.
pub vmm_unmap-Unmapped :
    (vm : Vm) (covers : ℕ → Bool) (virt : ℕ)
    → IsVm vm (kernel_root vm covers)
    → covers (pml4_index virt) ≡ true
    → virt % 4096 ≡ 0
    → ((p : ℕ)
        → table_in vm (kernel_root vm covers) (path_pd virt) ≡ some p
        → is_huge (read64 vm.mem (slot p (pd_index virt))) ≡ false)
    → Unmapped vm
        (kernel_root vm covers)
        (page_path virt)
        (vmm_unmap vm virt).0
        (vmm_unmap vm virt).1
vmm_unmap-Unmapped vm covers virt is covered aligned plain =
    let root = kernel_root vm covers in
    let leaf = pd_index virt ∷ path_pd virt in
    let call : vmm_unmap vm virt ≡ clear_slot vm (at_slot (pt_index virt) (table_in vm root leaf)) =
      shut vm virt
      ∙ ap (λ b. if b then (false, vm) else clear_slot vm (get_pte vm root.address virt))
          (straight virt aligned)
      ∙ ap (clear_slot vm) (get_pte-table_in vm root virt plain) in
    subst (λ r. Unmapped vm root (page_path virt) r.0 r.1) (sym call)
      (clear_slot-Unmapped vm root (pt_index virt) leaf (table_in vm root leaf) is
        (leaf-IsPath root virt covered) refl (index-lt 12 virt) refl)
