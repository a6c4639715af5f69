-- ===== src/Vmm/Range.antt =====
-- `vmm_map_range_for_pml4`: pages one after the other.
use sonna_os.Prelude.{
  ℕ, zero, suc, ◌+◌, ◌*◌, ◌/◌, ◌^◌, ◌<◌, ◌≤◌, ◌≡◌, ◌≢◌, refl, sym, subst, ◌∙◌, ap, inl, inr, Bool,
  Bool-cases, true, false, some, List, [], ◌∷◌, length, get_or, ◌==◌, ==→eq, add64, mul64, arith,
}
use sonna_os.Pmm.{page_size}
use sonna_os.Vmm.{Vm, index, pml4_index, pdp_index, pd_index, pt_index}
use sonna_os.Vmm.Ops.{
  then_do, refused, user_page_word, vmm_map_for_pml4, map_loop_for_pml4, vmm_map_range_for_pml4,
}
use sonna_os.Vmm.Entry.{index_lem, index-lt}
use sonna_os.Vmm.Table.{Root, IsPath}
use sonna_os.Vmm.Extends.{IsVm, lookup_in}
use sonna_os.Vmm.Advance.{Advances, Advances-refl, Advances-trans, Filled-Advances}
use sonna_os.Vmm.Map.{Filled, page_path, vmm_map_for_pml4-Filled}

-- The indices above the last one.
abbrev pub leaf : (virt : ℕ) → List ℕ
leaf virt = pd_index virt ∷ pdp_index virt ∷ pml4_index virt ∷ []

pub leaf-IsPath :
    (root : Root) (virt : ℕ) → root.covers (pml4_index virt) ≡ true → IsPath root (leaf virt)
leaf-IsPath root virt covered = record {
  covered = covered;
  indices = (index-lt 21 virt, (index-lt 30 virt, (index-lt 39 virt, tt)));
  short = omega arith;
}

-- Addresses of 48 bits with the same indices lie in the same page.
page_path-injective :
    (a b : ℕ) → a < 2 ^ 48 → b < 2 ^ 48 → page_path a ≡ page_path b → a / 4096 ≡ b / 4096
page_path-injective a b la lb e =
    let e1 : index 12 a ≡ index 12 b = ap (λ (l : List ℕ). get_or l 0 0) e in
    let e2 : index 21 a ≡ index 21 b = ap (λ (l : List ℕ). get_or l 1 0) e in
    let e3 : index 30 a ≡ index 30 b = ap (λ (l : List ℕ). get_or l 2 0) e in
    let e4 : index 39 a ≡ index 39 b = ap (λ (l : List ℕ). get_or l 3 0) e in
    let d1 = sym (index_lem 12 a) ∙ e1 ∙ index_lem 12 b in
    let d2 = sym (index_lem 21 a) ∙ e2 ∙ index_lem 21 b in
    let d3 = sym (index_lem 30 a) ∙ e3 ∙ index_lem 30 b in
    let d4 = sym (index_lem 39 a) ∙ e4 ∙ index_lem 39 b in omega (arith, d1, d2, d3, d4)

-- The pages of a range, by their number.
abbrev pub page_at : (base k : ℕ) → ℕ
page_at base k = add64 base (mul64 k page_size)

-- The pages `i` to `i + left` stand below entries of the root that count.
abbrev pub IsRangeCovered : Root → (virt i left : ℕ) → Type 0
IsRangeCovered root virt i left =
    (k : ℕ) → i ≤ k → k < i + left → root.covers (pml4_index (page_at virt k)) ≡ true

pages_differ :
    (virt k l : ℕ)
    → virt + k * 4096 < 2 ^ 48
    → virt + l * 4096 < 2 ^ 48
    → k ≢ l
    → page_path (page_at virt k) ≢ page_path (page_at virt l)
pages_differ virt k l lk ll ne e =
    let same =
      page_path-injective (page_at virt k) (page_at virt l) (omega arith) (omega arith) e in
    ne (omega arith)

-- What mapping the pages `i` to `i + left` does.
pub record Mapped (vm : Vm) (root : Root) (virt phys i left flags : ℕ) (ok : Bool) (vm' : Vm)
    : Type 0 where
  pub advances : Advances vm root vm'
  pub mapped :
      (k : ℕ)
      → ok ≡ true
      → i ≤ k
      → k < i + left
      → lookup_in vm' root (page_path (page_at virt k))
        ≡ some (user_page_word (page_at phys k) flags)
  pub others :
      (j : ℕ) (a : List ℕ)
      → j < 512
      → IsPath root a
      → length a ≡ 3
      → ((k : ℕ) → i ≤ k → k < i + left → j ∷ a ≢ page_path (page_at virt k))
      → lookup_in vm' root (j ∷ a) ≡ lookup_in vm root (j ∷ a)

map_loop-Mapped :
    (left : ℕ) (vm : Vm) (root : Root) (virt phys i flags : ℕ)
    → IsVm vm root
    → virt + (i + left) * 4096 ≤ 2 ^ 48
    → IsRangeCovered root virt i left
    → Mapped vm root virt phys i left flags
        (map_loop_for_pml4 left vm root.address virt phys i flags).0
        (map_loop_for_pml4 left vm root.address virt phys i flags).1
unfolding map_loop_for_pml4
map_loop-Mapped zero vm root virt phys i flags is room covered = record {
  advances = Advances-refl vm root is;
  mapped = λ k ok low high. absurd (omega arith);
  others = λ j a lj ia deep other. refl;
}
map_loop-Mapped (suc left) vm root virt phys i flags is room covered =
    go (covered i (omega arith) (omega arith))
      (vmm_map_for_pml4 vm root.address (page_at virt i) (page_at phys i) flags)
      (vmm_map_for_pml4-Filled vm root (page_at virt i) (page_at phys i) flags is
        (covered i (omega arith) (omega arith)))
      (λ vm1 is1.
        map_loop-Mapped left vm1 root virt phys (i + 1) flags is1 (omega arith)
          (λ k low high. covered k (omega arith) (omega arith)))
  where
    go :
        root.covers (pml4_index (page_at virt i)) ≡ true
        → (r : Bool × Vm)
        → Filled vm root
            (page_path (page_at virt i))
            (user_page_word (page_at phys i) flags)
            r.0
            r.1
        → ((vm1 : Vm)
            → IsVm vm1 root
            → Mapped vm1 root virt phys
                (i + 1)
                left
                flags
                (map_loop_for_pml4 left vm1 root.address virt phys (i + 1) flags).0
                (map_loop_for_pml4 left vm1 root.address virt phys (i + 1) flags).1)
        → Mapped vm root virt phys i
            (suc left)
            flags
            (then_do refused r
              λ next. map_loop_for_pml4 left next root.address virt phys (i + 1) flags).0
            (then_do refused r
              λ next. map_loop_for_pml4 left next root.address virt phys (i + 1) flags).1
    go here_covered (false, vm1) filled next = record {
      advances =
          Filled-Advances vm vm1 root (page_path (page_at virt i))
            (user_page_word (page_at phys i) flags) false filled;
      mapped = λ k ok low high. absurd (ground arith);
      others = λ j a lj ia deep other. filled.others j a lj ia deep (inl refl);
    }
    go here_covered (true, vm1) filled next =
        let later = next vm1 filled.is_vm in
        let here = page_at virt i in
        let kept =
          later.others (pt_index here) (leaf here) (index-lt 12 here)
            (leaf-IsPath root here here_covered) refl
            (λ k low high.
              pages_differ virt i k (omega arith) (omega arith) (λ e. absurd (omega arith))) in
        record {
          advances =
              Advances-trans vm vm1
                (map_loop_for_pml4 left vm1 root.address virt phys (i + 1) flags).1 root
                (Filled-Advances vm vm1 root (page_path here)
                  (user_page_word (page_at phys i) flags) true filled)
                later.advances;
          mapped = λ k ok low high. elim (Bool-cases (k == i)) [
            | inl same ↦
                subst
                  (λ k.
                    lookup_in (map_loop_for_pml4 left vm1 root.address virt phys (i + 1) flags).1
                      root (page_path (page_at virt k))
                    ≡ some (user_page_word (page_at phys k) flags))
                  (sym (==→eq k i same)) (kept ∙ filled.mapped refl)
            | inr other ↦ later.mapped k ok (ground arith) (omega arith)
          ];
          others = λ j a lj ia deep other.
              later.others j a lj ia deep (λ k low high. other k (omega arith) (omega arith))
              ∙ filled.others j a lj ia deep (inr (other i (omega arith) (omega arith)));
        }

-- The outcome and the state of a range.
abbrev pub range_ok : Vm → (root : Root) (virt phys count flags : ℕ) → Bool
range_ok vm root virt phys count flags =
    (vmm_map_range_for_pml4 vm root.address virt phys count flags).0

abbrev pub ranged_vm : Vm → (root : Root) (virt phys count flags : ℕ) → Vm
ranged_vm vm root virt phys count flags =
    (vmm_map_range_for_pml4 vm root.address virt phys count flags).1

pub range-Mapped :
    (vm : Vm) (root : Root) (virt phys count flags : ℕ)
    → IsVm vm root
    → virt + count * 4096 ≤ 2 ^ 48
    → IsRangeCovered root virt 0 count
    → Mapped vm root virt phys 0 count flags
        (range_ok vm root virt phys count flags)
        (ranged_vm vm root virt phys count flags)
unfolding vmm_map_range_for_pml4
range-Mapped vm root virt phys count flags is room covered =
    map_loop-Mapped count vm root virt phys 0 flags is (omega arith) covered

pub vmm_map_range_for_pml4-IsVm :
    (vm : Vm) (root : Root) (virt phys count flags : ℕ)
    → IsVm vm root
    → virt + count * 4096 ≤ 2 ^ 48
    → IsRangeCovered root virt 0 count
    → IsVm (ranged_vm vm root virt phys count flags) root
vmm_map_range_for_pml4-IsVm vm root virt phys count flags is room covered =
    (range-Mapped vm root virt phys count flags is room covered).advances.is_vm

-- When vmm_map_range_for_pml4 succeeds for pages below 2^48, and below entries of the root that
-- the tree counts, each of them leads afterwards to its own frame with the flags, in order, and
-- the page tables are well formed as before.
pub vmm_map_range_for_pml4-mapped :
    (vm : Vm) (root : Root) (virt phys count flags k : ℕ)
    → IsVm vm root
    → virt + count * 4096 ≤ 2 ^ 48
    → IsRangeCovered root virt 0 count
    → k < count
    → range_ok vm root virt phys count flags ≡ true
    → IsVm (ranged_vm vm root virt phys count flags) root
      × (lookup_in (ranged_vm vm root virt phys count flags) root (page_path (page_at virt k))
          ≡ some (user_page_word (page_at phys k) flags))
vmm_map_range_for_pml4-mapped vm root virt phys count flags k is room covered lt ok =
    let m = range-Mapped vm root virt phys count flags is room covered in
    (m.advances.is_vm, m.mapped k ok (omega arith) (omega arith))
