-- ===== src/Vmm/Map.antt =====
-- `vmm_map_for_pml4`: what mapping a page does to the translations of a tree of page tables.
use sonna_os.Prelude.{
  ℕ, ◌^◌, ◌<◌, ◌≡◌, ◌≢◌, ◌⊎◌, refl, sym, ap, ◌∙◌, inl, inr, Bool, Bool-cases, true, false, ◌||◌,
  none, some, List, [], ◌∷◌, length, if◌then◌else◌, arith,
}
use sonna_os.Memory.Word.{read64, read64-write64}
use sonna_os.Vmm.{
  Vm, is_present, misaligned, slot, below, make_table, set_word, pml4_index, pdp_index, pd_index,
  pt_index,
}
use sonna_os.Vmm.Ops.{
  then_do, refused, fill_slot, enter_level, user_word, user_page_word, vmm_map_for_pml4,
}
use sonna_os.Vmm.Entry.{index-lt, user_word-IsTableWord, user_page_word-present}
use sonna_os.Vmm.Table.{Root, IsPath}
use sonna_os.Vmm.Space.{paths-Disjoint}
use sonna_os.Vmm.Extends.{IsVm, table_in, lookup_in, Extends, Extends-refl, IsWord}
use sonna_os.Vmm.Keep.{
  KeepsApart, KeepsApart-refl, KeepsApart-trans, set_word-KeepsApart, Made, IsPath-root,
}
use sonna_os.Vmm.Make.{make_table-Made}
use sonna_os.Vmm.Leaf.{same_tables, set_word-IsVm, set_word-others}

-- From `vm` to `vm'` at most the page of the four indices `path` was mapped: if `ok`, it was
-- free and has the entry `word` now; all else has the translation it had.
pub record Filled (vm : Vm) (root : Root) (path : List ℕ) (word : ℕ) (ok : Bool) (vm' : Vm)
    : Type 0 where
  pub is_vm : IsVm vm' root
  pub kernel : vm'.kernel_pml4_phys ≡ vm.kernel_pml4_phys
  pub hhdm : vm'.pmm.hhdm_offset ≡ vm.pmm.hhdm_offset
  pub was_free : ok ≡ true → lookup_in vm root path ≡ none
  pub mapped : ok ≡ true → lookup_in vm' root path ≡ some word
  pub others :
      (j : ℕ) (a : List ℕ)
      → j < 512
      → IsPath root a
      → length a ≡ 3
      → (ok ≡ false) ⊎ (j ∷ a ≢ path)
      → lookup_in vm' root (j ∷ a) ≡ lookup_in vm root (j ∷ a)
  pub keeps : KeepsApart vm root vm'

-- The leaf that is filled.
set-Filled :
    (vm : Vm) (root : Root) (is : IsVm vm root) (i : ℕ) (leaf : List ℕ) (p word : ℕ)
    (il : IsPath root leaf) (deep : length leaf ≡ 3) (li : i < 512)
    (at : table_in vm root leaf ≡ some p)
    → is_present word ≡ true
    → word < 2 ^ 64
    → is_present (read64 vm.mem (slot p i)) ≡ false
    → Filled vm root (i ∷ leaf) word true (set_word vm (slot p i) word)
set-Filled vm root is i leaf p word il deep li at present small absent = record {
  is_vm = set_word-IsVm vm root is i leaf p word il deep li at;
  kernel = refl;
  hhdm = refl;
  was_free = λ ok. rw (at, absent) refl;
  mapped = λ ok.
      rw
        (
          same_tables vm root is i leaf p word il deep li at leaf il,
          at,
          read64-write64 vm.mem (slot p i) word small,
          present,
        )
        refl;
  others = λ j a lj ia da differ. elim differ [
    | inl never ↦ absurd (ground arith)
    | inr ne ↦ set_word-others vm root is i leaf p word il deep li at j a lj ia ne
  ];
  keeps =
      set_word-KeepsApart vm root leaf p i word (is.space.placed leaf p il at) il li at
        (same_tables vm root is i leaf p word il deep li at)
        (λ j lj off.
          paths-Disjoint vm.pmm vm.mem root is.space leaf [] p root.address i j il
            (IsPath-root root) li lj at refl (inl λ e. absurd (omega (arith, deep, ap length e))));
}

refused-Filled :
    (vm vm' : Vm) (root : Root) (path : List ℕ) (word : ℕ)
    → Extends vm root vm'
    → KeepsApart vm root vm'
    → Filled vm root path word false vm'
refused-Filled vm vm' root path word ext keeps = record {
  keeps = keeps;
  is_vm = ext.is_vm;
  kernel = ext.kernel;
  hhdm = ext.hhdm;
  was_free = λ ok. absurd (cc);
  mapped = λ ok. absurd (cc);
  others = λ j a lj ia deep differ. ext.lookups j a lj ia deep;
}

fill_slot-Filled :
    (vm : Vm) (root : Root) (i : ℕ) (leaf : List ℕ) (p word : ℕ)
    → IsVm vm root
    → IsPath root leaf
    → length leaf ≡ 3
    → i < 512
    → table_in vm root leaf ≡ some p
    → is_present word ≡ true
    → word < 2 ^ 64
    → Filled vm root
        (i ∷ leaf)
        word
        (fill_slot vm (slot p i) word).0
        (fill_slot vm (slot p i) word).1
unfolding fill_slot
fill_slot-Filled vm root i leaf p word is il deep li at present small =
    elim (Bool-cases (is_present (read64 vm.mem (slot p i)))) [
      | inl there ↦ rw there (
          refused-Filled vm vm root (i ∷ leaf) word (Extends-refl vm root is)
            (KeepsApart-refl vm root))
      | inr absent ↦
          rw absent (set-Filled vm root is i leaf p word il deep li at present small absent)
    ]

-- What is done after tables were added.
Filled-after :
    (vm vm1 vm2 : Vm) (root : Root) (i : ℕ) (leaf : List ℕ) (word : ℕ) (ok : Bool)
    → Extends vm root vm1
    → KeepsApart vm root vm1
    → IsPath root leaf
    → length leaf ≡ 3
    → i < 512
    → Filled vm1 root (i ∷ leaf) word ok vm2
    → Filled vm root (i ∷ leaf) word ok vm2
Filled-after vm vm1 vm2 root i leaf word ok ext keeps il deep li filled = record {
  keeps = KeepsApart-trans vm vm1 vm2 root ext.hhdm keeps filled.keeps;
  is_vm = filled.is_vm;
  kernel = filled.kernel ∙ ext.kernel;
  hhdm = filled.hhdm ∙ ext.hhdm;
  was_free = λ e. sym (ext.lookups i leaf li il deep) ∙ filled.was_free e;
  mapped = filled.mapped;
  others = λ j a lj ia da differ. filled.others j a lj ia da differ ∙ ext.lookups j a lj ia da;
}

user_word-IsWord : IsWord user_word
user_word-IsWord f lt = user_word-IsTableWord f lt

enter_level-Filled :
    (vm : Vm) (root : Root) (p i : ℕ) (path : List ℕ) (next : Vm → ℕ → Bool × Vm) (j : ℕ)
    (leaf : List ℕ) (word : ℕ)
    → IsVm vm root
    → IsPath root (i ∷ path)
    → table_in vm root path ≡ some p
    → IsPath root leaf
    → length leaf ≡ 3
    → j < 512
    → ((vm1 : Vm) (q : ℕ)
        → IsVm vm1 root
        → table_in vm1 root (i ∷ path) ≡ some q
        → Filled vm1 root (j ∷ leaf) word (next vm1 q).0 (next vm1 q).1)
    → Filled vm root (j ∷ leaf) word (enter_level vm p i next).0 (enter_level vm p i next).1
unfolding enter_level
enter_level-Filled vm root p i path next j leaf word is ip at il deep lj rest =
    go (make_table user_word vm (slot p i))
      (make_table-Made vm root p i path user_word is user_word-IsWord ip at)
  where
    go :
        (r : Bool × Vm)
        → Made vm root p i path r.0 r.1
        → Filled vm root
            (j ∷ leaf)
            word
            (then_do refused r λ vm1. next vm1 (below vm1 (read64 vm1.mem (slot p i)))).0
            (then_do refused r λ vm1. next vm1 (below vm1 (read64 vm1.mem (slot p i)))).1
    go (false, vm1) made = refused-Filled vm vm1 root (j ∷ leaf) word made.extends made.keeps
    go (true, vm1) made =
        let there = below vm1 (read64 vm1.mem (slot p i)) in
        Filled-after vm vm1 (next vm1 there).1 root j leaf word (next vm1 there).0 made.extends
          made.keeps il deep lj (rest vm1 there made.extends.is_vm (made.made refl))

-- The indices of an address, the last level's first.
abbrev pub page_path : (virt : ℕ) → List ℕ
page_path virt = pt_index virt ∷ pd_index virt ∷ pdp_index virt ∷ pml4_index virt ∷ []

-- The four levels.
abbrev attempt : Vm → (root : Root) (virt word : ℕ) → Bool × Vm
attempt vm root virt word = enter_level vm root.address (pml4_index virt) λ vm1 pdpt.
    enter_level vm1 pdpt (pdp_index virt) λ vm2 pd.
      enter_level vm2 pd (pd_index virt) λ vm3 pt. fill_slot vm3 (slot pt (pt_index virt)) word

vmm_map_for_pml4_lem :
    (vm : Vm) (root : Root) (virt phys flags : ℕ)
    → vmm_map_for_pml4 vm root.address virt phys flags ≡ (
        if misaligned 0xFFF virt || misaligned 0xFFF phys
        then refused vm
        else attempt vm root virt (user_page_word phys flags))
unfolding vmm_map_for_pml4
vmm_map_for_pml4_lem vm root virt phys flags = refl

attempt-Filled :
    (vm : Vm) (root : Root) (virt word : ℕ)
    → IsVm vm root
    → root.covers (pml4_index virt) ≡ true
    → is_present word ≡ true
    → word < 2 ^ 64
    → Filled vm root
        (page_path virt)
        word
        (attempt vm root virt word).0
        (attempt vm root virt word).1
attempt-Filled vm root virt word is covered present small =
    let l1 = index-lt 39 virt in
    let l2 = index-lt 30 virt in
    let l3 = index-lt 21 virt in
    let l4 = index-lt 12 virt in
    let p1 : IsPath root (pml4_index virt ∷ []) = record {
      covered = covered;
      indices = (l1, tt);
      short = omega arith;
    } in
    let p2 : IsPath root (pdp_index virt ∷ pml4_index virt ∷ []) = record {
      covered = covered;
      indices = (l2, (l1, tt));
      short = omega arith;
    } in
    let p3 : IsPath root (pd_index virt ∷ pdp_index virt ∷ pml4_index virt ∷ []) = record {
      covered = covered;
      indices = (l3, (l2, (l1, tt)));
      short = omega arith;
    } in
    let leaf = pd_index virt ∷ pdp_index virt ∷ pml4_index virt ∷ [] in
    enter_level-Filled vm root root.address (pml4_index virt) []
      (λ vm1 pdpt. enter_level vm1 pdpt (pdp_index virt) λ vm2 pd.
        enter_level vm2 pd (pd_index virt) λ vm3 pt. fill_slot vm3 (slot pt (pt_index virt)) word)
      (pt_index virt) leaf word is p1 refl p3 refl l4
      λ vm1 pdpt is1 at1.
        enter_level-Filled vm1 root pdpt (pdp_index virt) (pml4_index virt ∷ [])
          (λ vm2 pd.
            enter_level vm2 pd (pd_index virt)
              λ vm3 pt. fill_slot vm3 (slot pt (pt_index virt)) word)
          (pt_index virt) leaf word is1 p2 at1 p3 refl l4
          λ vm2 pd is2 at2.
            enter_level-Filled vm2 root pd (pd_index virt) (pdp_index virt ∷ pml4_index virt ∷ [])
              (λ vm3 pt. fill_slot vm3 (slot pt (pt_index virt)) word) (pt_index virt) leaf word is2
              p3 at2 p3 refl l4
              λ vm3 pt is3 at3.
                fill_slot-Filled vm3 root (pt_index virt) leaf pt word is3 p3 refl l4 at3 present
                  small

pub vmm_map_for_pml4-Filled :
    (vm : Vm) (root : Root) (virt phys flags : ℕ)
    → IsVm vm root
    → root.covers (pml4_index virt) ≡ true
    → Filled vm root
        (page_path virt)
        (user_page_word phys flags)
        (vmm_map_for_pml4 vm root.address virt phys flags).0
        (vmm_map_for_pml4 vm root.address virt phys flags).1
vmm_map_for_pml4-Filled vm root virt phys flags is covered =
    let (present, small) = user_page_word-present phys flags in
    let none_added =
      refused-Filled vm vm root (page_path virt) (user_page_word phys flags)
        (Extends-refl vm root is) (KeepsApart-refl vm root) in
    let added = attempt-Filled vm root virt (user_page_word phys flags) is covered present small in
    rw (vmm_map_for_pml4_lem vm root virt phys flags)
      (elim (Bool-cases (misaligned 0xFFF virt || misaligned 0xFFF phys)) [
        | inl skew ↦ rw skew none_added
        | inr straight ↦ rw straight added
      ])

abbrev pub succeeds : Vm → (root : Root) (virt phys flags : ℕ) → Bool
succeeds vm root virt phys flags = (vmm_map_for_pml4 vm root.address virt phys flags).0

abbrev pub mapped_vm : Vm → (root : Root) (virt phys flags : ℕ) → Vm
mapped_vm vm root virt phys flags = (vmm_map_for_pml4 vm root.address virt phys flags).1

-- Vmm_map_for_pml4 keeps, on every branch, the invariant that the allocator is sound and that
-- each table of the tree is a used frame that is reached by one path only; the tree counts the
-- entries of its root that root.covers, the address's among them.
pub vmm_map_for_pml4-IsVm :
    (vm : Vm) (root : Root) (virt phys flags : ℕ)
    → IsVm vm root
    → root.covers (pml4_index virt) ≡ true
    → IsVm (mapped_vm vm root virt phys flags) root
vmm_map_for_pml4-IsVm vm root virt phys flags is covered =
    (vmm_map_for_pml4-Filled vm root virt phys flags is covered).is_vm

-- When the allocator is sound and the page tables form a tree of used frames, and
-- vmm_map_for_pml4 succeeds, the four indices of the address led to no present entry before and
-- lead to one afterwards that holds the physical address and the flags with the present bit
-- added and the no-execute bit taken away; the tree counts the entries of its root that
-- root.covers, the address's among them.
pub vmm_map_for_pml4-mapped :
    (vm : Vm) (root : Root) (virt phys flags : ℕ)
    → IsVm vm root
    → root.covers (pml4_index virt) ≡ true
    → succeeds vm root virt phys flags ≡ true
    → (lookup_in vm root (page_path virt) ≡ none)
      × (lookup_in (mapped_vm vm root virt phys flags) root (page_path virt)
          ≡ some (user_page_word phys flags))
vmm_map_for_pml4-mapped vm root virt phys flags is covered ok =
    let filled = vmm_map_for_pml4-Filled vm root virt phys flags is covered in
    (filled.was_free ok, filled.mapped ok)

-- Under the same invariant vmm_map_for_pml4 changes no other translation, whatever new tables it
-- enters, and when it fails it changes no translation at all; the tree counts the entries of its
-- root that root.covers, the address's among them.
pub vmm_map_for_pml4-others :
    (vm : Vm) (root : Root) (virt phys flags j : ℕ) (a : List ℕ)
    → IsVm vm root
    → root.covers (pml4_index virt) ≡ true
    → j < 512
    → IsPath root a
    → length a ≡ 3
    → (succeeds vm root virt phys flags ≡ false) ⊎ (j ∷ a ≢ page_path virt)
    → lookup_in (mapped_vm vm root virt phys flags) root (j ∷ a) ≡ lookup_in vm root (j ∷ a)
vmm_map_for_pml4-others vm root virt phys flags j a is covered lj ia deep differ =
    (vmm_map_for_pml4-Filled vm root virt phys flags is covered).others j a lj ia deep differ
