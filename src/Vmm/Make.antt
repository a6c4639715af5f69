-- ===== src/Vmm/Make.antt =====
-- `create_table` and the levels of `vmm_map_for_pml4`: a table where there was none.
use sonna_os.Prelude.{
  ℕ, ◌≡◌, ◌≢◌, ◌⊎◌, eq_of_some, refl, sym, subst, ◌∙◌, ap, inl, inr, Bool-cases, true, false,
  Option, none, some, List, [], ◌∷◌, arith,
}
use sonna_os.Memory.{Mem}
use sonna_os.Memory.Word.{read64, read64-write64, read64-write64_ne}
use sonna_os.Pmm.{Pmm, test_frame, alloc_zeroed}
use sonna_os.Vmm.{Vm, is_present, slot, below, phys_to_virt, make_table, enter_table, set_word}
use sonna_os.Vmm.Entry.{IsTableWord}
use sonna_os.Vmm.Table.{Root, table_below, table_at, IsPath, IsPath-rest, page}
use sonna_os.Vmm.Space.{read64-clear, paths-Disjoint}
use sonna_os.Vmm.Grow.{IsSpace-grow, table_at-grow, table_at-stays, table_at-fresh, lookup-grow}
use sonna_os.Vmm.Extends.{IsVm, table_in, Extends, Extends-refl, Extends-trans, IsWord}
use sonna_os.Vmm.Keep.{
  KeepsApart, KeepsApart-refl, clear-KeepsApart, table_store_outside, Made, covered_differs,
  IsPath-root,
}
use sonna_os.Vmm.Fresh.{
  NewFrame, alloc_zeroed-NewFrame, alloc_zeroed-none, cleared_table, cleared-IsSpace,
  cleared-Extends, page-IsFresh,
}

-- The whole of `enter_table`, at a slot without a table.
module _ (vm : Vm) (root : Root) (a : ℕ) (s' : Pmm) (m' : Mem) (is : IsVm vm root)
    (new : NewFrame vm a s' m') (word : ℕ → ℕ) (path : List ℕ) (i p : ℕ) (good : IsWord word)
    (ip : IsPath root (i ∷ path)) (at : table_in vm root path ≡ some p)
    (absent : is_present (read64 vm.mem (slot p i)) ≡ false) where
  entry_word : IsTableWord new.n (word a)
  entry_word = subst (λ x. IsTableWord new.n (word x)) (sym (new.address)) (good new.n new.n_small)

  at_cleared : table_at m' s'.hhdm_offset root path ≡ some p
  at_cleared =
      rw (new.grows.hhdm) (cleared_table vm root a s' m' is new path (IsPath-rest i path ip) ∙ at)

  absent_cleared : is_present (read64 m' (slot p i)) ≡ false
  absent_cleared =
      ap is_present (
        read64-clear vm.pmm vm.mem root is.space m' new.n path p i new.unused new.cleared
          (IsPath-rest i path ip) ((ip.indices).0) at)
      ∙ absent

  points : table_below s'.hhdm_offset (word a) ≡ page vm.pmm.hhdm_offset new.n
  points = omega (arith, entry_word.frame, new.grows.hhdm, new.fits)

  abbrev entered : Vm
  entered = set_word (record vm { pmm = s'; mem = m' }) (slot p i) (word a)

  entered-Extends : Extends (record vm { pmm = s'; mem = m' }) root entered
  entered-Extends = record {
    is_vm = record {
      valid = new.valid;
      room = (cleared-Extends vm root a s' m' is new).is_vm.room;
      space =
          IsSpace-grow s' m' root (cleared-IsSpace vm root a s' m' is new) path i p (word a)
            (page vm.pmm.hhdm_offset new.n) ip at_cleared absent_cleared
            (page-IsFresh vm root a s' m' is new) entry_word.present entry_word.small points
            new.placed;
    };
    kernel = refl;
    hhdm = refl;
    stays =
        table_at-stays s' m' root (cleared-IsSpace vm root a s' m' is new) path i p (word a)
          (page vm.pmm.hhdm_offset new.n) ip at_cleared absent_cleared
          (page-IsFresh vm root a s' m' is new) entry_word.present entry_word.small points;
    lookups =
        lookup-grow s' m' root (cleared-IsSpace vm root a s' m' is new) path i p (word a)
          (page vm.pmm.hhdm_offset new.n) ip at_cleared absent_cleared
          (page-IsFresh vm root a s' m' is new) entry_word.present entry_word.small points;
  }

  entered_tables :
      (b : List ℕ)
      → IsPath root b
      → ((b ≡ i ∷ path) × (table_in entered root b ≡ some (page vm.pmm.hhdm_offset new.n)))
        ⊎ (table_in entered root b ≡ table_at m' s'.hhdm_offset root b)
  entered_tables =
      table_at-grow s' m' root (cleared-IsSpace vm root a s' m' is new) path i p (word a)
        (page vm.pmm.hhdm_offset new.n) ip at_cleared absent_cleared
        (page-IsFresh vm root a s' m' is new) entry_word.present entry_word.small points

  -- The new table is a frame that was not in use, so the frames in use keep their bytes.
  entered-KeepsApart : KeepsApart vm root entered
  entered-KeepsApart =
      let between = record vm { pmm = s'; mem = m' } in
      let same = cleared_table vm root a s' m' is new in
      let cleared : KeepsApart vm root between =
        clear-KeepsApart vm root s' m' new.n new.unused new.grows new.cleared
          (λ b ib. rw (new.grows.hhdm) (same b ib))
          (λ j lj.
            read64-clear vm.pmm vm.mem root is.space m' new.n [] root.address j new.unused
              new.cleared (IsPath-root root) lj refl) in
      let h : s'.hhdm_offset ≡ vm.pmm.hhdm_offset = new.grows.hhdm in
      let space = cleared-IsSpace vm root a s' m' is new in
      let placed = space.placed path p (IsPath-rest i path ip) at_cleared in
      record {
        frames = λ f apart.
            let kept = cleared.frames f apart in
            let other : f ≢ new.n = λ e.
              absurd (ground (arith, new.unused, ap (test_frame vm.pmm.bitmap) e, apart.used)) in
            record {
              still = record {
                used = kept.still.used;
                no_table = λ b q ib e c. elim (entered_tables b ib) [
                  | inl (last, leads) ↦
                      absurd (ground (arith, other, sym c ∙ sym (eq_of_some (sym leads ∙ e)), h))
                  | inr old ↦ kept.still.no_table b q ib (sym old ∙ e) c
                ];
              };
              bytes = λ b low high.
                  table_store_outside s' m' p i (word a) f b placed ((ip.indices).0)
                    (kept.still.no_table path p (IsPath-rest i path ip) at_cleared)
                    (omega (arith, low, h)) (omega (arith, high, h))
                  ∙ kept.bytes b low high;
            };
        shared = λ j lj off.
            read64-write64_ne m' (slot p i) (word a) (slot root.address j) (
              paths-Disjoint s' m' root space path [] p root.address i j (IsPath-rest i path ip)
                (IsPath-root root) ((ip.indices).0) lj at_cleared refl
                (covered_differs root i j path ip off))
            ∙ cleared.shared j lj off;
      }

  entered-Made : Made vm root p i path true entered
  unfolding below phys_to_virt
  entered-Made =
      let read = read64-write64 m' (slot p i) (word a) entry_word.small in
      record {
        extends =
            Extends-trans vm (record vm { pmm = s'; mem = m' }) entered root
              (cleared-Extends vm root a s' m' is new) entered-Extends;
        keeps = entered-KeepsApart;
        made = λ e.
            table_at-fresh s' m' root (cleared-IsSpace vm root a s' m' is new) path i p (word a)
              (page vm.pmm.hhdm_offset new.n) ip at_cleared absent_cleared
              (page-IsFresh vm root a s' m' is new) entry_word.present entry_word.small points
            ∙ ap some (sym points ∙ ap (table_below s'.hhdm_offset) (sym read));
      }

enter_table-Made :
    (vm : Vm) (root : Root) (p i : ℕ) (path : List ℕ) (word : ℕ → ℕ) (r : Option ℕ × Pmm × Mem)
    → alloc_zeroed vm.pmm vm.mem ≡ r
    → IsVm vm root
    → IsWord word
    → IsPath root (i ∷ path)
    → table_in vm root path ≡ some p
    → is_present (read64 vm.mem (slot p i)) ≡ false
    → Made vm root p i path
        (enter_table word vm (slot p i) r).0
        (enter_table word vm (slot p i) r).1
enter_table-Made vm root p i path word (none, s', m') e is good ip at absent =
    let (state, memory) = alloc_zeroed-none vm.pmm s' vm.mem m' is.valid e in
    record {
      extends = rw (state, memory) (Extends-refl vm root is);
      made = λ ok. absurd (ground arith);
      keeps = rw (state, memory) (KeepsApart-refl vm root);
    }
enter_table-Made vm root p i path word (some a, s', m') e is good ip at absent =
    entered-Made vm root a s' m' is (alloc_zeroed-NewFrame vm root a s' m' is e) word path i p good
      ip at absent

there_already :
    (vm : Vm) (root : Root) (p i : ℕ) (path : List ℕ)
    → table_in vm root path ≡ some p
    → is_present (read64 vm.mem (slot p i)) ≡ true
    → table_in vm root (i ∷ path) ≡ some (below vm (read64 vm.mem (slot p i)))
unfolding below phys_to_virt
there_already vm root p i path at there = rw (at, there) refl

-- After `make_table`, and unless memory ran out, the slot leads to a table of the tree.
pub make_table-Made :
    (vm : Vm) (root : Root) (p i : ℕ) (path : List ℕ) (word : ℕ → ℕ)
    → IsVm vm root
    → IsWord word
    → IsPath root (i ∷ path)
    → table_in vm root path ≡ some p
    → Made vm root p i path (make_table word vm (slot p i)).0 (make_table word vm (slot p i)).1
unfolding make_table
make_table-Made vm root p i path word is good ip at =
    elim (Bool-cases (is_present (read64 vm.mem (slot p i)))) [
      | inl there ↦ rw there (record {
        extends = Extends-refl vm root is;
        made = λ ok. there_already vm root p i path at there;
        keeps = KeepsApart-refl vm root;
      })
      | inr absent ↦ rw absent (
          enter_table-Made vm root p i path word (alloc_zeroed vm.pmm vm.mem) refl is good ip at
            absent)
    ]
