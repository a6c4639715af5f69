-- ===== src/Vmm/Fresh.antt =====
-- The frame that `alloc_zeroed` hands out for a table.
use sonna_os.Prelude.{
  ℕ, ◌+◌, ◌-◌, ◌*◌, ◌%◌, ◌^◌, ◌<◌, ◌≤◌, ◌≡◌, refl, sym, subst, ◌∙◌, ap, inl, false, not, Option,
  none, some, List, ◌==◌, arith,
}
use sonna_os.Memory.{Mem}
use sonna_os.Memory.Word.{read64, Disjoint, read64-zero}
use sonna_os.Pmm.{
  Pmm, test_frame, alloc, alloc_frames, alloc_zeroed, alloc_frames_zeroed, zero_pages,
}
use sonna_os.Pmm.Valid.{IsValid}
use sonna_os.Pmm.Alloc.{alloc_frames-none}
use sonna_os.Pmm.Zeroed.{IsCleared, alloc_frames_zeroed-IsCleared}
use sonna_os.Vmm.{Vm, slot}
use sonna_os.Vmm.Entry.{is_present_lem}
use sonna_os.Vmm.Table.{
  Root, table_at, final, final-frame, IsPath, page, IsPlaced, IsSpace, Grows, slots-Disjoint,
}
use sonna_os.Vmm.Space.{IsSpace-frame, table_at-clear, read64-clear, frames_differ}
use sonna_os.Vmm.Grow.{IsFresh}
use sonna_os.Vmm.Extends.{IsVm, table_in, Extends}

zero_pages-none :
    (m : Mem) (count : ℕ) (r : Option ℕ × Pmm) {s' : Pmm} {m' : Mem}
    → zero_pages m count r ≡ (none, s', m')
    → (r.0 ≡ none) × (r.1 ≡ s') × (m ≡ m')
unfolding zero_pages
zero_pages-none m count (none, s) e =
    (refl, ap (λ (x : Option ℕ × Pmm × Mem). x.1) e, ap (λ (x : Option ℕ × Pmm × Mem). x.2) e)
zero_pages-none m count (some p, s) e = absurd (cc)

pub one_frame : (s : Pmm) (m : Mem) → alloc_zeroed s m ≡ alloc_frames_zeroed s m 1
unfolding alloc_zeroed alloc alloc_frames_zeroed
one_frame s m = refl

-- A refused allocation changes nothing.
pub alloc_zeroed-none :
    (s s' : Pmm) (m m' : Mem) → IsValid s → alloc_zeroed s m ≡ (none, s', m') → (s' ≡ s) × (m' ≡ m)
unfolding alloc_frames_zeroed
alloc_zeroed-none s s' m m' valid e =
    let (refused, state, memory) =
      zero_pages-none m 1 (alloc_frames s 1) (sym (one_frame s m) ∙ e) in
    let (why, then_same) = alloc_frames-none s valid 1 in
    (sym state ∙ ap (λ (x : Option ℕ × Pmm). x.1) (then_same (why refused)), sym memory)

-- A frame that `alloc_zeroed` hands out, cleared, and the allocator behind it.
pub record NewFrame (vm : Vm) (a : ℕ) (s' : Pmm) (m' : Mem) : Type 0 where
  pub n : ℕ
  pub address : a ≡ n * 4096
  pub n_small : n < 2 ^ 52
  pub unused : test_frame vm.pmm.bitmap n ≡ false
  pub grows : Grows vm.pmm s'
  pub placed : IsPlaced s' (page vm.pmm.hhdm_offset n)
  pub valid : IsValid s'
  pub fits : page vm.pmm.hhdm_offset n < 2 ^ 64
  pub cleared : IsCleared vm.mem (page vm.pmm.hhdm_offset n) 4096 m'

pub alloc_zeroed-NewFrame :
    (vm : Vm) (root : Root) (a : ℕ) (s' : Pmm) (m' : Mem)
    → IsVm vm root
    → alloc_zeroed vm.pmm vm.mem ≡ (some a, s', m')
    → NewFrame vm a s' m'
alloc_zeroed-NewFrame vm root a s' m' is e =
    let (out, cleared) =
      alloc_frames_zeroed-IsCleared vm.pmm vm.mem 1 is.valid is.room
        (sym (one_frame vm.pmm vm.mem) ∙ e) in
    record {
      n = out.start;
      address = out.address;
      n_small = omega (arith, out.inside, is.valid.small);
      unused = (out.run).1 out.start (omega arith) (omega arith);
      grows = record {
        hhdm = out.same_hhdm;
        frames = out.same_frames;
        marks = λ f u. ground (arith, out.marked f, u);
      };
      placed = record {
        frame = out.start;
        address = rw (out.same_hhdm) refl;
        inside = omega (arith, out.inside, out.same_frames);
        used = ground (arith, out.marked out.start);
      };
      valid = out.valid;
      fits = omega (arith, out.inside, is.room);
      cleared = subst (λ x. IsCleared vm.mem (x + vm.pmm.hhdm_offset) 4096 m') out.address cleared;
    }

pub cleared_at : (m m' : Mem) (at n b : ℕ) → IsCleared m at n m' → at ≤ b → b < at + n → m' b ≡ 0
cleared_at m m' at n b cleared low high =
    let sum : b ≡ at + (b - at) = omega arith in ap m' sum ∙ cleared.inside (b - at) (omega arith)

-- The new frame as a table.
module _ (vm : Vm) (root : Root) (a : ℕ) (s' : Pmm) (m' : Mem) (is : IsVm vm root)
    (new : NewFrame vm a s' m') where
  pub cleared_table :
      (path : List ℕ)
      → IsPath root path
      → table_at m' vm.pmm.hhdm_offset root path ≡ table_in vm root path
  cleared_table path ip =
      table_at-clear vm.pmm vm.mem root is.space m' new.n path new.unused new.cleared ip

  pub cleared-IsSpace : IsSpace s' m' root
  cleared-IsSpace = IsSpace-frame vm.pmm s' vm.mem m' root new.grows cleared_table is.space

  pub cleared-Extends : Extends vm root (record vm { pmm = s'; mem = m' })
  cleared-Extends = record {
    is_vm = record {
      valid = new.valid;
      room = omega (arith, is.room, new.grows.hhdm, new.grows.frames);
      space = cleared-IsSpace;
    };
    kernel = refl;
    hhdm = new.grows.hhdm;
    stays = λ b q ib e. rw (new.grows.hhdm) (cleared_table b ib ∙ e);
    lookups = λ j b lj ib deep. rw (new.grows.hhdm) (
        ap (final m' j) (cleared_table b ib)
        ∙ final-frame vm.mem m' j (table_in vm root b) (λ q e.
          read64-clear vm.pmm vm.mem root is.space m' new.n b q j new.unused new.cleared ib lj e));
  }

  pub page-IsFresh : IsFresh s' m' root (page vm.pmm.hhdm_offset new.n)
  page-IsFresh = record {
    empty = λ i li.
        is_present_lem (read64 m' (slot (page vm.pmm.hhdm_offset new.n) i))
        ∙ ap (λ x. not (x % 2 == 0))
            (read64-zero m' (slot (page vm.pmm.hhdm_offset new.n) i) (λ b low high.
              cleared_at vm.mem m' (page vm.pmm.hhdm_offset new.n) 4096 b new.cleared (omega arith)
                (omega arith)));
    new_frame = λ path p i j ip li lj e.
        let old = sym (cleared_table path ip) ∙ (rw (sym (new.grows.hhdm)) e) in
        let q = is.space.placed path p ip old in
        let other = frames_differ vm.pmm new.n q.frame new.unused q.used in
        subst (λ x. Disjoint (slot x i) (slot (page vm.pmm.hhdm_offset new.n) j)) (sym (q.address))
          (slots-Disjoint vm.pmm.hhdm_offset q.frame new.n i j li lj (inl λ c. other (sym c)));
  }
