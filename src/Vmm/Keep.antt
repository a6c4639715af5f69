-- ===== src/Vmm/Keep.antt =====
-- Frames in use that hold no table of a tree: they keep their bytes while the tree grows.
use sonna_os.Prelude.{
  ℕ, ◌+◌, ◌<◌, ◌≤◌, ◌≡◌, ◌≢◌, refl, Bool, sym, ◌∙◌, ap, inl, inr, true, false, some, List, [], ◌∷◌,
  length, ◌⊎◌, arith,
}
use sonna_os.Memory.{Mem}
use sonna_os.Memory.Word.{read64, write64, Disjoint, write64-Outside, read64-write64_ne}
use sonna_os.Pmm.{Pmm, test_frame}
use sonna_os.Pmm.Zeroed.{IsCleared}
use sonna_os.Vmm.{Vm, slot, below, set_word}
use sonna_os.Vmm.Table.{Root, IsPath, page, IsPlaced, Grows}
use sonna_os.Vmm.Extends.{table_in, Extends}

-- The frame `f` is in use, and no table of the tree.
pub record IsApart (vm : Vm) (root : Root) (f : ℕ) : Type 0 where
  pub used : test_frame vm.pmm.bitmap f ≡ true
  pub no_table :
      (path : List ℕ) (p : ℕ)
      → IsPath root path
      → table_in vm root path ≡ some p
      → p ≢ page vm.pmm.hhdm_offset f

-- The frame stays so, and none of its bytes changes.
pub record Keeps (vm : Vm) (root : Root) (vm' : Vm) (f : ℕ) : Type 0 where
  pub still : IsApart vm' root f
  pub bytes :
      (b : ℕ)
      → page vm.pmm.hhdm_offset f ≤ b
      → b < page vm.pmm.hhdm_offset f + 4096
      → vm'.mem b ≡ vm.mem b

-- That holds for every such frame, and the entries of the root that do not count stay.
pub record KeepsApart (vm : Vm) (root : Root) (vm' : Vm) : Type 0 where
  pub frames : (f : ℕ) → IsApart vm root f → Keeps vm root vm' f
  pub shared :
      (j : ℕ)
      → j < 512
      → root.covers j ≡ false
      → read64 vm'.mem (slot root.address j) ≡ read64 vm.mem (slot root.address j)

pub KeepsApart-refl : (vm : Vm) (root : Root) → KeepsApart vm root vm
KeepsApart-refl vm root = record {
  frames = λ f apart. record { still = apart; bytes = λ b low high. refl };
  shared = λ j lj off. refl;
}

pub KeepsApart-trans :
    (vm vm1 vm2 : Vm) (root : Root)
    → vm1.pmm.hhdm_offset ≡ vm.pmm.hhdm_offset
    → KeepsApart vm root vm1
    → KeepsApart vm1 root vm2
    → KeepsApart vm root vm2
KeepsApart-trans vm vm1 vm2 root hhdm one two = record {
  frames = λ f apart.
      let first = one.frames f apart in
      let second = two.frames f first.still in
      record {
        still = second.still;
        bytes = λ b low high.
            second.bytes b (omega (arith, low, hhdm)) (omega (arith, high, hhdm))
            ∙ first.bytes b low high;
      };
  shared = λ j lj off. two.shared j lj off ∙ one.shared j lj off;
}

-- An entry that leads to a table or a page of the tree is none that does not count.
pub covered_differs :
    (root : Root) (i j : ℕ) (path : List ℕ)
    → IsPath root (i ∷ path)
    → root.covers j ≡ false
    → (path ≢ []) ⊎ (i ≢ j)
covered_differs root i j [] ip off =
    inr λ e. absurd (ground (arith, ip.covered, ap root.covers e, off))
covered_differs root i j (k ∷ path) ip off = inl λ e. absurd (omega (arith, ap length e))

pub IsPath-root : (root : Root) → IsPath root []
IsPath-root root = record { covered = tt; indices = tt; short = omega arith }

-- A store to a table does not reach the frames that hold none.
pub table_store_outside :
    (s : Pmm) (m : Mem) (p i v f b : ℕ)
    → IsPlaced s p
    → i < 512
    → p ≢ page s.hhdm_offset f
    → page s.hhdm_offset f ≤ b
    → b < page s.hhdm_offset f + 4096
    → write64 m (slot p i) v b ≡ m b
table_store_outside s m p i v f b placed li ne low high =
    let other : placed.frame ≢ f = λ e. ne (placed.address ∙ ap (page s.hhdm_offset) e) in
    write64-Outside m (slot p i) v b (ground (arith, placed.address))

-- A store to a table that moves no table.
pub set_word-KeepsApart :
    (vm : Vm) (root : Root) (path : List ℕ) (p i v : ℕ)
    → IsPlaced vm.pmm p
    → IsPath root path
    → i < 512
    → table_in vm root path ≡ some p
    → ((a : List ℕ)
        → IsPath root a
        → table_in (set_word vm (slot p i) v) root a ≡ table_in vm root a)
    → ((j : ℕ) → j < 512 → root.covers j ≡ false → Disjoint (slot p i) (slot root.address j))
    → KeepsApart vm root (set_word vm (slot p i) v)
set_word-KeepsApart vm root path p i v placed ip li at same off = record {
  frames = λ f apart. record {
    still = record {
      used = apart.used;
      no_table = λ a q ia e. apart.no_table a q ia (sym (same a ia) ∙ e);
    };
    bytes = λ b low high.
        table_store_outside vm.pmm vm.mem p i v f b placed li (apart.no_table path p ip at) low
          high;
  };
  shared = λ j lj out. read64-write64_ne vm.mem (slot p i) v (slot root.address j) (off j lj out);
}

-- Clearing a frame that was not in use, which moves no table.
pub clear-KeepsApart :
    (vm : Vm) (root : Root) (s' : Pmm) (m' : Mem) (n : ℕ)
    → test_frame vm.pmm.bitmap n ≡ false
    → Grows vm.pmm s'
    → IsCleared vm.mem (page vm.pmm.hhdm_offset n) 4096 m'
    → ((a : List ℕ)
        → IsPath root a
        → table_in (record vm { pmm = s'; mem = m' }) root a ≡ table_in vm root a)
    → ((j : ℕ) → j < 512 → read64 m' (slot root.address j) ≡ read64 vm.mem (slot root.address j))
    → KeepsApart vm root (record vm { pmm = s'; mem = m' })
clear-KeepsApart vm root s' m' n unused grows cleared same entries = record {
  frames = λ f apart. record {
    still = record {
      used = grows.marks f apart.used;
      no_table = λ a q ia e c.
          apart.no_table a q ia (sym (same a ia) ∙ e) (c ∙ ap (λ h. page h f) grows.hhdm);
    };
    bytes = λ b low high.
        let other : n ≢ f =
          λ e. absurd (ground (arith, unused, ap (test_frame vm.pmm.bitmap) e, apart.used)) in
        cleared.outside b (ground arith);
  };
  shared = λ j lj off. entries j lj;
}

-- What `make_table` leaves at the slot `i` of the table at `p`.
pub record Made (vm : Vm) (root : Root) (p i : ℕ) (path : List ℕ) (ok : Bool) (vm' : Vm)
    : Type 0 where
  pub extends : Extends vm root vm'
  pub made : ok ≡ true → table_in vm' root (i ∷ path) ≡ some (below vm' (read64 vm'.mem (slot p i)))
  pub keeps : KeepsApart vm root vm'
