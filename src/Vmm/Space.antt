-- ===== src/Vmm/Space.antt =====
-- Stores that keep the tree of page tables: a page's entry, a cleared new frame, a new table.
use sonna_os.Prelude.{
  ℕ, ◌+◌, ◌<◌, ◌≤◌, ◌≡◌, ◌≢◌, ◌⊎◌, sym, subst, ◌∙◌, ap, inl, inr, true, false, some, List, length,
  arith,
}
use sonna_os.Memory.{Mem}
use sonna_os.Memory.Word.{read64, write64, Disjoint, read64-write64_ne, read64-frame}
use sonna_os.Pmm.{Pmm, test_frame}
use sonna_os.Pmm.Zeroed.{IsCleared}
use sonna_os.Vmm.{slot}
use sonna_os.Vmm.Table.{
  Root, table_at, IsPath, IsPath-rest, page, IsPlaced-Grows, IsSpace, Grows, table_at-frame,
  slots-Disjoint,
}

-- A space is kept by what leaves its tables where they are.
pub IsSpace-frame :
    (s s' : Pmm) (m m' : Mem) (root : Root)
    → Grows s s'
    → ((path : List ℕ)
        → IsPath root path
        → table_at m' s.hhdm_offset root path ≡ table_at m s.hhdm_offset root path)
    → IsSpace s m root
    → IsSpace s' m' root
IsSpace-frame s s' m m' root grows same space = record {
  placed = λ path p is e.
      IsPlaced-Grows s s' p grows
        (space.placed path p is (sym (same path is) ∙ (rw (sym (grows.hhdm)) e)));
  apart = λ a b p ia ib ea eb.
      space.apart a b p ia ib (sym (same a ia) ∙ (rw (sym (grows.hhdm)) ea))
        (sym (same b ib) ∙ (rw (sym (grows.hhdm)) eb));
}

pub frames_differ :
    (s : Pmm) (n f : ℕ) → test_frame s.bitmap n ≡ false → test_frame s.bitmap f ≡ true → n ≢ f
frames_differ s n f unused used e =
    let same : test_frame s.bitmap n ≡ true = rw e used in ground (arith, unused, same)

module _ (s : Pmm) (m : Mem) (root : Root) (space : IsSpace s m root) where
  -- Slots of two paths are apart unless both the paths and the indices agree.
  pub paths-Disjoint :
      (a b : List ℕ) (p q i j : ℕ)
      → IsPath root a
      → IsPath root b
      → i < 512
      → j < 512
      → table_at m s.hhdm_offset root a ≡ some p
      → table_at m s.hhdm_offset root b ≡ some q
      → (a ≢ b) ⊎ (i ≢ j)
      → Disjoint (slot p i) (slot q j)
  paths-Disjoint a b p q i j ia ib li lj ea eb differ =
      let pp = space.placed a p ia ea in
      let pq = space.placed b q ib eb in
      let apart : (pp.frame ≢ pq.frame) ⊎ (i ≢ j) = elim differ [
        | inr ne ↦ inr ne
        | inl ne ↦
            inl λ f. ne (space.apart a b p ia ib ea (rw (pp.address, f, sym (pq.address)) eb))
      ] in
      subst (λ x. Disjoint (slot x i) (slot q j)) (sym (pp.address))
        (subst (λ x. Disjoint (slot (page s.hhdm_offset pp.frame) i) (slot x j)) (sym (pq.address))
          (slots-Disjoint s.hhdm_offset pp.frame pq.frame i j li lj apart))

  -- A store to an entry of the last level changes no table.
  pub table_at-leaf :
      (leaf : List ℕ) (p i v : ℕ) (path : List ℕ)
      → IsPath root leaf
      → length leaf ≡ 3
      → i < 512
      → table_at m s.hhdm_offset root leaf ≡ some p
      → IsPath root path
      → table_at (write64 m (slot p i) v) s.hhdm_offset root path
        ≡ table_at m s.hhdm_offset root path
  table_at-leaf leaf p i v path il deep li el is =
      table_at-frame m (write64 m (slot p i) v) s.hhdm_offset root path
        (λ above q j ij eq. read64-write64_ne m (slot p i) v (slot q j) (
          paths-Disjoint leaf above p q i j il (IsPath-rest j above ij) li ((ij.indices).0) el eq
            (inl λ e. absurd (omega (arith, deep, ij.short, ap length e)))))
        is

  -- Clearing a frame that was not in use changes no entry.
  pub read64-clear :
      (m' : Mem) (n : ℕ) (path : List ℕ) (q j : ℕ)
      → test_frame s.bitmap n ≡ false
      → IsCleared m (page s.hhdm_offset n) 4096 m'
      → IsPath root path
      → j < 512
      → table_at m s.hhdm_offset root path ≡ some q
      → read64 m' (slot q j) ≡ read64 m (slot q j)
  read64-clear m' n path q j unused cleared is lj eq =
      let pq = space.placed path q is eq in
      let other = frames_differ s n pq.frame unused pq.used in
      read64-frame m m' (slot q j) (λ a low high.
        cleared.outside a (apart_page s.hhdm_offset n pq.frame q j a other pq.address lj low high))
    where
      apart_page :
          (hhdm n f q j a : ℕ)
          → n ≢ f
          → q ≡ page hhdm f
          → j < 512
          → slot q j ≤ a
          → a < slot q j + 8
          → (a < page hhdm n) ⊎ (page hhdm n + 4096 ≤ a)
      apart_page hhdm n f q j a ne e lj low high = ground arith

  -- Nor any table.
  pub table_at-clear :
      (m' : Mem) (n : ℕ) (path : List ℕ)
      → test_frame s.bitmap n ≡ false
      → IsCleared m (page s.hhdm_offset n) 4096 m'
      → IsPath root path
      → table_at m' s.hhdm_offset root path ≡ table_at m s.hhdm_offset root path
  table_at-clear m' n path unused cleared is =
      table_at-frame m m' s.hhdm_offset root path
        (λ above q j ij eq.
          read64-clear m' n above q j unused cleared (IsPath-rest j above ij) ((ij.indices).0) eq)
        is
