-- ===== src/Vmm/Table.antt =====
-- The tree of page tables that memory holds: where each path of indices leads.
use sonna_os.Prelude.{
  Bool, true, ℕ, ◌+◌, ◌*◌, ◌<◌, ◌≤◌, ◌≡◌, ◌≢◌, ◌⊎◌, refl, ◌∙◌, ap, inl, inr, true, Option, none,
  some, List, [], ◌∷◌, length, All, if◌then◌else◌, add64, arith,
}
use sonna_os.Memory.{Mem}
use sonna_os.Memory.Word.{read64, Disjoint}
use sonna_os.Pmm.{Pmm, test_frame}
use sonna_os.Vmm.{is_present, frame_of, slot}

abbrev pub table_below : (hhdm e : ℕ) → ℕ
table_below hhdm e = add64 (frame_of e) hhdm

abbrev pub step : Mem → (hhdm i : ℕ) → Option ℕ → Option ℕ
step m hhdm i none = none
step m hhdm i (some p) =
    if is_present (read64 m (slot p i)) then some (table_below hhdm (read64 m (slot p i))) else none

-- The first table, and the entries of it whose subtrees count: a task's tree shares the others
-- with the kernel, where an entry may also stand for a large page.
pub record Root : Type 0 where
  pub address : ℕ
  pub covers : ℕ → Bool

-- The table at the end of a path from `root`; the last index of the path stands first.
abbrev pub table_at : Mem → (hhdm : ℕ) → Root → List ℕ → Option ℕ
table_at m hhdm root [] = some root.address
table_at m hhdm root (i ∷ path) = step m hhdm i (table_at m hhdm root path)

-- The path starts at an entry that counts.
abbrev pub IsCovered : Root → List ℕ → Type 0
IsCovered root [] = Unit
IsCovered root (i ∷ []) = root.covers i ≡ true
IsCovered root (i ∷ j ∷ path) = IsCovered root (j ∷ path)

IsCovered-rest :
    (root : Root) (i : ℕ) (path : List ℕ) → IsCovered root (i ∷ path) → IsCovered root path
IsCovered-rest root i [] e = tt
IsCovered-rest root i (j ∷ path) e = e

-- A path to one of the tables: three levels below the root at most.
pub record IsPath (root : Root) (path : List ℕ) : Type 0 where
  pub covered : IsCovered root path
  pub indices : All (λ i. i < 512) path
  pub short : length path ≤ 3

abbrev pub page : (hhdm f : ℕ) → ℕ
page hhdm f = f * 4096 + hhdm

-- The table at `p` is a frame that the allocator holds for used.
pub record IsPlaced (s : Pmm) (p : ℕ) : Type 0 where
  pub frame : ℕ
  pub address : p ≡ page s.hhdm_offset frame
  pub inside : frame < s.bitmap_frames
  pub used : test_frame s.bitmap frame ≡ true

-- The tables below `root` are used frames, and each is reached by one path only.
pub record IsSpace (s : Pmm) (m : Mem) (root : Root) : Type 0 where
  pub placed :
      (path : List ℕ) (p : ℕ)
      → IsPath root path
      → table_at m s.hhdm_offset root path ≡ some p
      → IsPlaced s p
  pub apart :
      (a b : List ℕ) (p : ℕ)
      → IsPath root a
      → IsPath root b
      → table_at m s.hhdm_offset root a ≡ some p
      → table_at m s.hhdm_offset root b ≡ some p
      → a ≡ b

pub IsPath-rest : {root : Root} (i : ℕ) (path : List ℕ) → IsPath root (i ∷ path) → IsPath root path
IsPath-rest {root} i path is = record {
  covered = IsCovered-rest root i path is.covered;
  indices = (is.indices).1;
  short = omega (arith, is.short);
}

-- A memory that reads the same at every slot above the last level has the same tables.
pub table_at-frame :
    (m m' : Mem) (hhdm : ℕ) (root : Root) (path : List ℕ)
    → ((above : List ℕ) (p i : ℕ)
        → IsPath root (i ∷ above)
        → table_at m hhdm root above ≡ some p
        → read64 m' (slot p i) ≡ read64 m (slot p i))
    → IsPath root path
    → table_at m' hhdm root path ≡ table_at m hhdm root path
table_at-frame m m' hhdm root [] same is = refl
table_at-frame m m' hhdm root (i ∷ path) same is =
    let rest = table_at-frame m m' hhdm root path same (IsPath-rest i path is) in
    ap (step m' hhdm i) rest
    ∙ step-frame m m' hhdm i (table_at m hhdm root path) (λ p e. same path p i is e)
  where
    step-frame :
        (m m' : Mem) (hhdm i : ℕ) (o : Option ℕ)
        → ((p : ℕ) → o ≡ some p → read64 m' (slot p i) ≡ read64 m (slot p i))
        → step m' hhdm i o ≡ step m hhdm i o
    step-frame m m' hhdm i none same = refl
    step-frame m m' hhdm i (some p) same = rw (same p refl) refl

-- What the allocator may do meanwhile: mark frames, and nothing to the window on memory.
pub record Grows (s s' : Pmm) : Type 0 where
  pub hhdm : s'.hhdm_offset ≡ s.hhdm_offset
  pub frames : s'.bitmap_frames ≡ s.bitmap_frames
  pub marks : (f : ℕ) → test_frame s.bitmap f ≡ true → test_frame s'.bitmap f ≡ true

pub IsPlaced-Grows : (s s' : Pmm) (p : ℕ) → Grows s s' → IsPlaced s p → IsPlaced s' p
IsPlaced-Grows s s' p grows is = record {
  frame = is.frame;
  address = rw (grows.hhdm) is.address;
  inside = omega (arith, is.inside, grows.frames);
  used = grows.marks is.frame is.used;
}

-- Slots of different tables, and different slots of one table, share no byte.
pub slots-Disjoint :
    (hhdm f g i j : ℕ)
    → i < 512
    → j < 512
    → (f ≢ g) ⊎ (i ≢ j)
    → Disjoint (slot (page hhdm f) i) (slot (page hhdm g) j)
slots-Disjoint hhdm f g i j li lj (inl ne) = ground arith
slots-Disjoint hhdm f g i j li lj (inr ne) = ground arith

pub none-ne-some {ℓ} : {A : Type ℓ} {a : A} → none ≡ some a → ⊥
none-ne-some e = cc

abbrev pub final : Mem → (i : ℕ) → Option ℕ → Option ℕ
final m i none = none
final m i (some p) = if is_present (read64 m (slot p i)) then some (read64 m (slot p i)) else none

-- The entry of a page, by its four indices: `none` if a table is missing or the entry not present.
abbrev pub lookup : Mem → (hhdm : ℕ) → Root → List ℕ → Option ℕ
lookup m hhdm root [] = none
lookup m hhdm root (i ∷ path) = final m i (table_at m hhdm root path)

pub final-frame :
    (m m' : Mem) (i : ℕ) (o : Option ℕ)
    → ((p : ℕ) → o ≡ some p → read64 m' (slot p i) ≡ read64 m (slot p i))
    → final m' i o ≡ final m i o
final-frame m m' i none same = refl
final-frame m m' i (some p) same = rw (same p refl) refl
