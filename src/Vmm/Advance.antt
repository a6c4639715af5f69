-- ===== src/Vmm/Advance.antt =====
-- What the building of one tree of page tables leaves as it was: the translations that are there,
-- the frames that are no table of it, and so the other trees.
use sonna_os.Prelude.{
  ℕ, ◌+◌, ◌<◌, ◌≤◌, ◌≡◌, ◌≢◌, ◌⊎◌, refl, sym, ◌∙◌, ap, ap₂, inl, inr, Bool, Bool-cases, some, List,
  [], ◌∷◌, length, ◌==◌, ==→eq, ==→ne, get_or, arith,
}
use sonna_os.Memory.Word.{read64, read64-frame}
use sonna_os.Vmm.{Vm, slot}
use sonna_os.Vmm.Table.{
  Root, final, final-frame, IsPath, IsPath-rest, page, none-ne-some, table_at-frame,
}
use sonna_os.Vmm.Extends.{IsVm, table_in, lookup_in}
use sonna_os.Vmm.Keep.{IsApart, KeepsApart, KeepsApart-refl, KeepsApart-trans}
use sonna_os.Vmm.Map.{Filled}

-- From `vm` to `vm'` the tree got tables, pages and frames, and nothing was lost.
pub record Advances (vm : Vm) (root : Root) (vm' : Vm) : Type 0 where
  pub is_vm : IsVm vm' root
  pub hhdm : vm'.pmm.hhdm_offset ≡ vm.pmm.hhdm_offset
  pub keeps : KeepsApart vm root vm'
  pub stays :
      (j : ℕ) (a : List ℕ) (e : ℕ)
      → j < 512
      → IsPath root a
      → length a ≡ 3
      → lookup_in vm root (j ∷ a) ≡ some e
      → lookup_in vm' root (j ∷ a) ≡ some e

pub Advances-refl : (vm : Vm) (root : Root) → IsVm vm root → Advances vm root vm
Advances-refl vm root is = record {
  is_vm = is;
  hhdm = refl;
  keeps = KeepsApart-refl vm root;
  stays = λ j a e lj ia deep there. there;
}

pub Advances-trans :
    (vm vm1 vm2 : Vm) (root : Root)
    → Advances vm root vm1
    → Advances vm1 root vm2
    → Advances vm root vm2
Advances-trans vm vm1 vm2 root one two = record {
  is_vm = two.is_vm;
  hhdm = two.hhdm ∙ one.hhdm;
  keeps = KeepsApart-trans vm vm1 vm2 root one.hhdm one.keeps two.keeps;
  stays = λ j a e lj ia deep there. two.stays j a e lj ia deep (one.stays j a e lj ia deep there);
}

same_path : (a b : List ℕ) → (a ≡ b) ⊎ (a ≢ b)
same_path [] [] = inl refl
same_path [] (j ∷ b) = inr λ e. absurd (omega (arith, ap length e))
same_path (i ∷ a) [] = inr λ e. absurd (omega (arith, ap length e))
same_path (i ∷ a) (j ∷ b) = elim (Bool-cases (i == j)) [
  | inr other ↦ inr λ e. ==→ne i j other (ap (λ (l : List ℕ). get_or l 0 0) e)
  | inl same ↦ elim (same_path a b) [
    | inl rest ↦ inl (ap₂ (λ x xs. x ∷ xs) (==→eq i j same) rest)
    | inr differ ↦ inr λ e. differ (ap tail e)
  ]
]
  where
    tail : List ℕ → List ℕ
    tail [] = []
    tail (x ∷ xs) = xs

-- Mapping a page takes no translation away, since a page that has one is refused.
pub Filled-Advances :
    (vm vm' : Vm) (root : Root) (path : List ℕ) (word : ℕ) (ok : Bool)
    → Filled vm root path word ok vm'
    → Advances vm root vm'
Filled-Advances vm vm' root path word ok filled = record {
  is_vm = filled.is_vm;
  hhdm = filled.hhdm;
  keeps = filled.keeps;
  stays = λ j a e lj ia deep there. elim (Bool-cases ok) [
    | inr failed ↦ filled.others j a lj ia deep (inl failed) ∙ there
    | inl done ↦ elim (same_path (j ∷ a) path) [
      | inr other ↦ filled.others j a lj ia deep (inr other) ∙ there
      | inl here ↦
          absurd (none-ne-some (sym (ap (lookup_in vm root) here ∙ filled.was_free done) ∙ there))
    ]
  ];
}

-- The byte at `b` lies in a frame that is in use and holds no table.
pub record InFrame (vm : Vm) (root : Root) (b : ℕ) : Type 0 where
  pub frame : ℕ
  pub is_apart : IsApart vm root frame
  pub from : page vm.pmm.hhdm_offset frame ≤ b
  pub to : b < page vm.pmm.hhdm_offset frame + 4096

-- So do the `n` bytes from `p`.
abbrev pub InFrames : Vm → Root → (p n : ℕ) → Type 0
InFrames vm root p n = (b : ℕ) → p ≤ b → b < p + n → InFrame vm root b

pub InFrame-byte :
    (vm vm' : Vm) (root : Root) (b : ℕ)
    → Advances vm root vm'
    → InFrame vm root b
    → vm'.mem b ≡ vm.mem b
InFrame-byte vm vm' root b step at = (step.keeps.frames at.frame at.is_apart).bytes b at.from at.to

pub InFrame-Advances :
    (vm vm' : Vm) (root : Root) (b : ℕ)
    → Advances vm root vm'
    → InFrame vm root b
    → InFrame vm' root b
InFrame-Advances vm vm' root b step at = record {
  frame = at.frame;
  is_apart = (step.keeps.frames at.frame at.is_apart).still;
  from = omega (arith, at.from, step.hhdm);
  to = omega (arith, at.to, step.hhdm);
}

-- No table of the one tree is a table of the other.
pub record AreApart (vm : Vm) (root other : Root) : Type 0 where
  pub is_vm : IsVm vm other
  pub apart :
      (path : List ℕ) (p f : ℕ)
      → IsPath other path
      → table_in vm other path ≡ some p
      → p ≡ page vm.pmm.hhdm_offset f
      → IsApart vm root f

module _ (vm vm' : Vm) (root other : Root) (step : Advances vm root vm')
    (two : AreApart vm root other) where
  same_entry :
      (path : List ℕ) (p i : ℕ)
      → IsPath other path
      → i < 512
      → table_in vm other path ≡ some p
      → read64 vm'.mem (slot p i) ≡ read64 vm.mem (slot p i)
  same_entry path p i ip li at =
      let placed = two.is_vm.space.placed path p ip at in
      let kept =
        step.keeps.frames placed.frame (two.apart path p placed.frame ip at placed.address) in
      read64-frame vm.mem vm'.mem (slot p i) (λ b low high.
        kept.bytes b (omega (arith, placed.address, low)) (omega (arith, placed.address, high, li)))

  pub other_table :
      (path : List ℕ) → IsPath other path → table_in vm' other path ≡ table_in vm other path
  other_table path ip = rw (step.hhdm) (
      table_at-frame vm.mem vm'.mem vm.pmm.hhdm_offset other path
        (λ above p i is at. same_entry above p i (IsPath-rest i above is) ((is.indices).0) at) ip)

  pub other_lookup :
      (j : ℕ) (path : List ℕ)
      → j < 512
      → IsPath other path
      → lookup_in vm' other (j ∷ path) ≡ lookup_in vm other (j ∷ path)
  other_lookup j path lj ip =
      ap (final vm'.mem j) (other_table path ip)
      ∙ final-frame vm.mem vm'.mem j (table_in vm other path) (λ p at. same_entry path p j ip lj at)
