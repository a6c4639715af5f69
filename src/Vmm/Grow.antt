-- ===== src/Vmm/Grow.antt =====
-- A new, empty table entered where there was none.
use sonna_os.Prelude.{
  ℕ, ◌^◌, ◌<◌, ◌≡◌, ◌≢◌, ◌⊎◌, refl, sym, subst, ◌∙◌, ap, ap₂, inl, inr, Bool-cases, true, false,
  none, some, Option-cases, eq_of_some, List, [], ◌∷◌, length, ◌==◌, ==→eq, ==→ne, arith,
}
use sonna_os.Memory.{Mem}
use sonna_os.Memory.Word.{read64, write64, Disjoint, read64-write64, read64-write64_ne}
use sonna_os.Pmm.{Pmm}
use sonna_os.Vmm.{is_present, slot}
use sonna_os.Vmm.Table.{
  Root, table_below, table_at, IsPath, IsPath-rest, lookup, final, final-frame, none-ne-some,
  IsPlaced, IsSpace,
}
use sonna_os.Vmm.Space.{paths-Disjoint}

-- `fresh` is an empty table: none of its entries is present, and it overlaps no table of the tree.
pub record IsFresh (s : Pmm) (m : Mem) (root : Root) (fresh : ℕ) : Type 0 where
  pub empty : (i : ℕ) → i < 512 → is_present (read64 m (slot fresh i)) ≡ false
  pub new_frame :
      (path : List ℕ) (p i j : ℕ)
      → IsPath root path
      → i < 512
      → j < 512
      → table_at m s.hhdm_offset root path ≡ some p
      → Disjoint (slot p i) (slot fresh j)

module _ (s : Pmm) (m : Mem) (root : Root) (space : IsSpace s m root) (path : List ℕ)
    (i p word fresh : ℕ) (is : IsPath root (i ∷ path))
    (at : table_at m s.hhdm_offset root path ≡ some p)
    (absent : is_present (read64 m (slot p i)) ≡ false) (is_fresh : IsFresh s m root fresh)
    (present : is_present word ≡ true) (small : word < 2 ^ 64)
    (points : table_below s.hhdm_offset word ≡ fresh) where
  abbrev grown : Mem
  grown = write64 m (slot p i) word

  -- What a path leads to afterwards: the new table, or what it led to before.
  abbrev pub Leads : List ℕ → Type 0
  Leads a =
      ((a ≡ i ∷ path) × (table_at grown s.hhdm_offset root a ≡ some fresh))
      ⊎ (table_at grown s.hhdm_offset root a ≡ table_at m s.hhdm_offset root a)

  -- The path to the new table led nowhere.
  pub led_nowhere : table_at m s.hhdm_offset root (i ∷ path) ≡ none
  led_nowhere = rw (at, absent) refl

  -- One step further from a table of the tree, through a slot that was not written.
  kept :
      (j : ℕ) (rest : List ℕ) (q : ℕ)
      → IsPath root (j ∷ rest)
      → table_at grown s.hhdm_offset root rest ≡ some q
      → table_at m s.hhdm_offset root rest ≡ some q
      → (path ≢ rest) ⊎ (i ≢ j)
      → Leads (j ∷ rest)
  kept j rest q ij e' e differ =
      let apart =
        paths-Disjoint s m root space path rest p q i j (IsPath-rest i path is)
          (IsPath-rest j rest ij) ((is.indices).0) ((ij.indices).0) at e differ in
      let unread = read64-write64_ne m (slot p i) word (slot q j) apart in
      inr (rw (e', e, unread) refl)

  -- Through the slot that was written.
  entered :
      (j : ℕ) (rest : List ℕ) (q : ℕ)
      → IsPath root (j ∷ rest)
      → table_at grown s.hhdm_offset root rest ≡ some q
      → table_at m s.hhdm_offset root rest ≡ some q
      → q ≡ p
      → j ≡ i
      → Leads (j ∷ rest)
  entered j rest q ij e' e same_table same_index =
      let same_path : rest ≡ path =
        space.apart rest path p (IsPath-rest j rest ij) (IsPath-rest i path is)
          (e ∙ ap some same_table) at in
      let read : read64 grown (slot q j) ≡ word =
        rw (same_table, same_index) (read64-write64 m (slot p i) word small) in
      inl (ap₂ (λ x xs. x ∷ xs) same_index same_path, rw (e', read, present, points) refl)

  step_old :
      (j : ℕ) (rest : List ℕ) (q : ℕ)
      → IsPath root (j ∷ rest)
      → table_at grown s.hhdm_offset root rest ≡ some q
      → table_at m s.hhdm_offset root rest ≡ some q
      → Leads (j ∷ rest)
  step_old j rest q ij e' e = elim (Bool-cases (q == p)) [
    | inl hit ↦ elim (Bool-cases (j == i)) [
      | inl same ↦ entered j rest q ij e' e (==→eq q p hit) (==→eq j i same)
      | inr other ↦ kept j rest q ij e' e (inr λ c. ==→ne j i other (sym c))
    ]
    | inr miss ↦ kept j rest q ij e' e (
        inl λ c.
          ==→ne q p miss (eq_of_some (sym e ∙ ap (table_at m s.hhdm_offset root) (sym c) ∙ at)))
  ]

  -- Below the new table there is nothing.
  step_new :
      (j : ℕ) (rest : List ℕ)
      → IsPath root (j ∷ rest)
      → rest ≡ i ∷ path
      → table_at grown s.hhdm_offset root rest ≡ some fresh
      → Leads (j ∷ rest)
  step_new j rest ij e new =
      let unread = read64-write64_ne m (slot p i) word (slot fresh j) (
        is_fresh.new_frame path p i j (IsPath-rest i path is) ((is.indices).0) ((ij.indices).0)
          at) in
      let nowhere = ap (table_at m s.hhdm_offset root) e ∙ led_nowhere in
      let nothing = is_fresh.empty j ((ij.indices).0) in
      inr (rw (new, nowhere, unread, nothing) refl)

  pub table_at-grow : (a : List ℕ) → IsPath root a → Leads a
  table_at-grow [] ia = inr refl
  table_at-grow (j ∷ rest) ia = elim (table_at-grow rest (IsPath-rest j rest ia)) [
    | inl (e, new) ↦ step_new j rest ia e new
    | inr old ↦ elim (Option-cases (table_at m s.hhdm_offset root rest)) [
      | inl nowhere ↦ inr (rw (old, nowhere) refl)
      | inr (q, e) ↦ step_old j rest q ia (old ∙ e) e
    ]
  ]

  not_in_tree : (a : List ℕ) → IsPath root a → table_at m s.hhdm_offset root a ≢ some fresh
  not_in_tree a ia e =
      absurd (ground (arith, is_fresh.new_frame a fresh 0 0 ia (omega arith) (omega arith) e))

  pub IsSpace-grow : IsPlaced s fresh → IsSpace s grown root
  IsSpace-grow is_placed = record {
    placed = λ a q ia e. elim (table_at-grow a ia) [
      | inl (same, new) ↦ subst (IsPlaced s) (eq_of_some (sym new ∙ e)) is_placed
      | inr old ↦ space.placed a q ia (sym old ∙ e)
    ];
    apart = λ a b q ia ib ea eb. elim (table_at-grow a ia) [
      | inl (same, new) ↦ elim (table_at-grow b ib) [
        | inl (same', new') ↦ same ∙ sym same'
        | inr old' ↦ absurd (not_in_tree b ib (sym old' ∙ eb ∙ sym ea ∙ new))
      ]
      | inr old ↦ elim (table_at-grow b ib) [
        | inl (same', new') ↦ absurd (not_in_tree a ia (sym old ∙ ea ∙ sym eb ∙ new'))
        | inr old' ↦ space.apart a b q ia ib (sym old ∙ ea) (sym old' ∙ eb)
      ]
    ];
  }

  -- The tables of the tree stay where they were.
  pub table_at-stays :
      (a : List ℕ) (q : ℕ)
      → IsPath root a
      → table_at m s.hhdm_offset root a ≡ some q
      → table_at grown s.hhdm_offset root a ≡ some q
  table_at-stays a q ia e = elim (table_at-grow a ia) [
    | inl (same, new) ↦
        absurd (none-ne-some (sym (ap (table_at m s.hhdm_offset root) same ∙ led_nowhere) ∙ e))
    | inr old ↦ old ∙ e
  ]

  pub table_at-fresh : table_at grown s.hhdm_offset root (i ∷ path) ≡ some fresh
  table_at-fresh =
      let read = read64-write64 m (slot p i) word small in
      rw (table_at-stays path p (IsPath-rest i path is) at, read, present, points) refl

  -- No translation changes.
  pub lookup-grow :
      (j : ℕ) (a : List ℕ)
      → j < 512
      → IsPath root a
      → length a ≡ 3
      → lookup grown s.hhdm_offset root (j ∷ a) ≡ lookup m s.hhdm_offset root (j ∷ a)
  lookup-grow j a lj ia deep = elim (table_at-grow a ia) [
    | inl (same, new) ↦
        let unread =
          read64-write64_ne m (slot p i) word (slot fresh j)
            (is_fresh.new_frame path p i j (IsPath-rest i path is) ((is.indices).0) lj at) in
        let nowhere = ap (table_at m s.hhdm_offset root) same ∙ led_nowhere in
        rw (new, nowhere, unread, is_fresh.empty j lj) refl
    | inr old ↦
        ap (final grown j) old
        ∙ final-frame m grown j (table_at m s.hhdm_offset root a) (λ q e.
          read64-write64_ne m (slot p i) word (slot q j) (
            paths-Disjoint s m root space path a p q i j (IsPath-rest i path is) ia ((is.indices).0)
              lj at e (inl λ c. absurd (omega (arith, deep, is.short, ap length c)))))
  ]
