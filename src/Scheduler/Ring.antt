-- ===== src/Scheduler/Ring.antt =====
-- The run queue as a list: the tasks that the `next` pointers lead through, in order.
use sonna_os.Prelude.{
  ◌≡◌, ◌≢◌, refl, Bool, true, false, ◌||◌, List, [], ◌∷◌, ◌++◌, ◌==◌, Bool-cases, inl, inr, arith,
}
use sonna_os.Scheduler.{Tasks, Ptr}

abbrev pub has : Ptr → List Ptr → Bool
has a [] = false
has a (p ∷ ps) = (a == p) || has a ps

-- From `p` the `next` pointers lead through the non-NULL addresses `ps` to `stop`.
abbrev pub Chain : Tasks → (stop p : Ptr) → List Ptr → Type 0
Chain tasks stop p [] = p ≡ stop
Chain tasks stop p (q ∷ qs) = (p ≡ q) × (q ≢ 0) × Chain tasks stop (tasks q).next qs

abbrev pub Distinct : List Ptr → Type 0
Distinct [] = Unit
Distinct (p ∷ ps) = (has p ps ≡ false) × Distinct ps

-- `ps` is the run queue from `head`: a cycle of distinct tasks.
pub record IsRing (tasks : Tasks) (head : Ptr) (ps : List Ptr) : Type 0 where
  pub chain : Chain tasks head head ps
  pub distinct : Distinct ps

pub has-append : (a : Ptr) (ps qs : List Ptr) → has a (ps ++ qs) ≡ (has a ps || has a qs)
has-append a [] qs = refl
has-append a (p ∷ ps) qs = ground (arith, has-append a ps qs)

-- A chain depends on the `next` pointers of its own tasks only.
pub Chain-frame :
    (tasks tasks' : Tasks) (stop p : Ptr) (ps : List Ptr)
    → ((a : Ptr) → has a ps ≡ true → (tasks' a).next ≡ (tasks a).next)
    → Chain tasks stop p ps
    → Chain tasks' stop p ps
Chain-frame tasks tasks' stop p [] same chain = chain
Chain-frame tasks tasks' stop p (q ∷ qs) same (e, ne, chain) = (
  e,
  ne,
  rw (same q (ground arith))
      (Chain-frame tasks tasks' stop (tasks q).next qs (λ a h. same a (ground arith)) chain),
)

pub Chain-append :
    (tasks : Tasks) (mid stop p : Ptr) (ps qs : List Ptr)
    → Chain tasks mid p ps
    → Chain tasks stop mid qs
    → Chain tasks stop p (ps ++ qs)
Chain-append tasks mid stop p [] qs e chain = rw e chain
Chain-append tasks mid stop p (a ∷ ps) qs (e, ne, rest) chain =
    (e, ne, Chain-append tasks mid stop (tasks a).next ps qs rest chain)

-- A chain through `ps ++ q ∷ qs` passes `q`.
pub Chain-split :
    (tasks : Tasks) (stop p q : Ptr) (ps qs : List Ptr)
    → Chain tasks stop p (ps ++ q ∷ qs)
    → Chain tasks q p ps × Chain tasks stop q (q ∷ qs)
Chain-split tasks stop p q [] qs (e, ne, rest) = (e, (refl, ne, rest))
Chain-split tasks stop p q (a ∷ ps) qs (e, ne, rest) =
    let (front, back) = Chain-split tasks stop (tasks a).next q ps qs rest in ((e, ne, front), back)

pub Distinct-split :
    (ps qs : List Ptr)
    → Distinct (ps ++ qs)
    → Distinct ps × Distinct qs × ((a : Ptr) → has a ps ≡ true → has a qs ≡ false)
Distinct-split [] qs d = (tt, d, λ a h. absurd (ground arith))
Distinct-split (p ∷ ps) qs (out, d) =
    let (dp, dq, apart) = Distinct-split ps qs d in
    (
      (ground (arith, has-append p ps qs), dp),
      dq,
      λ a h. ground (arith, has-append p ps qs, apart a),
    )

pub Distinct-append :
    (ps qs : List Ptr)
    → Distinct ps
    → Distinct qs
    → ((a : Ptr) → has a ps ≡ true → has a qs ≡ false)
    → Distinct (ps ++ qs)
Distinct-append [] qs dp dq apart = dq
Distinct-append (p ∷ ps) qs (out, dp) dq apart = (
  ground (arith, has-append p ps qs, apart p),
  Distinct-append ps qs dp dq (λ a h. apart a (ground arith)),
)

-- The queue may be read from any of its tasks.
pub IsRing-rotate :
    (tasks : Tasks) (head q : Ptr) (ps qs : List Ptr)
    → IsRing tasks head (ps ++ q ∷ qs)
    → IsRing tasks q ((q ∷ qs) ++ ps)
IsRing-rotate tasks head q ps qs ring =
    let (front, back) = Chain-split tasks head head q ps qs ring.chain in
    let (dp, dq, apart) = Distinct-split ps (q ∷ qs) ring.distinct in
    record {
      chain = Chain-append tasks head q q (q ∷ qs) ps back front;
      distinct = Distinct-append (q ∷ qs) ps dq dp λ a h. elim (Bool-cases (has a ps)) [
        | inl both ↦ absurd (ground (arith, apart a))
        | inr fine ↦ fine
      ];
    }
