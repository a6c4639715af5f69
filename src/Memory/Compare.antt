-- ===== src/Memory/Compare.antt =====
-- `memcmp` orders two runs of bytes by their first difference.
use sonna_os.Prelude.{
  ℕ, zero, suc, ◌+◌, ◌<◌, ◌≤◌, ◌≡◌, ◌⊎◌, inl, inr, Bool-cases, ◌==◌, ltb, ltb→lt, ==→eq, arith,
}
use sonna_os.Memory.{Mem, Sign, minus_one, null, one, memcmp_loop, memcmp}

-- What `memcmp` may answer on the bytes with the offsets `i … i + left - 1`.
pub data Compared (m : Mem) (s1 s2 i left : ℕ) : Sign → Type 0 where
  same : ((o : ℕ) → i ≤ o → o < i + left → m (s1 + o) ≡ m (s2 + o)) → Compared m s1 s2 i left null
  below :
      (at : ℕ)
      → i ≤ at
      → at < i + left
      → ((o : ℕ) → i ≤ o → o < at → m (s1 + o) ≡ m (s2 + o))
      → m (s1 + at) < m (s2 + at)
      → Compared m s1 s2 i left minus_one
  above :
      (at : ℕ)
      → i ≤ at
      → at < i + left
      → ((o : ℕ) → i ≤ o → o < at → m (s1 + o) ≡ m (s2 + o))
      → m (s2 + at) < m (s1 + at)
      → Compared m s1 s2 i left one

equal_at : (m : Mem) (s1 s2 i o : ℕ) → o ≡ i → m (s1 + i) ≡ m (s2 + i) → m (s1 + o) ≡ m (s2 + o)
equal_at m s1 s2 i o e h = rw e h

i_or_later : (i o : ℕ) → i ≤ o → (o ≡ i) ⊎ (i + 1 ≤ o)
i_or_later i o le = ground arith

extend :
    (m : Mem) (s1 s2 i bound : ℕ)
    → m (s1 + i) ≡ m (s2 + i)
    → ((o : ℕ) → i + 1 ≤ o → o < bound → m (s1 + o) ≡ m (s2 + o))
    → (o : ℕ) → i ≤ o
    → o < bound
    → m (s1 + o) ≡ m (s2 + o)
extend m s1 s2 i bound here later o le lt = elim (i_or_later i o le) [
  | inl e ↦ equal_at m s1 s2 i o e here
  | inr more ↦ later o more lt
]

Compared-extend :
    (m : Mem) (s1 s2 i left : ℕ) (r : Sign)
    → m (s1 + i) ≡ m (s2 + i)
    → Compared m s1 s2 (i + 1) left r
    → Compared m s1 s2 i (suc left) r
Compared-extend m s1 s2 i left null here (same later) =
    same (λ o le lt. extend m s1 s2 i (i + 1 + left) here later o le (omega arith))
Compared-extend m s1 s2 i left minus_one here (below at le lt later less) =
    below at (omega arith) (omega arith) (extend m s1 s2 i at here later) less
Compared-extend m s1 s2 i left one here (above at le lt later more) =
    above at (omega arith) (omega arith) (extend m s1 s2 i at here later) more

memcmp_loop-Compared :
    (left : ℕ) (m : Mem) (s1 s2 i : ℕ) → Compared m s1 s2 i left (memcmp_loop left m s1 s2 i)
unfolding memcmp_loop
memcmp_loop-Compared zero m s1 s2 i = same (λ o le lt. absurd (omega arith))
memcmp_loop-Compared (suc left) m s1 s2 i = elim (Bool-cases (m (s1 + i) == m (s2 + i))) [
  | inl here ↦ rw here (
      Compared-extend m s1 s2 i left (memcmp_loop left m s1 s2 (i + 1))
        (==→eq (m (s1 + i)) (m (s2 + i)) here) (memcmp_loop-Compared left m s1 s2 (i + 1)))
  | inr differ ↦ elim (Bool-cases (ltb (m (s1 + i)) (m (s2 + i)))) [
    | inl less ↦
        rw (differ, less)
          (below i (omega arith) (omega arith) (λ o le lt. absurd (omega arith)) (ltb→lt _ _ less))
    | inr more ↦
        rw (differ, more)
          (above i (omega arith) (omega arith) (λ o le lt. absurd (omega arith)) (ground arith))
  ]
]

-- memcmp gives 0 when all n bytes agree, and otherwise -1 or 1 by the first pair of bytes that
-- differ.
pub memcmp-Compared : (m : Mem) (s1 s2 n : ℕ) → Compared m s1 s2 0 n (memcmp m s1 s2 n)
unfolding memcmp
memcmp-Compared m s1 s2 n = memcmp_loop-Compared n m s1 s2 0
