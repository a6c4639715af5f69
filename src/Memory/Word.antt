-- ===== src/Memory/Word.antt =====
-- 64-bit words in memory, lowest byte first.
use native.Mathlib.Nat.{pow-suc}
use sonna_os.Prelude.{
  ℕ, zero, suc, ◌+◌, ◌*◌, ◌/◌, ◌%◌, ◌^◌, ◌<◌, ◌≤◌, ◌≡◌, ◌⊎◌, refl, ◌∙◌, inl, inr, arith,
}
use sonna_os.Memory.{Mem, write}

-- The value of the `n` bytes from `p` on.
unfoldable pub bytes_value : (n : ℕ) → Mem → (p : ℕ) → ℕ
bytes_value zero m p = 0
bytes_value (suc n) m p = m p + 256 * bytes_value n m (p + 1)

unfoldable pub write_bytes : (n : ℕ) → Mem → (p v : ℕ) → Mem
unfolding write
write_bytes zero m p v = m
write_bytes (suc n) m p v = write_bytes n (write m p (v % 256)) (p + 1) (v / 256)

-- `*(uint64_t *)p`.
unfoldable pub read64 : Mem → (p : ℕ) → ℕ
unfolding bytes_value
read64 m p = bytes_value 8 m p

-- `*(uint64_t *)p = v`.
unfoldable pub write64 : Mem → (p v : ℕ) → Mem
unfolding write_bytes
write64 m p v = write_bytes 8 m p v

abbrev pub Outside : (n p a : ℕ) → Type 0
Outside n p a = (a < p) ⊎ (p + n ≤ a)

pub write_bytes-Outside :
    (n : ℕ) (m : Mem) (p v a : ℕ) → Outside n p a → write_bytes n m p v a ≡ m a
unfolding write_bytes write
write_bytes-Outside zero m p v a out = refl
write_bytes-Outside (suc n) m p v a (inl lt) =
    write_bytes-Outside n (write m p (v % 256)) (p + 1) (v / 256) a (inl (omega arith))
    ∙ ground arith
write_bytes-Outside (suc n) m p v a (inr le) =
    write_bytes-Outside n (write m p (v % 256)) (p + 1) (v / 256) a (inr (omega arith))
    ∙ ground arith

pub bytes_value-frame :
    (n : ℕ) (m m' : Mem) (p : ℕ)
    → ((a : ℕ) → p ≤ a → a < p + n → m' a ≡ m a)
    → bytes_value n m' p ≡ bytes_value n m p
unfolding bytes_value
bytes_value-frame zero m m' p same = refl
bytes_value-frame (suc n) m m' p same =
    let here = same p (omega arith) (omega arith) in
    let rest = bytes_value-frame n m m' (p + 1) (λ a le lt. same a (omega arith) (omega arith)) in
    omega (arith, here, rest)

pub bytes_value-write_bytes :
    (n : ℕ) (m : Mem) (p v : ℕ) → v < 256 ^ n → bytes_value n (write_bytes n m p v) p ≡ v
unfolding bytes_value write_bytes write
bytes_value-write_bytes zero m p v lt = omega arith
bytes_value-write_bytes (suc n) m p v lt =
    let m1 = write m p (v % 256) in
    let here = write_bytes-Outside n m1 (p + 1) (v / 256) p (inl (omega arith)) in
    let there : m1 p ≡ v % 256 = ground arith in
    let rest = bytes_value-write_bytes n m1 (p + 1) (v / 256) (omega (arith, lt, pow-suc 256 n)) in
    omega (arith, here, there, rest)

pub bytes_value-zero :
    (n : ℕ) (m : Mem) (p : ℕ) → ((a : ℕ) → p ≤ a → a < p + n → m a ≡ 0) → bytes_value n m p ≡ 0
unfolding bytes_value
bytes_value-zero zero m p null = refl
bytes_value-zero (suc n) m p null = omega (
  arith,
  null p (omega arith) (omega arith),
  bytes_value-zero n m (p + 1) (λ a le lt. null a (omega arith) (omega arith)),
)

-- Two words that share no byte.
abbrev pub Disjoint : (p q : ℕ) → Type 0
Disjoint p q = (p + 8 ≤ q) ⊎ (q + 8 ≤ p)

pub read64-write64 : (m : Mem) (p v : ℕ) → v < 2 ^ 64 → read64 (write64 m p v) p ≡ v
unfolding read64 write64
read64-write64 m p v lt = bytes_value-write_bytes 8 m p v lt

pub read64-write64_ne : (m : Mem) (p v q : ℕ) → Disjoint p q → read64 (write64 m p v) q ≡ read64 m q
unfolding read64 write64
read64-write64_ne m p v q (inl le) =
    bytes_value-frame 8 m (write_bytes 8 m p v) q
      (λ a low high. write_bytes-Outside 8 m p v a (inr (omega arith)))
read64-write64_ne m p v q (inr le) =
    bytes_value-frame 8 m (write_bytes 8 m p v) q
      (λ a low high. write_bytes-Outside 8 m p v a (inl (omega arith)))

pub write64-Outside : (m : Mem) (p v a : ℕ) → Outside 8 p a → write64 m p v a ≡ m a
unfolding write64
write64-Outside m p v a out = write_bytes-Outside 8 m p v a out

pub read64-frame :
    (m m' : Mem) (p : ℕ) → ((a : ℕ) → p ≤ a → a < p + 8 → m' a ≡ m a) → read64 m' p ≡ read64 m p
unfolding read64
read64-frame m m' p same = bytes_value-frame 8 m m' p same

pub read64-zero : (m : Mem) (p : ℕ) → ((a : ℕ) → p ≤ a → a < p + 8 → m a ≡ 0) → read64 m p ≡ 0
unfolding read64
read64-zero m p null = bytes_value-zero 8 m p null
