-- ===== src/Memory/Copy.antt =====
-- Where the copied and the filled bytes end up.
use sonna_os.Prelude.{
  ℕ, zero, suc, ◌+◌, ◌-◌, ◌≤◌, ◌≡◌, refl, ap, ◌⊎◌, inl, inr, Bool, Bool-cases, ◌&&◌, ltb, leb,
  if◌then◌else◌, ltb→lt, u8, arith,
}
use sonna_os.Memory.{Mem, write, copy_up, copy_down, memcpy, memmove, memset_loop, memset}

-- `a` is one of the `n` addresses from `p` on.
abbrev pub within : (p n a : ℕ) → Bool
within p n a = leb p a && ltb a (p + n)

pub copy_up-at :
    (left : ℕ) (m : Mem) (dest src i a : ℕ)
    → (dest ≤ src) ⊎ (src + (i + left) ≤ dest)
    → copy_up left m dest src i a ≡ (if within (dest + i) left a then m (src + (a - dest)) else m a)
unfolding copy_up write
copy_up-at zero m dest src i a apart = ground arith
copy_up-at (suc left) m dest src i a (inl le) =
    ground
      (arith, le, copy_up-at left (write m (dest + i) (m (src + i))) dest src (i + 1) a (inl le))
copy_up-at (suc left) m dest src i a (inr le) = ground (
  arith,
  le,
  copy_up-at left (write m (dest + i) (m (src + i))) dest src (i + 1) a (inr (omega arith)),
)

pub copy_down-at :
    (i : ℕ) (m : Mem) (dest src a : ℕ)
    → src ≤ dest
    → copy_down i m dest src a ≡ (if within dest i a then m (src + (a - dest)) else m a)
unfolding copy_down write
copy_down-at zero m dest src a le = ground arith
copy_down-at (suc i) m dest src a le =
    ground (arith, le, copy_down-at i (write m (dest + i) (m (src + i))) dest src a le)

memmove-none :
    (m : Mem) (dest src n a : ℕ)
    → dest ≡ src
    → m a ≡ (if within dest n a then m (src + (a - dest)) else m a)
memmove-none m dest src n a same = elim (Bool-cases (within dest n a)) [
  | inl there ↦ rw there (ap m (ground arith))
  | inr elsewhere ↦ rw elsewhere refl
]

-- memmove copies the bytes that the source held before, whether the two runs overlap or not and
-- on either side, and changes no other byte.
pub memmove-at :
    (m : Mem) (dest src n a : ℕ)
    → memmove m dest src n a ≡ (if within dest n a then m (src + (a - dest)) else m a)
unfolding memmove
memmove-at m dest src n a = elim (Bool-cases (ltb dest src)) [
  | inl up ↦
      rw up (ground (arith, copy_up-at n m dest src 0 a (inl (omega (arith, ltb→lt dest src up)))))
  | inr not_up ↦ elim (Bool-cases (ltb src dest)) [
    | inl down ↦
        rw (not_up, down) (copy_down-at n m dest src a (omega (arith, ltb→lt src dest down)))
    | inr same ↦ rw (not_up, same) (memmove-none m dest src n a (ground arith))
  ]
]

-- memcpy does what memmove does on runs that do not overlap.
pub memcpy-memmove :
    (m : Mem) (dest src n a : ℕ)
    → (dest + n ≤ src) ⊎ (src + n ≤ dest)
    → memcpy m dest src n a ≡ memmove m dest src n a
unfolding memcpy
memcpy-memmove m dest src n a (inl le) =
    ground (arith, le, copy_up-at n m dest src 0 a (inl (omega arith)), memmove-at m dest src n a)
memcpy-memmove m dest src n a (inr le) =
    ground (arith, le, copy_up-at n m dest src 0 a (inr (omega arith)), memmove-at m dest src n a)

memset_loop-at :
    (left : ℕ) (m : Mem) (s c i a : ℕ)
    → memset_loop left m s c i a ≡ (if within (s + i) left a then u8 c else m a)
unfolding memset_loop write
memset_loop-at zero m s c i a = ground arith
memset_loop-at (suc left) m s c i a =
    ground (arith, memset_loop-at left (write m (s + i) (u8 c)) s c (i + 1) a)

-- memset stores the low byte of its value at each of the n addresses and changes no other byte.
pub memset-at : (m : Mem) (s c n a : ℕ) → memset m s c n a ≡ (if within s n a then u8 c else m a)
unfolding memset
memset-at m s c n a = ground (arith, memset_loop-at n m s c 0 a)
