-- ===== src/Memory.antt =====
-- kernel/klib/memory.c: copying, filling and comparing bytes of memory, and `memset` of
-- userspace/lib/string.c. Addresses within an object do not wrap, so they are plain sums.
pub mod Copy
pub mod Compare
pub mod Word
mod Tests
use sonna_os.Prelude.{ℕ, zero, suc, ◌+◌, Bool, ◌==◌, ltb, if◌then◌else◌, u8}

-- The byte at each address.
abbrev pub Mem : Type 0
Mem = ℕ → ℕ

unfoldable pub write : Mem → (p v : ℕ) → Mem
write m p v q = if q == p then v else m q

-- The loop of `memcpy`, and of `memmove` when the source is behind.
unfoldable pub copy_up : (left : ℕ) → Mem → (dest src i : ℕ) → Mem
unfolding write
copy_up zero m dest src i = m
copy_up (suc left) m dest src i = copy_up left (write m (dest + i) (m (src + i))) dest src (i + 1)

-- The loop of `memmove` when the source is before, from `i` down.
unfoldable pub copy_down : (i : ℕ) → Mem → (dest src : ℕ) → Mem
unfolding write
copy_down zero m dest src = m
copy_down (suc i) m dest src = copy_down i (write m (dest + i) (m (src + i))) dest src

unfoldable pub memcpy : Mem → (dest src n : ℕ) → Mem
unfolding copy_up
memcpy m dest src n = copy_up n m dest src 0

unfoldable pub memmove : Mem → (dest src n : ℕ) → Mem
unfolding copy_up copy_down
memmove m dest src n =
    if ltb dest src
    then copy_up n m dest src 0
    else if ltb src dest
    then copy_down n m dest src
    else m

unfoldable pub memset_loop : (left : ℕ) → Mem → (s c i : ℕ) → Mem
unfolding write
memset_loop zero m s c i = m
memset_loop (suc left) m s c i = memset_loop left (write m (s + i) (u8 c)) s c (i + 1)

unfoldable pub memset : Mem → (s c n : ℕ) → Mem
unfolding memset_loop
memset m s c n = memset_loop n m s c 0

-- What `memcmp` returns: -1, 0 or 1.
pub data Sign : Type 0 where
  minus_one null one : Sign

unfoldable pub memcmp_loop : (left : ℕ) → Mem → (s1 s2 i : ℕ) → Sign
memcmp_loop zero m s1 s2 i = null
memcmp_loop (suc left) m s1 s2 i =
    let rest = memcmp_loop left m s1 s2 (i + 1) in
    if m (s1 + i) == m (s2 + i)
    then rest
    else if ltb (m (s1 + i)) (m (s2 + i))
    then minus_one
    else one

unfoldable pub memcmp : Mem → (s1 s2 n : ℕ) → Sign
unfolding memcmp_loop
memcmp m s1 s2 n = memcmp_loop n m s1 s2 0
