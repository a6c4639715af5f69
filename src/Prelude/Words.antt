-- ===== src/Prelude/Words.antt =====
-- Machine words as native numbers, with their wrap-around written out.
use sonna_os.Prelude.Tests.{leb, if◌then◌else◌}
use Prim.Native.Nat.{ℕ, ◌+◌, ◌-◌, ◌*◌, ◌/◌, ◌%◌, ◌^◌}

-- `uint64_t` and `size_t` arithmetic.
abbrev pub add64 : ℕ → ℕ → ℕ
add64 a b = (a + b) % 2 ^ 64

abbrev pub sub64 : ℕ → ℕ → ℕ
sub64 a b = (a + 2 ^ 64 - b) % 2 ^ 64

abbrev pub mul64 : ℕ → ℕ → ℕ
mul64 a b = (a * b) % 2 ^ 64

-- `~x` on 64 and on 32 bits.
abbrev pub not64 : ℕ → ℕ
not64 x = 2 ^ 64 - 1 - x

abbrev pub not32 : ℕ → ℕ
not32 x = 2 ^ 32 - 1 - x

-- The casts `(uint8_t)x` and `(uint32_t)x`.
abbrev pub u8 : ℕ → ℕ
u8 x = x % 2 ^ 8

abbrev pub u16 : ℕ → ℕ
u16 x = x % 2 ^ 16

abbrev pub u32 : ℕ → ℕ
u32 x = x % 2 ^ 32

abbrev pub u64 : ℕ → ℕ
u64 x = x % 2 ^ 64

-- `x >> k`; a left shift is written with the cast of its width, as in `u32 (shl x k)`.
abbrev pub shr : ℕ → ℕ → ℕ
shr x k = x / 2 ^ k

abbrev pub shl : ℕ → ℕ → ℕ
shl x k = x * 2 ^ k

-- `int`: the difference of two unsigned bytes.
pub data ℤ : Type 0 where
  pos negsuc : ℕ → ℤ

abbrev pub difference : ℕ → ℕ → ℤ
difference a b = if leb b a then pos (a - b) else negsuc (b - a - 1)
