-- ===== src/Numfmt.antt =====
-- userspace/lib/numfmt.c: numbers as text without a closing NUL, in the bases 2 to 16.
-- The result is the returned length and the memory; `none` is a write behind the 32 bytes of `tmp`.
pub mod Value
mod Tests
use sonna_os.Prelude.{
  ℕ, zero, suc, ◌+◌, ◌-◌, ◌/◌, ◌%◌, ◌^◌, ◌||◌, Option, none, some, List, [], ◌∷◌, ◌==◌, ltb,
  if◌then◌else◌, length, get_or,
}
use sonna_os.Memory.{Mem, write}
use sonna_os.Strings.{write_all}

-- The `digits` of `utoa_base`.
abbrev pub lower_digits : List ℕ
lower_digits = 48 ∷ 49 ∷ 50 ∷ 51 ∷ 52 ∷ 53 ∷ 54 ∷ 55 ∷ 56 ∷ 57 ∷ 97 ∷ 98 ∷ 99 ∷ 100 ∷ 101 ∷ 102 ∷ []

-- The first loop with room for `left` bytes in `tmp`, the last byte stored first in the list, in
-- which order the second loop copies them.
unfoldable pub utoa_loop : (left : ℕ) → (value base : ℕ) → (tmp : List ℕ) → Option (List ℕ)
utoa_loop zero value base tmp = if value == 0 then some tmp else none
utoa_loop (suc left) value base tmp =
    let rest = utoa_loop left (value / base) base (get_or lower_digits (value % base) 0 ∷ tmp) in
    if value == 0 then some tmp else rest

abbrev pub copied : Mem → (buf : ℕ) → Option (List ℕ) → Option (ℕ × Mem)
copied m buf none = none
copied m buf (some cs) = some (length cs, write_all m buf cs)

unfoldable pub utoa_base : (value : ℕ) → Mem → (buf base : ℕ) → Option (ℕ × Mem)
unfolding write utoa_loop
utoa_base value m buf base =
    let cs = utoa_loop 32 value base [] in
    if ltb base 2 || ltb 16 base
    then some (0, write m buf 0)
    else if value == 0
    then some (1, write m buf 48)
    else copied m buf cs

abbrev longer : Option (ℕ × Mem) → Option (ℕ × Mem)
longer none = none
longer (some (len, m)) = some (1 + len, m)

-- `itoa_signed` of the `long` with the 64 bits `value`.
unfoldable pub itoa_signed : (value : ℕ) → Mem → (buf : ℕ) → Option (ℕ × Mem)
unfolding write utoa_base
itoa_signed value m buf =
    if ltb value (2 ^ 63)
    then utoa_base value m buf 10
    else longer (utoa_base (2 ^ 64 - value) (write m buf 45) (buf + 1) 10)
