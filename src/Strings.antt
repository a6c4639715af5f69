-- ===== src/Strings.antt =====
-- kernel/klib/string.c, and the `strlen`, `strcmp` of userspace/lib/string.c: C strings in memory.
-- A walk to the end of a string runs on fuel; `Strings.Text` shows how much is enough.
pub mod Text
pub mod Decimal
mod Tests
use sonna_os.Prelude.{
  ℕ, zero, suc, ◌+◌, ◌*◌, ◌/◌, ◌%◌, ◌-◌, bit_and, shr, Bool, not, ◌&&◌, Option, none, some, List,
  [], ◌∷◌, ◌==◌, if◌then◌else◌, length, get_or, u8, ℤ, pos, difference,
}
use sonna_os.Memory.{Mem, write}

unfoldable pub strlen_loop : (fuel : ℕ) → Mem → (s len : ℕ) → Option ℕ
strlen_loop zero m s len = none
strlen_loop (suc fuel) m s len =
    let rest = strlen_loop fuel m s (len + 1) in if m (s + len) == 0 then some len else rest

unfoldable pub strlen : (fuel : ℕ) → Mem → (s : ℕ) → Option ℕ
unfolding strlen_loop
strlen fuel m s = if s == 0 then some 0 else strlen_loop fuel m s 0

-- `while (*end != '\0') end++;`
unfoldable pub find_end : (fuel : ℕ) → Mem → (end : ℕ) → Option ℕ
find_end zero m end = none
find_end (suc fuel) m end =
    let rest = find_end fuel m (end + 1) in if m end == 0 then some end else rest

-- The copying loop of `strcat` and its closing write.
unfoldable pub append_loop : (fuel : ℕ) → Mem → (end src : ℕ) → Option Mem
unfolding write
append_loop zero m end src = none
append_loop (suc fuel) m end src =
    let rest = append_loop fuel (write m end (m src)) (end + 1) (src + 1) in
    if m src == 0 then some (write m end 0) else rest

abbrev append_at : (fuel : ℕ) → Mem → (src : ℕ) → Option ℕ → Option Mem
append_at fuel m src none = none
append_at fuel m src (some end) = append_loop fuel m end src

unfoldable pub strcat : (fuel : ℕ) → Mem → (dest src : ℕ) → Option Mem
unfolding find_end append_loop
strcat fuel m dest src = append_at fuel m src (find_end fuel m dest)

unfoldable pub strcmp : (fuel : ℕ) → Mem → (s1 s2 : ℕ) → Option ℤ
strcmp zero m s1 s2 = none
strcmp (suc fuel) m s1 s2 =
    let rest = strcmp fuel m (s1 + 1) (s2 + 1) in
    if not (m s1 == 0) && (m s1 == m s2) then rest else some (difference (m s1) (m s2))

unfoldable pub strncmp : Mem → (s1 s2 n : ℕ) → ℤ
strncmp m s1 s2 zero = pos 0
strncmp m s1 s2 (suc n) =
    let rest = strncmp m (s1 + 1) (s2 + 1) n in
    if not (m s1 == 0) && (m s1 == m s2) then rest else difference (m s1) (m s2)

-- Bytes stored one after the other from `p` on.
unfoldable pub write_all : Mem → (p : ℕ) → List ℕ → Mem
unfolding write
write_all m p [] = m
write_all m p (c ∷ cs) = write_all (write m p c) (p + 1) cs

-- The `digits` of `u64_to_hex`.
abbrev pub hex_digits : List ℕ
hex_digits = 48 ∷ 49 ∷ 50 ∷ 51 ∷ 52 ∷ 53 ∷ 54 ∷ 55 ∷ 56 ∷ 57 ∷ 65 ∷ 66 ∷ 67 ∷ 68 ∷ 69 ∷ 70 ∷ []

-- The loop of `u64_to_hex` with `left` rounds to go, so `i = 16 - left` and `shift = 4 * (left - 1)`.
unfoldable pub hex_loop : (left : ℕ) → (value : ℕ) → Mem → (buffer : ℕ) → Mem
unfolding write
hex_loop zero value m buffer = m
hex_loop (suc left) value m buffer =
    hex_loop left value
      (write m (buffer + 2 + (15 - left)) (get_or hex_digits (bit_and (shr value (left * 4)) 15) 0))
      buffer

unfoldable pub u64_to_hex : (value : ℕ) → Mem → (buffer : ℕ) → Mem
unfolding write hex_loop
u64_to_hex value m buffer =
    let prefixed = write (write m buffer 48) (buffer + 1) 120 in
    write (hex_loop 16 value prefixed buffer) (buffer + 18) 0

-- The first loop of `u64_to_dec`, while `value > 0 && idx < 21`; `temp` is the list of the bytes
-- `temp[idx-1] … temp[0]`, which the second loop stores in that order, and `left` is `21 - idx`.
unfoldable pub dec_loop : (left : ℕ) → (value : ℕ) → (temp : List ℕ) → List ℕ
dec_loop zero value temp = temp
dec_loop (suc left) value temp =
    let rest = dec_loop left (value / 10) (u8 (48 + value % 10) ∷ temp) in
    if value == 0 then temp else rest

unfoldable pub u64_to_dec : (value : ℕ) → Mem → (buffer : ℕ) → Mem
unfolding write write_all dec_loop
u64_to_dec value m buffer =
    let digits = dec_loop 21 value [] in
    if value == 0
    then write (write m buffer 48) (buffer + 1) 0
    else write (write_all m buffer digits) (buffer + length digits) 0
