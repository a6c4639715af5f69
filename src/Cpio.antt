-- ===== src/Cpio.antt =====
-- kernel/fs/cpio/cpio.c: files in an archive of the initial ram disk, in the "newc" format.
-- The string literals stand in memory at the addresses `magic` and `trailer`. The walk along the
-- archive and the comparisons run on fuel.
pub mod Field
mod Tests
use sonna_os.Prelude.{
  ℕ, zero, suc, ◌+◌, ◌-◌, ◌&&◌, bit_and, bit_or, shl, u32, add64, not32, not64, Option, none, some,
  ◌==◌, leb, if◌then◌else◌, ℤ, pos, negsuc, Bool, true, false,
}
use sonna_os.Memory.{Mem}
use sonna_os.Strings.{strcmp, strncmp}

-- The digit of a byte, `none` where the loop of `cpio_parse_hex` breaks off.
abbrev pub hex_digit : ℕ → Option ℕ
hex_digit c =
    if leb 48 c && leb c 57
    then some (c - 48)
    else if leb 97 c && leb c 102
    then some (c - 97 + 10)
    else if leb 65 c && leb c 70
    then some (c - 65 + 10)
    else none

abbrev pub or_stop : (result : ℕ) → Option ℕ → (ℕ → ℕ) → ℕ
or_stop result none rest = result
or_stop result (some digit) rest = rest (bit_or (u32 (shl result 4)) digit)

unfoldable pub parse_loop : (left : ℕ) → Mem → (field result : ℕ) → ℕ
parse_loop zero m field result = result
parse_loop (suc left) m field result =
    or_stop result (hex_digit (m field)) (parse_loop left m (field + 1))

unfoldable pub cpio_parse_hex : Mem → (field len : ℕ) → ℕ
unfolding parse_loop
cpio_parse_hex m field len = parse_loop len m field 0

-- `sizeof(cpio_header)` and the offsets of `c_filesize` and `c_namesize`.
abbrev pub header_size : ℕ
header_size = 110

abbrev pub filesize_offset : ℕ
filesize_offset = 54

abbrev pub namesize_offset : ℕ
namesize_offset = 94

-- What the lookup comes to; `out_of_fuel` is not an outcome of the code.
pub data Lookup : Type 0 where
  at : (data_at size : ℕ) → Lookup
  missing : Lookup
  out_of_fuel : Lookup

-- `strcmp(…) == 0`, `none` when the fuel runs out.
abbrev pub is_null : ℤ → Bool
is_null (pos zero) = true
is_null (pos (suc n)) = false
is_null (negsuc n) = false

abbrev pub when_equal : Option ℤ → (then_case else_case : Lookup) → Lookup
when_equal none then_case else_case = out_of_fuel
when_equal (some r) then_case else_case = if is_null r then then_case else else_case

-- The loop of `cpio_lookup` from the header at `ptr` on.
unfoldable pub lookup_loop : (fuel : ℕ) → Mem → (magic trailer path ptr : ℕ) → Lookup
unfolding cpio_parse_hex strcmp strncmp
lookup_loop zero m magic trailer path ptr = out_of_fuel
lookup_loop (suc fuel) m magic trailer path ptr =
    let namesize = cpio_parse_hex m (ptr + namesize_offset) 8 in
    let filesize = cpio_parse_hex m (ptr + filesize_offset) 8 in
    let name = ptr + header_size in
    let data_offset = bit_and (add64 (add64 header_size namesize) 3) (not64 3) in
    let padded = bit_and (u32 (filesize + 3)) (not32 3) in
    let rest = lookup_loop fuel m magic trailer path (ptr + (data_offset + padded)) in
    let found = at (ptr + data_offset) filesize in
    if is_null (strncmp m ptr magic 6)
    then when_equal (strcmp (suc fuel) m name trailer) missing
        (when_equal (strcmp (suc fuel) m name path) found rest)
    else missing

-- `cpio_lookup` of the module that starts at `address`, if there is one.
abbrev pub cpio_lookup : (fuel : ℕ) → Mem → (magic trailer path : ℕ) → Option ℕ → Lookup
cpio_lookup fuel m magic trailer path none = missing
cpio_lookup fuel m magic trailer path (some address) = lookup_loop fuel m magic trailer path address
