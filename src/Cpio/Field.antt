-- ===== src/Cpio/Field.antt =====
-- `cpio_parse_hex` reads the number that a field of hexadecimal digits spells.
use native.Mathlib.Nat.{mul-le-mul_left, mul-le-mul_right}
use sonna_os.Prelude.{
  ℕ, zero, suc, ◌+◌, ◌*◌, ◌^◌, ◌<◌, ◌≤◌, ◌≡◌, refl, ◌∙◌, ap, Bool, true, bit_or, shl, u32, some,
  List, [], ◌∷◌, leb, leb→le, length, arith,
}
use sonna_os.Prelude.Bits.{bit_or_fields, every_below, every_below-at}
use sonna_os.Numfmt.Value.{power}
use sonna_os.Memory.{Mem}
use sonna_os.Cpio.{hex_digit, parse_loop, cpio_parse_hex}

-- The character `c` is the hexadecimal digit of value `d`: '0' to '9', 'a' to 'f' or 'A' to 'F'.
pub data IsHexDigit : (c d : ℕ) → Type 0 where
  decimal : (d : ℕ) → d < 10 → IsHexDigit (48 + d) d
  lower_case : (k : ℕ) → k < 6 → IsHexDigit (97 + k) (10 + k)
  upper_case : (k : ℕ) → k < 6 → IsHexDigit (65 + k) (10 + k)

-- From `p` on stand hexadecimal digits with the values `ds`.
abbrev pub HexText : Mem → (p : ℕ) → List ℕ → Type 0
HexText m p [] = Unit
HexText m p (d ∷ ds) = IsHexDigit (m p) d × HexText m (p + 1) ds

abbrev pub hex_number : (acc : ℕ) → List ℕ → ℕ
hex_number acc [] = acc
hex_number acc (d ∷ ds) = hex_number (acc * 16 + d) ds

hex_digit-IsHexDigit : (c d : ℕ) → IsHexDigit c d → (hex_digit c ≡ some d) × (d < 16)
hex_digit-IsHexDigit _ _ (decimal d lt) = (ground arith, omega arith)
hex_digit-IsHexDigit _ _ (lower_case k lt) = (ground arith, omega arith)
hex_digit-IsHexDigit _ _ (upper_case k lt) = (ground arith, omega arith)

power-positive : (k : ℕ) → 1 ≤ power 16 k
power-positive zero = omega arith
power-positive (suc k) = omega (arith, power-positive k)

room_left :
    (acc d P : ℕ)
    → d < 16
    → 1 ≤ P
    → (acc + 1) * (P * 16) ≤ 2 ^ 32
    → ((acc * 16 + d + 1) * P ≤ 2 ^ 32) × (acc * 16 + 16 ≤ 2 ^ 32)
room_left acc d P lt one room =
    let digit : acc * 16 + d + 1 ≤ (acc + 1) * 16 = omega arith in
    (
      omega (arith, room, mul-le-mul_right P digit),
      omega (arith, room, mul-le-mul_left ((acc + 1) * 16) one),
    )

abbrev fits_word : ℕ → Bool
fits_word k = leb (power 16 k) (2 ^ 32)

all_fit : every_below 9 fits_word ≡ true
unfolding every_below
all_fit = refl

parse_loop-number :
    (m : Mem) (p acc : ℕ) (ds : List ℕ)
    → (acc + 1) * power 16 (length ds) ≤ 2 ^ 32
    → HexText m p ds
    → parse_loop (length ds) m p acc ≡ hex_number acc ds
unfolding parse_loop
parse_loop-number m p acc [] room text = refl
parse_loop-number m p acc (d ∷ ds) room (is, text) =
    let (e, low) = hex_digit-IsHexDigit (m p) d is in
    let (room', fits) =
      room_left acc d (power 16 (length ds)) low (power-positive (length ds)) room in
    let joined : bit_or (u32 (shl acc 4)) d ≡ acc * 16 + d =
      ap (λ x. bit_or x d) (omega arith) ∙ bit_or_fields 4 acc d low in
    rw (e, joined) (parse_loop-number m (p + 1) (acc * 16 + d) ds room' text)

-- For a field of at most eight hexadecimal digits, each one of the characters 0 to 9, a to f or
-- A to F, cpio_parse_hex gives the number that they spell to the base 16, without a wrap.
pub cpio_parse_hex-number :
    (m : Mem) (p : ℕ) (ds : List ℕ)
    → length ds ≤ 8
    → HexText m p ds
    → cpio_parse_hex m p (length ds) ≡ hex_number 0 ds
unfolding cpio_parse_hex
cpio_parse_hex-number m p ds short text =
    parse_loop-number m p 0 ds
      (omega (
        arith,
        leb→le (power 16 (length ds)) (2 ^ 32)
            (every_below-at 9 fits_word (length ds) all_fit (omega arith)),
      ))
      text
