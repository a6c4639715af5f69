-- ===== src/Numfmt/Value.antt =====
-- What `utoa_base` writes reads back as its value.
use native.Mathlib.Nat.{div-lt_iff_lt-mul, mod-lt, mod-add-div', mul-le-mul}
use sonna_os.Prelude.{
  ℕ, zero, suc, ◌+◌, ◌-◌, ◌*◌, ◌/◌, ◌%◌, ◌^◌, ◌<◌, ◌≤◌, ◌≡◌, refl, ◌∙◌, ap, ◌||◌, inl, inr, Bool,
  Bool-cases, true, false, some, List, [], ◌∷◌, ◌==◌, leb, ltb, if◌then◌else◌, length, get_or,
  ==→eq, arith,
}
use sonna_os.Prelude.Bits.{every_below, every_below-at}
use sonna_os.Memory.{Mem, write}
use sonna_os.Strings.{write_all}
use sonna_os.Numfmt.{lower_digits, utoa_loop, copied, utoa_base}

abbrev pub digit_value : ℕ → ℕ
digit_value c = if leb 97 c then c - 87 else c - 48

-- The value of digits in a base, read after `acc`.
abbrev pub value_in : (base acc : ℕ) → List ℕ → ℕ
value_in base acc [] = acc
value_in base acc (c ∷ cs) = value_in base (acc * base + digit_value c) cs

abbrev pub power : (base k : ℕ) → ℕ
power base zero = 1
power base (suc k) = power base k * base

abbrev reads_back : ℕ → Bool
reads_back d = digit_value (get_or lower_digits d 0) == d

all_read_back : every_below 16 reads_back ≡ true
unfolding every_below
all_read_back = refl

digit_value-lower : (d : ℕ) → d < 16 → digit_value (get_or lower_digits d 0) ≡ d
digit_value-lower d lt =
    ==→eq (digit_value (get_or lower_digits d 0)) d
      (every_below-at 16 reads_back d all_read_back lt)

smaller : (v base bound : ℕ) → 0 < base → v < bound * base → v / base < bound
smaller v base bound positive lt = (div-lt_iff_lt-mul positive).1 lt

back : (v base : ℕ) → (v / base) * base + v % base ≡ v
back v base = omega (arith, mod-add-div' v base)

-- The loop's digits, given room for as many as the value has.
utoa_loop-value :
    (left v base : ℕ) (tmp : List ℕ)
    → 2 ≤ base
    → base ≤ 16
    → v < power base left
    → (cs : List ℕ) × (utoa_loop left v base tmp ≡ some cs)
      × (value_in base 0 cs ≡ value_in base v tmp)
unfolding utoa_loop
utoa_loop-value zero v base tmp low high lt =
    let null : v ≡ 0 = omega arith in (tmp, rw null refl, rw null refl)
utoa_loop-value (suc left) v base tmp low high lt =
    let positive : 0 < base = omega arith in
    let digit = digit_value-lower (v % base) (omega (arith, high, mod-lt v positive)) in
    let (cs, run, value) =
      utoa_loop-value left (v / base) base (get_or lower_digits (v % base) 0 ∷ tmp) low high
        (smaller v base (power base left) positive lt) in
    elim (Bool-cases (v == 0)) [
      | inl null ↦ (tmp, rw null refl, rw (==→eq v 0 null) refl)
      | inr more ↦ (cs, rw more run, value ∙ ap (λ x. value_in base x tmp) (rw digit (back v base)))
    ]

power_base-le : (base k : ℕ) → 4 ≤ base → power 4 k ≤ power base k
power_base-le base zero le = omega arith
power_base-le base (suc k) le = mul-le-mul (power_base-le base k le) le

utoa_base-positive :
    (v : ℕ) (m : Mem) (buf base : ℕ)
    → (ltb base 2 || ltb 16 base) ≡ false
    → (v == 0) ≡ false
    → utoa_base v m buf base ≡ copied m buf (utoa_loop 32 v base [])
unfolding utoa_base
utoa_base-positive v m buf base good more =
    ap
      (λ b.
        if b
        then some (0, write m buf 0)
        else if v == 0
        then some (1, write m buf 48)
        else copied m buf (utoa_loop 32 v base []))
      good
    ∙ ap (λ b. if b then some (1, write m buf 48) else copied m buf (utoa_loop 32 v base [])) more

utoa_base-zero :
    (v : ℕ) (m : Mem) (buf base : ℕ)
    → (ltb base 2 || ltb 16 base) ≡ false
    → (v == 0) ≡ true
    → utoa_base v m buf base ≡ some (1, write_all m buf (48 ∷ []))
unfolding utoa_base write_all
utoa_base-zero v m buf base good null = rw (good, null) refl

-- A numeral of a value other than 0 has a digit.
some_digit :
    (base : ℕ) (cs : List ℕ) (v : ℕ) → value_in base 0 cs ≡ v → (v == 0) ≡ false → 0 < length cs
some_digit base [] v value more = absurd (ground arith)
some_digit base (c ∷ cs) v value more = omega arith

-- For a 64-bit value and a base from 4 to 16, utoa_base does not overrun its local buffer, and
-- the digits that it stores and counts, at least one, read back in that base as the value.
pub utoa_base-value_in :
    (v : ℕ) (m : Mem) (buf base : ℕ)
    → v < 2 ^ 64
    → 4 ≤ base
    → base ≤ 16
    → (cs : List ℕ) × (utoa_base v m buf base ≡ some (length cs, write_all m buf cs))
      × (value_in base 0 cs ≡ v)
      × (0 < length cs)
utoa_base-value_in v m buf base small low high =
    let good : (ltb base 2 || ltb 16 base) ≡ false = ground arith in
    let room = power_base-le base 32 low in
    let enough : v < power base 32 = omega (arith, small, room) in
    elim (Bool-cases (v == 0)) [
      | inl null ↦ (
        48 ∷ [],
        utoa_base-zero v m buf base good null,
        omega (arith, ==→eq v 0 null),
        omega arith,
      )
      | inr more ↦
          let (cs, run, value) = utoa_loop-value 32 v base [] (omega arith) high enough in
          (
            cs,
            utoa_base-positive v m buf base good more ∙ ap (copied m buf) run,
            value,
            some_digit base cs v value more,
          )
    ]
