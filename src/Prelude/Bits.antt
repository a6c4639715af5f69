-- ===== src/Prelude/Bits.antt =====
-- Laws of `bit_and` and `bit_or`: the lowest digit, masks, and disjoint fields, at every width;
-- and properties of a byte by checking every value.
use Prim.Native.Nat.{
  ℕ, zero, suc, ◌+◌, ◌-◌, ◌*◌, ◌/◌, ◌%◌, ◌^◌, ◌≤◌, ◌<◌, min, max, bit_and, bit_or, digits, bitwise,
  bit_and-bitwise, bit_or-bitwise,
}
use mathlib.Core.Path.{◌≡◌, refl, sym, ap, ◌∙◌}
use mathlib.Core.Bool.{Bool, true, ◌&&◌}
use native.Mathlib.Nat.{
  le_refl, pow-suc, one-le-pow, div-div-eq-div-mul, mod-eq-sub-div-mul, div-mul-le_self,
}
use native.Mathlib.Omega.{arith}

-- The test holds of every number below the bound.
unfoldable pub every_below : ℕ → (ℕ → Bool) → Bool
every_below zero test = true
every_below (suc bound) test = every_below bound test && test bound

pub every_below-at :
    (bound : ℕ) (test : ℕ → Bool) (k : ℕ)
    → every_below bound test ≡ true
    → k < bound
    → test k ≡ true
unfolding every_below
every_below-at zero test k all small = absurd (omega arith)
every_below-at (suc bound) test k all small = ground (arith, every_below-at bound test k)

module _ (rest : ℕ → ℕ) (join : ℕ → ℕ → ℕ) where
  -- Any two amounts of fuel that the first operand does not exceed give the same digits.
  same_digits :
      (x y fuel spare : ℕ)
      → x ≤ spare
      → x ≤ fuel
      → digits rest join fuel x y ≡ digits rest join spare x y
  same_digits zero y zero zero low high = refl
  same_digits zero y zero (suc spare) low high = refl
  same_digits zero y (suc fuel) zero low high = refl
  same_digits zero y (suc fuel) (suc spare) low high = refl
  same_digits (suc x) y zero spare low high = absurd (omega arith)
  same_digits (suc x) y (suc fuel) zero low high = absurd (omega arith)
  same_digits (suc x) y (suc fuel) (suc spare) low high =
      ap (λ (t : ℕ). t * 2 + join (suc x % 2) (y % 2))
        (same_digits (suc x / 2) (y / 2) fuel spare (omega arith) (omega arith))

  lowest_digit :
      (x y : ℕ)
      → bitwise rest join (suc x) y
        ≡ bitwise rest join (suc x / 2) (y / 2) * 2 + join (suc x % 2) (y % 2)
  lowest_digit x y =
      ap (λ (t : ℕ). t * 2 + join (suc x % 2) (y % 2))
        (same_digits (suc x / 2) (y / 2) x (suc x / 2) (le_refl _) (omega arith))

pub bit_or_digit : (a b : ℕ) → bit_or a b ≡ bit_or (a / 2) (b / 2) * 2 + max (a % 2) (b % 2)
bit_or_digit zero b = simp bit_or-bitwise (omega arith)
bit_or_digit (suc a) b = simp bit_or-bitwise (lowest_digit (λ y. y) max a b)

pub bit_and_digit : (a b : ℕ) → bit_and a b ≡ bit_and (a / 2) (b / 2) * 2 + min (a % 2) (b % 2)
bit_and_digit zero b = simp bit_and-bitwise (omega arith)
bit_and_digit (suc a) b = simp bit_and-bitwise (lowest_digit (λ y. 0) min a b)

-- Without bits on the right, `&` gives none and `|` gives the left operand.
no_bits : (bound x : ℕ) → x ≤ bound → (bit_or x 0 ≡ x) × (bit_and x 0 ≡ 0)
no_bits bound zero within = (refl, refl)
no_bits zero (suc x) within = absurd (omega arith)
no_bits (suc bound) (suc x) within =
    let (joined, met) = no_bits bound (suc x / 2) (omega arith) in
    (omega (arith, bit_or_digit (suc x) 0), omega (arith, bit_and_digit (suc x) 0))

pub bit_or-zero : (x : ℕ) → bit_or x 0 ≡ x
bit_or-zero x = (no_bits x x (le_refl x)).0

pub bit_and-zero : (x : ℕ) → bit_and x 0 ≡ 0
bit_and-zero x = (no_bits x x (le_refl x)).1

double-pow : (q k : ℕ) → q * 2 ^ suc k ≡ 2 * (q * 2 ^ k)
double-pow q k = omega (arith, ap (λ (t : ℕ). q * t) (pow-suc 2 k))

halve-pow : (x k : ℕ) → x / 2 ^ suc k ≡ x / 2 / 2 ^ k
halve-pow x k =
    ap (λ (t : ℕ). x / t) (omega (arith, pow-suc 2 k)) ∙ sym (div-div-eq-div-mul x 2 (2 ^ k))

mod-double : (x p : ℕ) → x % (2 * p) ≡ x / 2 % p * 2 + x % 2
mod-double x p = omega (
  arith,
  mod-eq-sub-div-mul x (2 * p),
  mod-eq-sub-div-mul (x / 2) p,
  div-mul-le_self (x / 2) p,
  ap (λ (q : ℕ). q * (2 * p)) (sym (div-div-eq-div-mul x 2 p)),
)

mod-pow-suc : (x k : ℕ) → x % 2 ^ suc k ≡ x / 2 % 2 ^ k * 2 + x % 2
mod-pow-suc x k = ap (λ (t : ℕ). x % t) (omega (arith, pow-suc 2 k)) ∙ mod-double x (2 ^ k)

-- `x & (m << k)` is the part of `x` above bit `k`, masked by `m`.
pub bit_and_high : (k x m : ℕ) → bit_and x (m * 2 ^ k) ≡ bit_and (x / 2 ^ k) m * 2 ^ k
bit_and_high zero x m = ground arith
bit_and_high (suc k) x m = ground (
  arith,
  bit_and_digit x (m * 2 ^ suc k),
  double-pow m k,
  bit_and_high k (x / 2) m,
  halve-pow x k,
  double-pow (bit_and (x / 2 / 2 ^ k) m) k,
)

-- A mask of `k` low bits is the remainder by `2 ^ k`.
pub bit_and_low : (k x : ℕ) → bit_and x (2 ^ k - 1) ≡ x % 2 ^ k
bit_and_low zero x = rw bit_and-zero (omega arith)
bit_and_low (suc k) x = ground (
  arith,
  bit_and_digit x (2 ^ suc k - 1),
  pow-suc 2 k,
  one-le-pow k 2,
  bit_and_low k (x / 2),
  mod-pow-suc x k,
)

-- `(q << k) | r` is a sum when `r` fits `k` bits.
pub bit_or_fields : (k q r : ℕ) → r < 2 ^ k → bit_or (q * 2 ^ k) r ≡ q * 2 ^ k + r
bit_or_fields zero q r fits = ground (arith, bit_or-zero q)
bit_or_fields (suc k) q r fits = ground (
  arith,
  bit_or_digit (q * 2 ^ suc k) r,
  double-pow q k,
  pow-suc 2 k,
  bit_or_fields k q (r / 2) (omega (arith, pow-suc 2 k)),
)

-- `x | t` keeps the bits of `x` above those of `t`.
pub bit_or_low :
    (k q r t : ℕ) → r < 2 ^ k → t < 2 ^ k → bit_or (q * 2 ^ k + r) t ≡ q * 2 ^ k + bit_or r t
bit_or_low zero q r t lr lt =
    let nr : r ≡ 0 = omega arith in
    let nt : t ≡ 0 = omega arith in
    rw (nr, nt) (bit_or-zero (q * 1 + 0) ∙ omega (arith, bit_or-zero 0))
bit_or_low (suc k) q r t lr lt = ground (
  arith,
  bit_or_digit (q * 2 ^ suc k + r) t,
  bit_or_digit r t,
  double-pow q k,
  pow-suc 2 k,
  bit_or_low k q (r / 2) (t / 2) (omega (arith, pow-suc 2 k)) (omega (arith, pow-suc 2 k)),
)

-- Two fields of bits are joined apart.
pub bit_or_split :
    (k q r q' r' : ℕ)
    → r < 2 ^ k
    → r' < 2 ^ k
    → bit_or (q * 2 ^ k + r) (q' * 2 ^ k + r') ≡ bit_or q q' * 2 ^ k + bit_or r r'
bit_or_split zero q r q' r' lr lr' =
    let nr : r ≡ 0 = omega arith in
    let nr' : r' ≡ 0 = omega arith in
    let one : q * 1 + 0 ≡ q = omega arith in
    let one' : q' * 1 + 0 ≡ q' = omega arith in
    rw (nr, nr', one, one') (omega (arith, bit_or-zero 0))
bit_or_split (suc k) q r q' r' lr lr' = ground (
  arith,
  bit_or_digit (q * 2 ^ suc k + r) (q' * 2 ^ suc k + r'),
  bit_or_digit r r',
  double-pow q k,
  double-pow q' k,
  double-pow (bit_or q q') k,
  pow-suc 2 k,
  bit_or_split k q (r / 2) q' (r' / 2) (omega (arith, pow-suc 2 k)) (omega (arith, pow-suc 2 k)),
)

-- `x | 1` is odd.
pub bit_or_one : (x : ℕ) → bit_or x 1 % 2 ≡ 1
bit_or_one x = ground (arith, bit_or_digit x 1)
