-- ===== src/Tsc/Rate.antt =====
-- The frequencies that tsc.c finds.
use native.Mathlib.Nat.{mul-le-mul, div-mul-le_self, lt-div-mul-add, div-le_self}
use sonna_os.Prelude.{
  ℕ, zero, suc, ◌+◌, ◌-◌, ◌*◌, ◌/◌, ◌^◌, ◌<◌, ◌≤◌, ◌≡◌, ◌≢◌, refl, ap, inl, inr, Bool-cases, true,
  ltb, Option, some, sub64, mul64, ==_ne, arith,
}
use sonna_os.Tsc.{
  Registers, Cpuid, has_crystal, tsc_calibrate_cpuid, wait_loop, ticks_to_wait, tsc_calibrate_hpet,
}

-- The registers have 32 bits.
pub record IsNarrow (r : Registers) : Type 0 where
  pub eax : r.eax < 2 ^ 32
  pub ebx : r.ebx < 2 ^ 32
  pub ecx : r.ecx < 2 ^ 32

product_small : (a b : ℕ) → a < 2 ^ 32 → b < 2 ^ 32 → a * b < 2 ^ 64
product_small a b la lb =
    let bound : a * b ≤ (2 ^ 32 - 1) * (2 ^ 32 - 1) =
      mul-le-mul {n₂ = 2 ^ 32 - 1} {m₂ = 2 ^ 32 - 1} (omega arith) (omega arith) in
    omega (arith, bound)

-- `q` is how often `d` goes into `n`.
pub record IsQuotient (n d q : ℕ) : Type 0 where
  pub low : q * d ≤ n
  pub high : n < (q + 1) * d

quotient : (n d : ℕ) → d ≢ 0 → IsQuotient n d (n / d)
quotient n d ne = record {
  low = div-mul-le_self n d;
  high = omega (arith, lt-div-mul-add {a = n} {b = d} (omega arith));
}

-- When the processor names a crystal's frequency and ratio in registers of 32 bits, the product
-- in tsc_calibrate_cpuid does not wrap: the result is below 2^64 and is how often the divisor
-- goes into the product.
pub tsc_calibrate_cpuid-bounds :
    (cpuid : Cpuid)
    → IsNarrow (cpuid 0x15)
    → has_crystal cpuid ≡ true
    → (tsc_calibrate_cpuid cpuid < 2 ^ 64)
      × IsQuotient
          ((cpuid 0x15).ecx * (cpuid 0x15).ebx)
          (cpuid 0x15).eax
          (tsc_calibrate_cpuid cpuid)
unfolding tsc_calibrate_cpuid
tsc_calibrate_cpuid-bounds cpuid narrow crystal =
    let r = cpuid 0x15 in
    let small = product_small r.ecx r.ebx narrow.ecx narrow.ebx in
    let exact : mul64 r.ecx r.ebx ≡ r.ecx * r.ebx = omega (arith, small) in
    let some_divisor : r.eax ≢ 0 = ground (arith, crystal) in
    rw (crystal, exact)
      (
        omega (arith, small, div-le_self (r.ecx * r.ebx) r.eax),
        quotient (r.ecx * r.ebx) r.eax some_divisor,
      )

-- The counter counts from each of the readings up to `n` to the next, and does not pass 2^64.
pub record Counts (counter : ℕ → ℕ) (n : ℕ) : Type 0 where
  pub up : (k : ℕ) → k < n → counter k < counter (k + 1)
  pub small : counter n < 2 ^ 64

-- Where the loop ends.
record Waited (counter : ℕ → ℕ) (ticks : ℕ) (r : Option ℕ) : Type 0 where
  n : ℕ
  ends : r ≡ some n
  later : 1 < n
  bound : n ≤ ticks + 2
  enough : counter 0 + ticks ≤ counter n

module _ (counter : ℕ → ℕ) (ticks : ℕ) (counts : Counts counter (ticks + 2)) where
  reading : (k : ℕ) → k ≤ ticks + 2 → counter 0 + k ≤ counter k
  reading zero le = omega arith
  reading (suc k) le =
      let next : suc k ≡ k + 1 = omega arith in
      omega (arith, reading k (omega arith), counts.up k (omega arith), ap counter next)

  below_last : (d : ℕ) → d ≤ ticks + 2 → counter (ticks + 2 - d) < 2 ^ 64
  below_last zero le =
      let last : ticks + 2 - 0 ≡ ticks + 2 = omega arith in
      omega (arith, counts.small, ap counter last)
  below_last (suc d) le =
      let here : ticks + 2 - suc d + 1 ≡ ticks + 2 - d = omega arith in
      omega (
        arith,
        below_last d (omega arith),
        counts.up (ticks + 2 - suc d) (omega arith),
        ap counter here,
      )

  small_reading : (k : ℕ) → k ≤ ticks + 2 → counter k < 2 ^ 64
  small_reading k le =
      let at : ticks + 2 - (ticks + 2 - k) ≡ k = omega arith in
      omega (arith, below_last (ticks + 2 - k) (omega arith), ap counter at)

  wait_loop-Waited :
      (fuel n : ℕ)
      → 0 < n
      → n ≤ ticks + 1
      → ticks + 2 ≤ fuel + n
      → Waited counter ticks (wait_loop fuel counter (counter 0) ticks n)
  unfolding wait_loop
  wait_loop-Waited zero n pos le enough = absurd (omega arith)
  wait_loop-Waited (suc fuel) n pos le enough =
      elim (Bool-cases (ltb (sub64 (counter n) (counter 0)) ticks)) [
        | inl goes_on ↦
            let delta = reading n (omega arith) in
            let top = small_reading n (omega arith) in
            let short : n < ticks = ground (arith, goes_on, delta, top) in
            rw goes_on (wait_loop-Waited fuel (n + 1) (omega arith) (omega arith) (omega arith))
        | inr stops ↦ rw stops (record {
          n = n + 1;
          ends = refl;
          later = omega arith;
          bound = omega arith;
          enough = ground (
            arith,
            stops,
            reading n (omega arith),
            small_reading n (omega arith),
            counts.up n (omega arith),
          );
        })
      ]

-- The frequency that the readings give, when the timer counts `ticks` of it at least.
pub record IsRate (counter tsc : ℕ → ℕ) (hz ticks : ℕ) (r : Option ℕ) : Type 0 where
  pub frequency : ℕ
  pub n : ℕ
  pub result : r ≡ some frequency
  pub enough : counter 0 + ticks ≤ counter n
  pub rate : IsQuotient ((tsc 1 - tsc 0) * hz) (counter n - counter 0) frequency

-- When the timer's main counter grows from each reading to the next and does not wrap, the
-- waiting loop of tsc_calibrate_hpet ends after at most one more reading than it waits for
-- ticks, and no division by 0 follows: the result is how often the ticks that passed, at least
-- those to wait for, go into the time-stamp counter's ticks times the timer's frequency, when
-- this product and the time-stamp counter are below 2^64.
pub tsc_calibrate_hpet-IsRate :
    (fuel hz : ℕ) (counter tsc : ℕ → ℕ)
    → hz ≢ 0
    → ticks_to_wait hz < fuel
    → Counts counter (ticks_to_wait hz + 2)
    → tsc 0 ≤ tsc 1
    → tsc 1 < 2 ^ 64
    → (tsc 1 - tsc 0) * hz < 2 ^ 64
    → IsRate counter tsc hz (ticks_to_wait hz) (tsc_calibrate_hpet fuel hz counter tsc)
unfolding tsc_calibrate_hpet
tsc_calibrate_hpet-IsRate fuel hz counter tsc ne enough counts forward small fits =
    let ticks = ticks_to_wait hz in
    let waited =
      wait_loop-Waited counter ticks counts fuel 1 (omega arith) (omega arith) (omega arith) in
    let top = small_reading counter ticks counts waited.n waited.bound in
    let far = reading counter ticks counts waited.n waited.bound in
    let delta : sub64 (counter waited.n) (counter 0) ≡ counter waited.n - counter 0 =
      omega (arith, top, far) in
    let ticked : sub64 (tsc 1) (tsc 0) ≡ tsc 1 - tsc 0 = omega (arith, forward, small) in
    let exact : mul64 (tsc 1 - tsc 0) hz ≡ (tsc 1 - tsc 0) * hz = omega (arith, fits) in
    let some_delta : counter waited.n - counter 0 ≢ 0 = omega (arith, far, waited.later) in
    record {
      frequency = (tsc 1 - tsc 0) * hz / (counter waited.n - counter 0);
      n = waited.n;
      result =
          rw
            (
              ==_ne hz 0 ne,
              waited.ends,
              delta,
              ==_ne (counter waited.n - counter 0) 0 some_delta,
              ticked,
              exact,
            )
            refl;
      enough = waited.enough;
      rate = quotient ((tsc 1 - tsc 0) * hz) (counter waited.n - counter 0) some_delta;
    }
