-- ===== src/Fbtext/Number.antt =====
-- `fb_print_number` prints the decimal numeral.
use sonna_os.Prelude.{
  ℕ, zero, suc, ◌+◌, ◌-◌, ◌*◌, ◌/◌, ◌%◌, ◌^◌, ◌<◌, length, ◌≡◌, refl, ◌∙◌, ap, inl, inr, Bool-cases,
  false, some, List, [], ◌∷◌, All, ◌==◌, if◌then◌else◌, arith,
}
use sonna_os.Strings.Decimal.{decimal, IsDigit, ten_to}
use sonna_os.Fbtext.{Console, fb_print, number_loop, print_digits, fb_print_number}

-- A number of two digits or more needs two places.
more_room : (room n : ℕ) → n < ten_to (suc room) → (n / 10 == 0) ≡ false → 0 < room
more_room zero n lt more = absurd (ground arith)
more_room (suc room) n lt more = omega arith

-- The numeral that the loop puts in front of `acc`.
number_loop-decimal :
    (room n : ℕ) (acc : List ℕ)
    → 0 < room
    → n < ten_to room
    → All IsDigit acc
    → (digits : List ℕ) × (number_loop room n acc ≡ some digits)
      × (decimal 0 digits ≡ decimal n acc)
      × All IsDigit digits
      × (0 < length digits)
unfolding number_loop
number_loop-decimal zero n acc pos lt good = absurd (omega arith)
number_loop-decimal (suc room) n acc pos lt good =
    let digits = (48 + n % 10) ∷ acc in
    let digit : IsDigit (48 + n % 10) = (omega arith, omega arith) in
    elim (Bool-cases (n / 10 == 0)) [
      | inl last ↦ (
        digits,
        ap (λ b. if b then some digits else number_loop room (n / 10) digits) last,
        ap (λ v. decimal v acc) (ground arith),
        (digit, good),
        omega arith,
      )
      | inr more ↦
          let some_room : 0 < room = more_room room n lt more in
          let (ds, e, value, all, some_digit) =
            number_loop-decimal room (n / 10) digits some_room (omega arith) (digit, good) in
          let same : n / 10 * 10 + (48 + n % 10 - 48) ≡ n = omega arith in
          (
            ds,
            ap (λ b. if b then some digits else number_loop room (n / 10) digits) more ∙ e,
            value ∙ ap (λ v. decimal v acc) same,
            all,
            some_digit,
          )
    ]

shut :
    (n color : ℕ) (c : Console)
    → fb_print_number n color c ≡ print_digits (number_loop 31 n []) color c
unfolding fb_print_number
shut n color c = refl

-- For a 64-bit number the loop of fb_print_number ends before its 32-byte buffer does, and what
-- it prints are decimal digits, at least one, whose value is the number.
pub fb_print_number-decimal :
    (n color : ℕ) (c : Console)
    → n < 2 ^ 64
    → (digits : List ℕ) × (fb_print_number n color c ≡ some (fb_print (some digits) color c))
      × (decimal 0 digits ≡ n)
      × All IsDigit digits
      × (0 < length digits)
fb_print_number-decimal n color c lt =
    let (digits, e, value, all, some_digit) =
      number_loop-decimal 31 n [] (omega arith) (omega arith) tt in
    (digits, shut n color c ∙ ap (λ o. print_digits o color c) e, value, all, some_digit)
