-- ===== src/Strings/Decimal.antt =====
-- `u64_to_dec` writes the decimal numeral of its value.
use sonna_os.Prelude.{
  ℕ, zero, suc, ◌+◌, ◌-◌, ◌*◌, ◌/◌, ◌%◌, ◌^◌, ◌<◌, ◌≤◌, ◌≡◌, ◌≢◌, refl, sym, subst, ◌∙◌, ap, inl,
  inr, Bool-cases, true, false, List, [], ◌∷◌, ◌==◌, if◌then◌else◌, length, ==→eq, u8, All, arith,
}
use sonna_os.Memory.{Mem, write}
use sonna_os.Strings.{write_all, dec_loop, u64_to_dec}
use sonna_os.Strings.Text.{IsText}

-- The value of decimal digits read after `acc`.
abbrev pub decimal : (acc : ℕ) → List ℕ → ℕ
decimal acc [] = acc
decimal acc (c ∷ cs) = decimal (acc * 10 + (c - 48)) cs

abbrev pub IsDigit : ℕ → Type 0
IsDigit c = (48 ≤ c) × (c ≤ 57)

abbrev pub ten_to : ℕ → ℕ
ten_to zero = 1
ten_to (suc n) = 10 * ten_to n

digit_byte : (v : ℕ) → u8 (48 + v % 10) ≡ 48 + v % 10
digit_byte v = omega arith

dec_loop-decimal :
    (left v : ℕ) (temp : List ℕ)
    → v < ten_to left
    → decimal 0 (dec_loop left v temp) ≡ decimal v temp
unfolding dec_loop
dec_loop-decimal zero v temp lt = ap (λ x. decimal x temp) (omega arith)
dec_loop-decimal (suc left) v temp lt =
    let rest = dec_loop-decimal left (v / 10) (u8 (48 + v % 10) ∷ temp) (omega arith) in
    let same : (v / 10) * 10 + (u8 (48 + v % 10) - 48) ≡ v = omega arith in
    elim (Bool-cases (v == 0)) [
      | inl none_left ↦ rw (none_left) (ap (λ x. decimal x temp) (sym (==→eq v 0 none_left)))
      | inr more ↦ rw more (rest ∙ ap (λ x. decimal x temp) same)
    ]

dec_loop-All : (left v : ℕ) (temp : List ℕ) → All IsDigit temp → All IsDigit (dec_loop left v temp)
unfolding dec_loop
dec_loop-All zero v temp good = good
dec_loop-All (suc left) v temp good =
    let rest =
      dec_loop-All left (v / 10) (u8 (48 + v % 10) ∷ temp) ((omega arith, omega arith), good) in
    elim (Bool-cases (v == 0)) [ inl none_left ↦ rw none_left good | inr more ↦ rw more rest ]

dec_loop-length :
    (left k v : ℕ) (temp : List ℕ) → v < ten_to k → length (dec_loop left v temp) ≤ length temp + k
unfolding dec_loop
dec_loop-length zero k v temp lt = omega arith
dec_loop-length (suc left) zero v temp lt =
    let none_left : (v == 0) ≡ true = ground arith in rw none_left (omega arith)
dec_loop-length (suc left) (suc k) v temp lt =
    let rest = dec_loop-length left k (v / 10) (u8 (48 + v % 10) ∷ temp) (omega arith) in
    elim (Bool-cases (v == 0)) [
      | inl none_left ↦ rw none_left (omega arith)
      | inr more ↦ rw more (omega (arith, rest))
    ]

-- Stores behind a place leave it.
write_all-before : (m : Mem) (p a : ℕ) (cs : List ℕ) → a < p → write_all m p cs a ≡ m a
unfolding write_all write
write_all-before m p a [] lt = refl
write_all-before m p a (c ∷ cs) lt =
    write_all-before (write m p c) (p + 1) a cs (omega arith) ∙ ground arith

-- Stored bytes with a NUL behind them are a text.
closed-IsText :
    (m : Mem) (p : ℕ) (cs : List ℕ)
    → All (λ c. c ≢ 0) cs
    → IsText (write (write_all m p cs) (p + length cs) 0) p cs
unfolding write_all write
closed-IsText m p [] nz = ground arith
closed-IsText m p (c ∷ cs) (nz, nzs) =
    let at : p + suc (length cs) ≡ (p + 1) + length cs = omega arith in
    let kept = write_all-before (write m p c) (p + 1) p cs (omega arith) in
    (
      ground (arith, kept),
      nz,
      subst (λ q. IsText (write (write_all (write m p c) (p + 1) cs) q 0) (p + 1) cs) (sym at)
          (closed-IsText (write m p c) (p + 1) cs nzs),
    )

zero-IsText : (m : Mem) (p : ℕ) → IsText (write (write m p 48) (p + 1) 0) p (48 ∷ [])
unfolding write
zero-IsText m p = (ground arith, omega arith, ground arith)

IsDigit-nonzero : (cs : List ℕ) → All IsDigit cs → All (λ c. c ≢ 0) cs
IsDigit-nonzero [] good = tt
IsDigit-nonzero (c ∷ cs) ((low, high), good) = (omega arith, IsDigit-nonzero cs good)

-- `cs` is a decimal numeral of `v` that fits in a buffer of 21 bytes with its NUL.
pub record IsNumeral (v : ℕ) (cs : List ℕ) : Type 0 where
  pub value : decimal 0 cs ≡ v
  pub digits : All IsDigit cs
  pub size : length cs ≤ 20

u64_to_dec-zero :
    (v : ℕ) (m : Mem) (buffer : ℕ)
    → (v == 0) ≡ true
    → u64_to_dec v m buffer ≡ write (write m buffer 48) (buffer + 1) 0
unfolding u64_to_dec
u64_to_dec-zero v m buffer null = rw null refl

u64_to_dec-positive :
    (v : ℕ) (m : Mem) (buffer : ℕ)
    → (v == 0) ≡ false
    → u64_to_dec v m buffer
      ≡ write (write_all m buffer (dec_loop 21 v [])) (buffer + length (dec_loop 21 v [])) 0
unfolding u64_to_dec
u64_to_dec-positive v m buffer more =
    ap
      (λ b.
        if b
        then write (write m buffer 48) (buffer + 1) 0
        else write (write_all m buffer (dec_loop 21 v [])) (buffer + length (dec_loop 21 v [])) 0)
      more

-- U64_to_dec leaves in its buffer a NUL-terminated text of at most 20 decimal digits whose value
-- is the given 64-bit number.
pub u64_to_dec-IsNumeral :
    (v : ℕ) (m : Mem) (buffer : ℕ)
    → v < 2 ^ 64
    → (cs : List ℕ) × IsText (u64_to_dec v m buffer) buffer cs × IsNumeral v cs
u64_to_dec-IsNumeral v m buffer lt = elim (Bool-cases (v == 0)) [
  | inl null ↦ (
    48 ∷ [],
    rw (u64_to_dec-zero v m buffer null) (zero-IsText m buffer),
    record {
      value = sym (==→eq v 0 null);
      digits = ((omega arith, omega arith), tt);
      size = omega arith;
    },
  )
  | inr more ↦
      let cs = dec_loop 21 v [] in
      let good = dec_loop-All 21 v [] tt in
      (
        cs,
        rw (u64_to_dec-positive v m buffer more)
            (closed-IsText m buffer cs (IsDigit-nonzero cs good)),
        record {
          value = dec_loop-decimal 21 v [] (omega arith);
          digits = good;
          size = dec_loop-length 21 20 v [] (omega arith);
        },
      )
]
