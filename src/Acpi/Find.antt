-- ===== src/Acpi/Find.antt =====
-- `acpi_find_table` gives the first table with the signature.
use sonna_os.Prelude.{
  ℕ, zero, suc, ◌+◌, ◌-◌, ◌*◌, ◌/◌, ◌%◌, ◌^◌, get_or, ◌<◌, ◌≤◌, ◌≡◌, ◌⊎◌, refl, sym, subst, ◌∙◌,
  inl, inr, Bool-cases, true, false, List, ◌==◌, ==→eq, ==→ne, arith,
}
use sonna_os.Memory.{Mem}
use sonna_os.Memory.Word.{bytes_value, read64}
use sonna_os.Acpi.{has_signature, entry_table, entries, find_loop, acpi_find_table}

-- The `left` bytes at `p + j` are those of the signature from the `j`th on.
abbrev Agrees : Mem → (p j left : ℕ) → List ℕ → Type 0
Agrees m p j left cs = (k : ℕ) → j ≤ k → k < j + left → m (p + k) ≡ get_or cs k 0

-- The table at `p` starts with the four characters of the signature.
abbrev pub IsSigned : Mem → (p : ℕ) → List ℕ → Type 0
IsSigned m p cs = (k : ℕ) → k < 4 → m (p + k) ≡ get_or cs k 0

-- The address that the `i`th entry of the XSDT names, in the window of physical memory: the
-- entries are words behind a header of 36 bytes.
abbrev pub table_named : Mem → (hhdm_offset xsdt i : ℕ) → ℕ
table_named m hhdm_offset xsdt i = (read64 m (xsdt + 36 + 8 * i) + hhdm_offset) % 2 ^ 64

-- The length of the XSDT, in four bytes behind its signature.
abbrev pub xsdt_length : Mem → (xsdt : ℕ) → ℕ
xsdt_length m xsdt =
    m (xsdt + 4) + 256 * m (xsdt + 5) + 65536 * m (xsdt + 6) + 16777216 * m (xsdt + 7)

has_signature-Agrees :
    (left : ℕ) (m : Mem) (header j : ℕ) (cs : List ℕ)
    → ((has_signature left m header j cs ≡ true) × Agrees m header j left cs)
      ⊎ ((has_signature left m header j cs ≡ false) × (Agrees m header j left cs → ⊥))
unfolding has_signature
has_signature-Agrees zero m header j cs = inl (refl, λ k low high. absurd (omega arith))
has_signature-Agrees (suc left) m header j cs =
    elim (Bool-cases (m (header + j) == get_or cs j 0)) [
      | inr other ↦ inr (
        rw other refl,
        λ agrees.
            ==→ne (m (header + j)) (get_or cs j 0) other (agrees j (omega arith) (omega arith)),
      )
      | inl same ↦ elim (has_signature-Agrees left m header (j + 1) cs) [
        | inl (found, agrees) ↦ inl (
          rw same found,
          λ k low high. elim (Bool-cases (k == j)) [
            | inl here ↦
                subst (λ k. m (header + k) ≡ get_or cs k 0) (sym (==→eq k j here))
                  (==→eq (m (header + j)) (get_or cs j 0) same)
            | inr later ↦ agrees k (ground arith) (omega arith)
          ],
        )
        | inr (never, unlike) ↦
            inr
              (rw same never, λ agrees. unlike (λ k low high. agrees k (omega arith) (omega arith)))
      ]
    ]

is_signed :
    (m : Mem) (header : ℕ) (cs : List ℕ)
    → ((has_signature 4 m header 0 cs ≡ true) × IsSigned m header cs)
      ⊎ ((has_signature 4 m header 0 cs ≡ false) × (IsSigned m header cs → ⊥))
is_signed m header cs = elim (has_signature-Agrees 4 m header 0 cs) [
  | inl (found, agrees) ↦ inl (found, λ k lt. agrees k (omega arith) (omega arith))
  | inr (never, unlike) ↦ inr (never, λ signed. unlike (λ k low high. signed k (omega arith)))
]

module _ (m : Mem) (hhdm_offset xsdt : ℕ) (cs : List ℕ) where
  -- None of the entries from `i` to `k` has the signature.
  abbrev pub Unsigned : (i k : ℕ) → Type 0
  Unsigned i k = (l : ℕ) → i ≤ l → l < k → ¬ IsSigned m (table_named m hhdm_offset xsdt l) cs

  -- The first entry between `i` and `end` with the signature, if there is one.
  pub data IsFirst (i end : ℕ) : ℕ → Type 0 where
    first :
        (k : ℕ)
        → i ≤ k
        → k < end
        → IsSigned m (table_named m hhdm_offset xsdt k) cs
        → Unsigned i k
        → IsFirst i end (table_named m hhdm_offset xsdt k)
    absent : Unsigned i end → IsFirst i end 0

  weaken :
      (i k : ℕ)
      → ¬ IsSigned m (table_named m hhdm_offset xsdt i) cs
      → Unsigned (i + 1) k
      → Unsigned i k
  weaken i k unsigned later l low high = elim (Bool-cases (l == i)) [
    | inl same ↦
        subst (λ l. ¬ IsSigned m (table_named m hhdm_offset xsdt l) cs) (sym (==→eq l i same))
          unsigned
    | inr other ↦ later l (ground arith) high
  ]

  extend :
      (i left p : ℕ)
      → ¬ IsSigned m (table_named m hhdm_offset xsdt i) cs
      → IsFirst (i + 1) (i + 1 + left) p
      → IsFirst i (i + suc left) p
  extend i left _ unsigned (first k low high signed before) =
      first k (omega arith) (omega arith) signed (weaken i k unsigned before)
  extend i left _ unsigned (absent later) =
      absent (weaken i (i + suc left) unsigned (λ l low high. later l low (omega arith)))

  find_loop-IsFirst : (left i : ℕ) → IsFirst i (i + left) (find_loop left m hhdm_offset xsdt i cs)
  unfolding find_loop entry_table
  find_loop-IsFirst zero i = absent (λ l low high. absurd (omega arith))
  find_loop-IsFirst (suc left) i = elim (is_signed m (table_named m hhdm_offset xsdt i) cs) [
    | inl (found, signed) ↦
        rw found (first i (omega arith) (omega arith) signed (λ l low high. absurd (omega arith)))
    | inr (other, unsigned) ↦ rw other (
        extend i left (find_loop left m hhdm_offset xsdt (i + 1) cs) unsigned
          (find_loop-IsFirst left (i + 1)))
  ]

shut :
    (m : Mem) (hhdm_offset xsdt : ℕ) (cs : List ℕ)
    → acpi_find_table m hhdm_offset xsdt cs ≡ find_loop (entries m xsdt) m hhdm_offset xsdt 0 cs
unfolding acpi_find_table
shut m hhdm_offset xsdt cs = refl

length_read : (m : Mem) (xsdt : ℕ) → bytes_value 4 m (xsdt + 4) ≡ xsdt_length m xsdt
unfolding bytes_value
length_read m xsdt =
    let five : xsdt + 4 + 1 ≡ xsdt + 5 = omega arith in
    let six : xsdt + 5 + 1 ≡ xsdt + 6 = omega arith in
    let seven : xsdt + 6 + 1 ≡ xsdt + 7 = omega arith in rw (five, six, seven) (omega arith)

entries_lem :
    (m : Mem) (xsdt : ℕ)
    → 36 ≤ xsdt_length m xsdt
    → xsdt_length m xsdt < 2 ^ 32
    → entries m xsdt ≡ (xsdt_length m xsdt - 36) / 8
unfolding entries
entries_lem m xsdt long word = omega (arith, length_read m xsdt)

-- For an XSDT whose length, in its bytes 4 to 7, is at least the 36 bytes of its header and
-- below 2^32, acpi_find_table goes through the 64-bit entries behind the header, as many as are
-- whole within the length, and gives the table of the first one whose table has the four
-- characters of the signature, at the entry's address in the window of physical memory, and NULL
-- if no entry's table has them.
pub acpi_find_table-IsFirst :
    (m : Mem) (hhdm_offset xsdt : ℕ) (cs : List ℕ)
    → 36 ≤ xsdt_length m xsdt
    → xsdt_length m xsdt < 2 ^ 32
    → IsFirst m hhdm_offset xsdt cs 0
        ((xsdt_length m xsdt - 36) / 8)
        (acpi_find_table m hhdm_offset xsdt cs)
acpi_find_table-IsFirst m hhdm_offset xsdt cs long word =
    subst2 (IsFirst m hhdm_offset xsdt cs 0)
      (from_zero (entries m xsdt) ∙ entries_lem m xsdt long word) (sym (shut m hhdm_offset xsdt cs))
      (find_loop-IsFirst m hhdm_offset xsdt cs (entries m xsdt) 0)
  where
    from_zero : (n : ℕ) → 0 + n ≡ n
    from_zero n = omega arith

    subst2 : {x x' y y' : ℕ} (P : ℕ → ℕ → Type 0) → x ≡ x' → y ≡ y' → P x y → P x' y'
    subst2 {x} {x'} {y} {y'} P e e' p = subst (λ a. P a y') e (subst (P x) e' p)
