-- ===== src/Vmm/Entry.antt =====
-- The bits of page table entries as arithmetic.
use sonna_os.Prelude.{
  ℕ, ◌+◌, ◌*◌, ◌/◌, ◌%◌, ◌^◌, ◌<◌, ◌≡◌, ◌∙◌, ap, true, false, not, bit_and, bit_or, ◌==◌, not64,
  arith,
}
use sonna_os.Prelude.Bits.{bit_and_low, bit_and_high, bit_or_fields, bit_or_low, bit_or_one}
use sonna_os.Pmm.Align.{page_mask}
use sonna_os.Vmm.{index, is_present, is_huge, frame_of, table_word}
use sonna_os.Vmm.Ops.{user_word, page_word, user_page_word}

pub index_lem : (shift virt : ℕ) → index shift virt ≡ virt / 2 ^ shift % 512
unfolding index
index_lem shift virt = bit_and_low 9 (virt / 2 ^ shift)

pub index-lt : (shift virt : ℕ) → index shift virt < 512
index-lt shift virt = omega (arith, index_lem shift virt)

pub is_present_lem : (e : ℕ) → is_present e ≡ not (e % 2 == 0)
unfolding is_present
is_present_lem e = ap (λ (x : ℕ). not (x == 0)) (bit_and_low 1 e)

pub is_huge_lem : (e : ℕ) → is_huge e ≡ not (e / 128 % 2 == 0)
unfolding is_huge
is_huge_lem e = ground (arith, bit_and_high 7 e 1, bit_and_low 1 (e / 128))

pub frame_of_lem : (e : ℕ) → e < 2 ^ 64 → frame_of e ≡ e / 4096 * 4096
unfolding frame_of
frame_of_lem e lt = page_mask e lt

-- An entry for the table in frame `f` with the low bits `c`.
pub record IsTableWord (f e : ℕ) : Type 0 where
  pub present : is_present e ≡ true
  pub frame : frame_of e ≡ f * 4096
  pub small : e < 2 ^ 64
  pub plain : is_huge e ≡ false

IsTableWord-sum :
    (f c e : ℕ) → f < 2 ^ 52 → e ≡ f * 4096 + c → c < 128 → c % 2 ≡ 1 → IsTableWord f e
IsTableWord-sum f c e lt eq low odd = record {
  present = ground (arith, is_present_lem e);
  frame = frame_of_lem e (omega arith) ∙ omega arith;
  small = omega arith;
  plain = ground (arith, is_huge_lem e);
}

-- An address with the low bits `r`, and the bit `t`.
or_low : (f r t : ℕ) → r < 4096 → t < 4096 → bit_or (f * 4096 + r) t ≡ f * 4096 + bit_or r t
or_low f r t lr lt = bit_or_low 12 f r t lr lt

pub user_word-IsTableWord : (f : ℕ) → f < 2 ^ 52 → IsTableWord f (user_word (f * 4096))
user_word-IsTableWord f lt =
    IsTableWord-sum f 7 (user_word (f * 4096)) lt
      (ap (λ x. bit_or (bit_or x 2) 4) (bit_or_fields 12 f 1 (omega arith))
        ∙ ap (λ x. bit_or x 4) (or_low f 1 2 (omega arith) (omega arith))
        ∙ or_low f 3 4 (omega arith) (omega arith))
      (omega arith) (omega arith)

pub table_word-IsTableWord : (f : ℕ) → f < 2 ^ 52 → IsTableWord f (table_word 2 (f * 4096))
table_word-IsTableWord f lt =
    IsTableWord-sum f 3 (table_word 2 (f * 4096)) lt
      (ap (λ x. bit_or (bit_or x 1) 2) (bit_or_fields 12 f 2 (omega arith))
        ∙ ap (λ x. bit_or x 2) (or_low f 2 1 (omega arith) (omega arith))
        ∙ or_low f 3 2 (omega arith) (omega arith))
      (omega arith) (omega arith)

pub user_page_word-present :
    (phys flags : ℕ)
    → (is_present (user_page_word phys flags) ≡ true) × (user_page_word phys flags < 2 ^ 64)
user_page_word-present phys flags =
    let e = page_word phys flags in
    let cut = bit_and_low 63 e in
    let odd = bit_or_one (bit_or phys (bit_and flags (not64 1))) in
    (ground (arith, is_present_lem (user_page_word phys flags), cut, odd), omega (arith, cut))
