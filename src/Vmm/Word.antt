-- ===== src/Vmm/Word.antt =====
-- The entry that `vmm_map_for_pml4` writes for a page of a user, as arithmetic.
use sonna_os.Prelude.{
  ℕ, ◌+◌, ◌*◌, ◌/◌, ◌%◌, ◌^◌, ◌<◌, ◌≡◌, ◌∙◌, ap, Bool, if◌then◌else◌, bit_and, bit_or, not64, arith,
}
use sonna_os.Prelude.Bits.{bit_and_low, bit_or_low, bit_or_fields, bit_or_split}
use sonna_os.Vmm.Ops.{user_page_word}

-- A word that is present, for the user, and writable or not, for the frame `f`; bit 63, the one
-- that forbids execution, is clear, also as a bit of the address.
abbrev pub leaf_word : (f : ℕ) → (writes : Bool) → ℕ
leaf_word f writes = f * 4096 % 2 ^ 63 + (if writes then 7 else 5)

-- The bits 1 to 11 of the flags are `t`, and bit 63 is `s`.
pub user_page_word_lem :
    (f flags s t : ℕ)
    → bit_and flags (not64 1) ≡ s * 2 ^ 63 + t
    → t < 4096
    → bit_or t 1 < 4096
    → user_page_word (f * 4096) flags ≡ f * 4096 % 2 ^ 63 + bit_or t 1
user_page_word_lem f flags s t cut low odd =
    let q = f / 2 ^ 51 in
    let r = f % 2 ^ 51 in
    let parts : f * 4096 ≡ q * 2 ^ 63 + r * 4096 = omega arith in
    let joined : bit_or (f * 4096) (bit_and flags (not64 1))
        ≡ bit_or q s * 2 ^ 63 + (r * 4096 + t) =
      ap (bit_or (f * 4096)) cut
      ∙ ap (λ x. bit_or x (s * 2 ^ 63 + t)) parts
      ∙ bit_or_split 63 q (r * 4096) s t (omega arith) (omega arith)
      ∙ ap (λ x. bit_or q s * 2 ^ 63 + x) (bit_or_fields 12 r t (omega arith)) in
    let regrouped : bit_or q s * 2 ^ 63 + (r * 4096 + t) ≡ (bit_or q s * 2 ^ 51 + r) * 4096 + t =
      omega arith in
    let word : bit_or (bit_or (f * 4096) (bit_and flags (not64 1))) 1
        ≡ (bit_or q s * 2 ^ 51 + r) * 4096 + bit_or t 1 =
      ap (λ x. bit_or x 1) (joined ∙ regrouped)
      ∙ bit_or_low 12 (bit_or q s * 2 ^ 51 + r) t 1 (omega arith) (omega arith) in
    let masked = bit_and_low 63 (bit_or (bit_or (f * 4096) (bit_and flags (not64 1))) 1) in
    masked ∙ omega (arith, word, odd)
