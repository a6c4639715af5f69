-- ===== src/Elf/Pages.antt =====
-- The pages of a segment that `load_elf` loads: how many, where, and with which entries.
use sonna_os.Prelude.{
  ℕ, not, ◌==◌, ◌%◌, bit_and, ◌+◌, ◌*◌, ◌/◌, ◌^◌, ◌<◌, ◌≤◌, ◌≡◌, refl, inl, inr, Bool, Bool-cases,
  true, add64, sub64, arith,
}
use sonna_os.Vmm.{Vm, pml4_index}
use sonna_os.Pmm.Align.{page_mask}
use sonna_os.Prelude.Bits.{bit_and_low, bit_and_high}
use sonna_os.Vmm.Word.{leaf_word, user_page_word_lem}
use sonna_os.Vmm.Ops.{user_page_word}
use sonna_os.Vmm.Table.{Root}
use sonna_os.Vmm.Advance.{InFrames}
use sonna_os.Vmm.Range.{page_at, IsRangeCovered}
use sonna_os.Elf.{Elf64Phdr, page_start, num_pages, pte_flags}

-- The file's part of a segment is no longer than the segment, which ends at most at 2^48, its
-- pages below entries of the root that count; in memory the file's part lies in frames that are
-- in use and no tables.
pub record IsLoadable (vm : Vm) (root : Root) (elf_data : ℕ) (ph : Elf64Phdr) : Type 0 where
  pub file_part : ph.p_filesz ≤ ph.p_memsz
  pub top : ph.p_vaddr + ph.p_memsz ≤ 2 ^ 48
  pub covers :
      (a : ℕ)
      → ph.p_vaddr / 4096 * 4096 ≤ a
      → a < ph.p_vaddr + ph.p_memsz
      → root.covers (pml4_index a) ≡ true
  pub in_frames : InFrames vm root (add64 elf_data ph.p_offset) ph.p_filesz

-- The pages of a segment, as arithmetic.
pub page_start_lem : (v : ℕ) → v < 2 ^ 64 → page_start v ≡ v / 4096 * 4096
page_start_lem v lt = page_mask v lt

pub num_pages_lem :
    (ph : Elf64Phdr)
    → ph.p_vaddr + ph.p_memsz ≤ 2 ^ 48
    → num_pages ph ≡ (ph.p_memsz + ph.p_vaddr % 4096 + 4095) / 4096
num_pages_lem ph top = omega (arith, page_start_lem ph.p_vaddr (omega arith))

module _ {vm : Vm} {root : Root} {elf_data : ℕ} {ph : Elf64Phdr}
    (loadable : IsLoadable vm root elf_data ph) where
  start_is : page_start ph.p_vaddr ≡ ph.p_vaddr / 4096 * 4096
  start_is = page_start_lem ph.p_vaddr (omega (arith, loadable.top))

  count_is : num_pages ph ≡ (ph.p_memsz + ph.p_vaddr % 4096 + 4095) / 4096
  count_is = num_pages_lem ph loadable.top

  pub fits_of : sub64 ph.p_vaddr (page_start ph.p_vaddr) + ph.p_filesz ≤ num_pages ph * 4096
  fits_of = omega (arith, loadable.file_part, loadable.top, start_is, count_is)

  pub low_of : page_start ph.p_vaddr + num_pages ph * 4096 ≤ 2 ^ 48
  low_of = omega (arith, loadable.top, start_is, count_is)

  pub covered_of : IsRangeCovered root (page_start ph.p_vaddr) 0 (num_pages ph)
  covered_of k from to =
      loadable.covers (page_at (page_start ph.p_vaddr) k)
        (omega (arith, loadable.top, start_is, count_is))
        (omega (arith, loadable.top, start_is, count_is))

-- Whether the segment may be written.
abbrev pub may_write : Elf64Phdr → Bool
may_write ph = not (ph.p_flags / 2 % 2 == 0)

-- The entry for a page with the segment's flags.
pub pte_flags-word :
    (f flags : ℕ)
    → user_page_word (f * 4096) (pte_flags flags) ≡ leaf_word f (not (flags / 2 % 2 == 0))
unfolding pte_flags
pte_flags-word f flags =
    let write_bit : (bit_and flags 2 == 0) ≡ (flags / 2 % 2 == 0) =
      ground (arith, bit_and_high 1 flags 1, bit_and_low 1 (flags / 2)) in
    elim (Bool-cases (flags / 2 % 2 == 0)) [
      | inl reads ↦ elim (Bool-cases (bit_and flags 1 == 0)) [
        | inl data_only ↦
            rw (write_bit, reads, data_only)
              (user_page_word_lem f (5 + 2 ^ 63) 1 4 refl (omega arith) (omega arith))
        | inr code ↦
            rw (write_bit, reads, code)
              (user_page_word_lem f 5 0 4 refl (omega arith) (omega arith))
      ]
      | inr writes ↦ elim (Bool-cases (bit_and flags 1 == 0)) [
        | inl data_only ↦
            rw (write_bit, writes, data_only)
              (user_page_word_lem f (7 + 2 ^ 63) 1 6 refl (omega arith) (omega arith))
        | inr code ↦
            rw (write_bit, writes, code)
              (user_page_word_lem f 7 0 6 refl (omega arith) (omega arith))
      ]
    ]
