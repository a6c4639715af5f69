-- ===== src/Elf/InMemory.antt =====
-- A segment as the program finds it in its memory, byte by byte.
use sonna_os.Prelude.{
  ℕ, ◌+◌, ◌-◌, ◌*◌, ◌/◌, ◌%◌, ◌<◌, ◌≡◌, refl, ◌∙◌, ap, ltb, if◌then◌else◌, some, add64, sub64,
  arith,
}
use sonna_os.Memory.{Mem}
use sonna_os.Memory.Copy.{within}
use sonna_os.Vmm.{Vm, index}
use sonna_os.Vmm.Entry.{index_lem}
use sonna_os.Vmm.Table.{Root, page}
use sonna_os.Vmm.Extends.{lookup_in}
use sonna_os.Vmm.Keep.{IsApart}
use sonna_os.Vmm.Map.{page_path}
use sonna_os.Vmm.Range.{page_at}
use sonna_os.Vmm.Word.{leaf_word}
use sonna_os.Elf.{Elf64Phdr, page_start, num_pages}
use sonna_os.Elf.Pages.{IsLoadable, may_write, page_start_lem, num_pages_lem}
use sonna_os.Elf.Load.{segment_byte, IsLoaded}

-- The frame of the byte `o` of a segment, in a run of frames from `start` on that begins with the
-- page of the segment's first byte.
abbrev pub frame_at : Elf64Phdr → (start o : ℕ) → ℕ
frame_at ph start o = start + (ph.p_vaddr % 4096 + o) / 4096

-- The segment `ph` of the file in `file` is in memory: each of its bytes lies in the run of frames
-- from `start` on, the tree of page tables leads the byte's address to its frame, for the user
-- and to be written only if the segment says so, and the byte is the file's, or 0 behind the
-- file's part. The frames are in use and no tables.
pub record IsInMemory (vm : Vm) (root : Root) (file : Mem) (elf_data : ℕ) (ph : Elf64Phdr)
    (start : ℕ) : Type 0 where
  pub own : (o : ℕ) → o < ph.p_memsz → IsApart vm root (frame_at ph start o)
  pub leads :
      (o : ℕ)
      → o < ph.p_memsz
      → lookup_in vm root (page_path (ph.p_vaddr + o))
        ≡ some (leaf_word (frame_at ph start o) (may_write ph))
  pub content :
      (o : ℕ)
      → o < ph.p_memsz
      → vm.mem (page vm.pmm.hhdm_offset start + (ph.p_vaddr % 4096 + o))
        ≡ (if ltb o ph.p_filesz then file (add64 elf_data ph.p_offset + o) else 0)

-- Addresses of one page have the same indices.
pub page_path-page : (a b : ℕ) → a / 4096 ≡ b / 4096 → page_path a ≡ page_path b
page_path-page a b same =
    rw
      (
        at 12 (omega (arith, index_lem 12 a, index_lem 12 b)),
        at 21 (omega (arith, index_lem 21 a, index_lem 21 b)),
        at 30 (omega (arith, index_lem 30 a, index_lem 30 b)),
        at 39 (omega (arith, index_lem 39 a, index_lem 39 b)),
      )
      refl
  where
    at : (shift : ℕ) → index shift a ≡ index shift b → index shift a ≡ index shift b
    at shift e = e

module _ (vm : Vm) (root : Root) (other : Vm) (file : Mem) (elf_data : ℕ) (ph : Elf64Phdr)
    (start : ℕ) (loadable : IsLoadable other root elf_data ph) where
  abbrev skip : ℕ
  skip = sub64 ph.p_vaddr (page_start ph.p_vaddr)

  start_is : page_start ph.p_vaddr ≡ ph.p_vaddr / 4096 * 4096
  start_is = page_start_lem ph.p_vaddr (omega (arith, loadable.top))

  skip_is : skip ≡ ph.p_vaddr % 4096
  skip_is = omega (arith, loadable.top, start_is)

  -- The pages are enough for the segment.
  pub frame_in : (o : ℕ) → o < ph.p_memsz → (ph.p_vaddr % 4096 + o) / 4096 < num_pages ph
  frame_in o lt = omega (arith, num_pages_lem ph loadable.top)

  segment_byte_lem :
      (o : ℕ)
      → segment_byte file elf_data ph (ph.p_vaddr % 4096 + o)
        ≡ (if ltb o ph.p_filesz then file (add64 elf_data ph.p_offset + o) else 0)
  segment_byte_lem o =
      let inside : within skip ph.p_filesz (ph.p_vaddr % 4096 + o) ≡ ltb o ph.p_filesz =
        ground (arith, skip_is) in
      let place : ph.p_vaddr % 4096 + o - skip ≡ o = omega (arith, skip_is) in
      rw (inside, place) refl

  pub IsLoaded-IsInMemory :
      IsLoaded vm root file elf_data ph start → IsInMemory vm root file elf_data ph start
  IsLoaded-IsInMemory loaded = record {
    own = λ o lt. loaded.own ((ph.p_vaddr % 4096 + o) / 4096) (frame_in o lt);
    leads = λ o lt.
        let k = (ph.p_vaddr % 4096 + o) / 4096 in
        let inside = frame_in o lt in
        ap (lookup_in vm root) (
          page_path-page (ph.p_vaddr + o) (page_at (page_start ph.p_vaddr) k)
            (omega (arith, lt, inside, loadable.top, start_is)))
        ∙ loaded.leads k inside;
    content = λ o lt.
        loaded.content (ph.p_vaddr % 4096 + o) (omega (arith, frame_in o lt)) ∙ segment_byte_lem o;
  }
