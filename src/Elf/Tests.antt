-- ===== src/Elf/Tests.antt =====
-- A program of one segment in a small memory: kernel/arch/x86_64/usermode/elf.c on it.
use sonna_os.Prelude.{
  ℕ, zero, suc, ◌+◌, ◌-◌, ◌*◌, ◌%◌, ◌^◌, ◌<◌, ◌≤◌, ◌≡◌, add64, refl, sym, subst, ◌∙◌, ap, true,
  false, ltb, not, ◌==◌, if◌then◌else◌, some, List, [], ◌∷◌, get_or, arith,
}
use sonna_os.Memory.{Mem}
use sonna_os.Memory.Word.{read64, read64-zero}
use sonna_os.Pmm.{Pmm, test_frame}
use sonna_os.Pmm.Bitmap.{IsBytes}
use sonna_os.Pmm.Frames.{clears}
use sonna_os.Pmm.Valid.{IsValid}
use sonna_os.Vmm.{Vm, is_present, slot, index, pml4_index}
use sonna_os.Vmm.Entry.{index_lem, is_present_lem}
use sonna_os.Vmm.Table.{Root, IsPath}
use sonna_os.Vmm.Extends.{IsVm, lookup_in}
use sonna_os.Vmm.Keep.{IsApart}
use sonna_os.Vmm.Advance.{InFrame, AreApart}
use sonna_os.Vmm.Empty.{root-IsSpace, root-is_table}
use sonna_os.Elf.{Elf64Phdr, read_ehdr, read_phdr, is_valid, load_elf}
use sonna_os.Elf.Pages.{IsLoadable}
use sonna_os.Elf.Rounds.{AreLoadable}
use sonna_os.Elf.Segments.{IsProgram, AreLoaded, load_elf-AreLoaded, load_elf-other}

-- The file: a header, and one program header that loads the file at 0x40201000.
abbrev pub image : List ℕ
image =
    0x7F ∷ 0x45 ∷ 0x4C ∷ 0x46 ∷ 2 ∷ 1 ∷ 1 ∷ 0 ∷ 0 ∷ 0 ∷ 0 ∷ 0 ∷ 0 ∷ 0 ∷ 0 ∷ 0 ∷ 2 ∷ 0 ∷ 0x3E ∷ 0 ∷ 1
    ∷ 0 ∷ 0 ∷ 0 ∷ 0 ∷ 0x10 ∷ 0x20 ∷ 0x40 ∷ 0 ∷ 0 ∷ 0 ∷ 0 ∷ 64 ∷ 0 ∷ 0 ∷ 0 ∷ 0 ∷ 0 ∷ 0 ∷ 0 ∷ 0 ∷ 0
    ∷ 0 ∷ 0 ∷ 0 ∷ 0 ∷ 0 ∷ 0 ∷ 0 ∷ 0 ∷ 0 ∷ 0 ∷ 64 ∷ 0 ∷ 56 ∷ 0 ∷ 1 ∷ 0 ∷ 0 ∷ 0 ∷ 0 ∷ 0 ∷ 0 ∷ 0 ∷ 1
    ∷ 0 ∷ 0 ∷ 0 ∷ 5 ∷ 0 ∷ 0 ∷ 0 ∷ 0 ∷ 0 ∷ 0 ∷ 0 ∷ 0 ∷ 0 ∷ 0 ∷ 0 ∷ 0 ∷ 0x10 ∷ 0x20 ∷ 0x40 ∷ 0 ∷ 0 ∷ 0
    ∷ 0 ∷ 0 ∷ 0 ∷ 0 ∷ 0 ∷ 0 ∷ 0 ∷ 0 ∷ 0 ∷ 120 ∷ 0 ∷ 0 ∷ 0 ∷ 0 ∷ 0 ∷ 0 ∷ 0 ∷ 120 ∷ 0 ∷ 0 ∷ 0 ∷ 0 ∷ 0
    ∷ 0 ∷ 0 ∷ 0 ∷ 0 ∷ 0 ∷ 0 ∷ 0 ∷ 0 ∷ 0 ∷ 0 ∷ []

-- Frame 0 holds the file, the frames 1 and 2 empty tables; they are in use, 45 others are not.
abbrev pub frames : Pmm
frames = record {
  bitmap = 0x07 ∷ 0 ∷ 0 ∷ 0 ∷ 0 ∷ 0 ∷ [];
  bitmap_bytes = 6;
  bitmap_frames = 48;
  total_frames = 48;
  usable_frames = 48;
  free_frames = 45;
  used_frames = 3;
  next_fit_hint = 1;
  hhdm_offset = 0x100000;
}

abbrev pub memory : Mem
memory = λ a. if ltb a 0x101000 then get_or image (a - 0x100000) 0 else 0

abbrev pub machine : Vm
machine = record { pmm = frames; mem = memory; kernel_pml4_phys = 0x1000 }

abbrev pub root : Root
root = record { address = 0x101000; covers = λ i. ltb i 256 }

abbrev pub elf : ℕ
elf = 0x100000

frames-IsBytes : IsBytes frames.bitmap
frames-IsBytes zero = omega arith
frames-IsBytes (suc zero) = omega arith
frames-IsBytes (suc (suc zero)) = omega arith
frames-IsBytes (suc (suc (suc zero))) = omega arith
frames-IsBytes (suc (suc (suc (suc zero)))) = omega arith
frames-IsBytes (suc (suc (suc (suc (suc zero))))) = omega arith
frames-IsBytes (suc (suc (suc (suc (suc (suc i)))))) = omega arith

pub frames-IsValid : IsValid frames
unfolding test_frame clears
frames-IsValid = record {
  bytes = frames-IsBytes;
  covers = omega arith;
  small = omega arith;
  hint_in = omega arith;
  zero_used = refl;
  counted = omega arith;
  balanced = refl;
}

nothing_there : (i : ℕ) → is_present (read64 memory (slot 0x101000 i)) ≡ false
nothing_there i =
    is_present_lem (read64 memory (slot 0x101000 i))
    ∙ ap (λ x. not (x % 2 == 0)) (read64-zero memory (slot 0x101000 i) (λ b low high. ground arith))

machine-IsVm : IsVm machine root
unfolding test_frame
machine-IsVm = record {
  valid = frames-IsValid;
  room = omega arith;
  space =
      root-IsSpace frames memory root (λ i li own. nothing_there i)
        (record { frame = 1; address = refl; inside = omega arith; used = refl });
}

-- The file's frame.
file-IsApart : IsApart machine root 0
unfolding test_frame
file-IsApart = record {
  used = refl;
  no_table = λ path p ip e c. absurd (
      omega (arith, root-is_table frames memory root (λ i li own. nothing_there i) path p ip e, c));
}

in_file : (b : ℕ) → 0x100000 ≤ b → b < 0x101000 → InFrame machine root b
in_file b low high = record {
  frame = 0;
  is_apart = file-IsApart;
  from = omega arith;
  to = omega arith;
}

pub task_covered : (virt : ℕ) → virt < 2 ^ 47 → root.covers (pml4_index virt) ≡ true
task_covered virt low = ground (arith, index_lem 39 virt)

abbrev pub segment : Elf64Phdr
segment = record {
  p_type = 1;
  p_flags = 5;
  p_offset = 0;
  p_vaddr = 0x40201000;
  p_filesz = 120;
  p_memsz = 120;
}

pub segment_there : read_phdr memory (elf + 64) ≡ segment
unfolding read_phdr sonna_os.Memory.Word.read64
segment_there = refl

pub header_there : ((read_ehdr memory elf).e_phnum ≡ 1) × ((read_ehdr memory elf).e_phoff ≡ 64)
unfolding read_ehdr sonna_os.Memory.Word.read64
header_there = (refl, refl)

segment-IsLoadable : IsLoadable machine root elf segment
segment-IsLoadable = record {
  file_part = omega arith;
  top = omega arith;
  covers = λ a low high. task_covered a (omega arith);
  in_frames = λ b low high. in_file b (omega arith) (omega arith);
}

-- The whole file.
file-AreLoadable : AreLoadable machine root elf (elf + 64) 0 1
file-AreLoadable = record {
  in_frames = λ k low high b from to. in_file b (omega arith) (omega (arith, to));
  loadable = λ k low high load.
      let only : k ≡ 0 = omega arith in
      let there : read_phdr memory (elf + 64 + 56 * k) ≡ segment =
        ap (λ k. read_phdr memory (elf + 64 + 56 * k)) only ∙ segment_there in
      subst (IsLoadable machine root elf) (sym there) segment-IsLoadable;
}

elf-AreLoadable :
    AreLoadable machine root elf
      (add64 elf (read_ehdr memory elf).e_phoff)
      0
      (read_ehdr memory elf).e_phnum
elf-AreLoadable =
    subst (λ n. AreLoadable machine root elf (add64 elf (read_ehdr memory elf).e_phoff) 0 n)
      (sym header_there.0)
      (subst (λ o. AreLoadable machine root elf (add64 elf o) 0 1) (sym header_there.1)
        file-AreLoadable)

elf-IsProgram : IsProgram machine root elf
elf-IsProgram = record {
  header_in = λ b low high. in_file b (omega arith) (omega (arith, high));
  count = omega (arith, header_there.0);
  headers = elf-AreLoadable;
}

loads_all : (load_elf elf root.address machine).1.0 ≡ true
unfolding load_elf sonna_os.Memory.Word.read64 test_frame sonna_os.Memory.Word.write64 index
    sonna_os.Memory.memset sonna_os.Memory.memcpy sonna_os.Pmm.set_frames sonna_os.Pmm.set_frame
    sonna_os.Pmm.alloc_zeroed
loads_all = refl

load_elf-AreLoaded_example :
    (is_valid (read_ehdr memory elf) ≡ true)
    × ((load_elf elf root.address machine).0 ≡ some (read_ehdr memory elf).e_entry)
    × AreLoaded machine root elf (load_elf elf root.address machine).1.1
load_elf-AreLoaded_example =
    load_elf-AreLoaded machine root elf machine-IsVm elf-IsProgram loads_all

-- Another task's table, in frame 2.
abbrev other : Root
other = record { address = 0x102000; covers = λ i. ltb i 256 }

other_empty : (i : ℕ) → is_present (read64 memory (slot 0x102000 i)) ≡ false
other_empty i =
    is_present_lem (read64 memory (slot 0x102000 i))
    ∙ ap (λ x. not (x % 2 == 0)) (read64-zero memory (slot 0x102000 i) (λ b low high. ground arith))

other-AreApart : AreApart machine root other
unfolding test_frame
other-AreApart = record {
  is_vm = record {
    valid = frames-IsValid;
    room = omega arith;
    space =
        root-IsSpace frames memory other (λ i li own. other_empty i)
          (record { frame = 2; address = refl; inside = omega arith; used = refl });
  };
  apart = λ path p f ip at here.
      let there = root-is_table frames memory other (λ i li own. other_empty i) path p ip at in
      let two : f ≡ 2 = omega (arith, there, here) in
      record {
        used = rw two refl;
        no_table = λ path p ip e c. absurd (
            omega (
              arith,
              root-is_table frames memory root (λ i li own. nothing_there i) path p ip e,
              c,
              two,
            ));
      };
}

other-IsPath : IsPath other (1 ∷ 1 ∷ 0 ∷ [])
other-IsPath = record {
  covered = refl;
  indices = (omega arith, (omega arith, (omega arith, tt)));
  short = omega arith;
}

load_elf-other_example :
    lookup_in (load_elf elf root.address machine).1.1 other (1 ∷ 1 ∷ 1 ∷ 0 ∷ [])
    ≡ lookup_in machine other (1 ∷ 1 ∷ 1 ∷ 0 ∷ [])
load_elf-other_example =
    load_elf-other machine root elf other machine-IsVm elf-IsProgram other-AreApart loads_all 1
      (1 ∷ 1 ∷ 0 ∷ []) (omega arith) other-IsPath
