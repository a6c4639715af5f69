-- ===== src/Elf/Segments.antt =====
-- `load_elf` as a whole: the program in memory, and the other trees of page tables.
use sonna_os.Prelude.{
  ℕ, ◌%◌, ◌^◌, ◌+◌, ◌*◌, ◌/◌, ◌<◌, ◌≡◌, ◌≢◌, refl, sym, subst, ◌∙◌, ap, inl, inr, Bool, Bool-cases,
  true, false, if◌then◌else◌, not, none, some, Option, List, ◌∷◌, add64, arith,
}
use sonna_os.Vmm.{Vm}
use sonna_os.Vmm.Table.{Root, IsPath}
use sonna_os.Vmm.Extends.{IsVm, lookup_in}
use sonna_os.Vmm.Keep.{IsApart}
use sonna_os.Vmm.Advance.{Advances, InFrames, AreApart, other_lookup}
use sonna_os.Elf.{Elf64Ehdr, Elf64Phdr, read_ehdr, is_valid, read_phdr, load_segments, load_elf}
use sonna_os.Elf.InMemory.{IsInMemory, frame_at, frame_in, IsLoaded-IsInMemory}
use sonna_os.Elf.Rounds.{AreLoadable, RoundsDone, load_segments-RoundsDone}

-- The program in the file can be loaded: its header lies in frames in use that are no tables, and
-- has a number of 16 bits of program headers, whose segments can be loaded.
pub record IsProgram (vm : Vm) (root : Root) (elf_data : ℕ) : Type 0 where
  pub header_in : InFrames vm root elf_data 64
  pub count : (read_ehdr vm.mem elf_data).e_phnum < 2 ^ 16
  pub headers :
      AreLoadable vm root elf_data
        (add64 elf_data (read_ehdr vm.mem elf_data).e_phoff)
        0
        (read_ehdr vm.mem elf_data).e_phnum

-- A segment of the file in `vm.mem` is in memory in `vm'`, in frames that were not in use in
-- `vm`, tables aside.
pub record IsPlaced (vm : Vm) (root : Root) (elf_data : ℕ) (vm' : Vm) (ph : Elf64Phdr)
    : Type 0 where
  pub start : ℕ
  pub in_memory : IsInMemory vm' root vm.mem elf_data ph start
  pub fresh : (f o : ℕ) → IsApart vm root f → o < ph.p_memsz → frame_at ph start o ≢ f

-- The program in the file is loaded.
pub record AreLoaded (vm : Vm) (root : Root) (elf_data : ℕ) (vm' : Vm) : Type 0 where
  pub advances : Advances vm root vm'
  pub placed :
      (k : ℕ)
      → k < (read_ehdr vm.mem elf_data).e_phnum
      → (read_phdr vm.mem (add64 elf_data (read_ehdr vm.mem elf_data).e_phoff + 56 * k)).p_type ≡ 1
      → IsPlaced vm root elf_data vm'
          (read_phdr vm.mem (add64 elf_data (read_ehdr vm.mem elf_data).e_phoff + 56 * k))

-- `load_elf` as a whole.
module _ (vm : Vm) (root : Root) (elf_data : ℕ) where
  abbrev header : Elf64Ehdr
  header = read_ehdr vm.mem elf_data

  abbrev phdr : ℕ
  phdr = add64 elf_data header.e_phoff

  load_elf_lem : load_elf elf_data root.address vm ≡ (
      if not (is_valid header)
      then (none, (false, vm))
      else (some header.e_entry, load_segments (2 ^ 16) elf_data root.address phdr 0 vm))
  unfolding load_elf
  load_elf_lem = refl

  pub load_elf-RoundsDone :
      IsVm vm root
      → IsProgram vm root elf_data
      → (load_elf elf_data root.address vm).1.0 ≡ true
      → (is_valid header ≡ true)
        × ((load_elf elf_data root.address vm).0 ≡ some header.e_entry)
        × RoundsDone vm root elf_data phdr 0 header.e_phnum (load_elf elf_data root.address vm).1.1
  load_elf-RoundsDone is can ok = elim (Bool-cases (is_valid header)) [
    | inr bad ↦
        let call : load_elf elf_data root.address vm ≡ (none, (false, vm)) =
          load_elf_lem ∙ rw bad refl in
        let failed : false ≡ true = sym (ap (λ (r : Option ℕ × (Bool × Vm)). r.1.0) call) ∙ ok in
        absurd (cc)
    | inl good ↦
        let segments = load_segments (2 ^ 16) elf_data root.address phdr 0 vm in
        let call : load_elf elf_data root.address vm ≡ (some header.e_entry, segments) =
          load_elf_lem ∙ rw good refl in
        let loaded =
          load_segments-RoundsDone header.e_phnum (2 ^ 16) vm root elf_data phdr 0
            (omega (arith, can.count)) (omega arith) can.header_in is can.headers
            (sym (ap (λ (r : Option ℕ × (Bool × Vm)). r.1.0) call) ∙ ok) in
        (
          good,
          ap (λ (r : Option ℕ × (Bool × Vm)). r.0) call,
          subst
              (λ (r : Option ℕ × (Bool × Vm)).
                RoundsDone vm root elf_data phdr 0 header.e_phnum r.1.1)
              (sym call) loaded,
        )
  ]

  -- When load_elf succeeds, the file had a valid header, the entry point is the header's, and for
  -- each program header of the type to be loaded there is a run of frames such that every byte of
  -- the segment's p_memsz lies in the run in its order: the page tables lead the byte's address to
  -- its frame, present, for the user, writable if and only if the header's write flag is set, and
  -- with the no-execute bit clear whatever the header says, and the byte is the file's if it is
  -- one of the first p_filesz and 0 otherwise. These frames are in use, no tables, and were not in
  -- use before, tables aside. The allocator and the page tables stay well formed, no translation
  -- that was there is lost and no other frame in use that is no table changes. The page tables
  -- must be well formed before; the file's header, the program headers and the segments' bytes
  -- must lie in frames in use that are no tables; for each segment p_filesz must be at most
  -- p_memsz, its end at most 2^48 and its pages below entries of the root that count.
  pub load_elf-AreLoaded :
      IsVm vm root
      → IsProgram vm root elf_data
      → (load_elf elf_data root.address vm).1.0 ≡ true
      → (is_valid header ≡ true)
        × ((load_elf elf_data root.address vm).0 ≡ some header.e_entry)
        × AreLoaded vm root elf_data (load_elf elf_data root.address vm).1.1
  load_elf-AreLoaded is can ok =
      let vm' = (load_elf elf_data root.address vm).1.1 in
      let (good, entry, done) = load_elf-RoundsDone is can ok in
      (
        good,
        entry,
        record {
          advances = done.advances;
          placed = λ k lt load.
              let ph = read_phdr vm.mem (phdr + 56 * k) in
              let loadable = can.headers.loadable k (omega arith) (omega (arith, lt)) load in
              let put = done.loaded k (omega arith) (omega (arith, lt)) load in
              record {
                start = put.start;
                in_memory =
                    IsLoaded-IsInMemory vm' root vm vm.mem elf_data ph put.start loadable
                      put.is_loaded;
                fresh = λ f o apart inside.
                    put.apart f ((ph.p_vaddr % 4096 + o) / 4096) apart
                      (frame_in vm' root vm vm.mem elf_data ph put.start loadable o inside);
              };
        },
      )

  -- When load_elf has loaded a program under the conditions of load_elf-AreLoaded, every
  -- translation of every other tree of page tables is the one it was, when no table of that tree
  -- is a table of the program's.
  pub load_elf-other :
      (other : Root)
      → IsVm vm root
      → IsProgram vm root elf_data
      → AreApart vm root other
      → (load_elf elf_data root.address vm).1.0 ≡ true
      → (j : ℕ) (path : List ℕ) → j < 512
      → IsPath other path
      → lookup_in (load_elf elf_data root.address vm).1.1 other (j ∷ path)
        ≡ lookup_in vm other (j ∷ path)
  load_elf-other other is can apart ok =
      other_lookup vm (load_elf elf_data root.address vm).1.1 root other
        (load_elf-AreLoaded is can ok).2.advances apart
