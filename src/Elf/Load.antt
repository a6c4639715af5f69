-- ===== src/Elf/Load.antt =====
-- A round of `load_elf`: the segment's pages lead to frames that were free.
use sonna_os.Prelude.{
  ℕ, zero, suc, ◌+◌, ◌-◌, ◌*◌, ◌/◌, ◌<◌, ◌≤◌, ◌≡◌, ◌⊎◌, refl, sym, subst, ◌∙◌, ap, inl, inr, Bool,
  Bool-cases, true, false, leb, if◌then◌else◌, Option, none, some, add64, sub64, arith,
}
use sonna_os.Memory.{Mem, write, copy_up, memcpy}
use sonna_os.Memory.Copy.{within, copy_up-at}
use sonna_os.Pmm.{Pmm, test_frame, alloc_frames_zeroed}
use sonna_os.Pmm.Search.{any}
use sonna_os.Pmm.Valid.{Allocated}
use sonna_os.Pmm.Zeroed.{IsCleared, alloc_frames_zeroed-IsCleared}
use sonna_os.Vmm.{Vm}
use sonna_os.Vmm.Word.{leaf_word}
use sonna_os.Vmm.Ops.{user_page_word, vmm_map_range_for_pml4}
use sonna_os.Vmm.Table.{Root, page}
use sonna_os.Vmm.Extends.{IsVm, lookup_in}
use sonna_os.Vmm.Keep.{IsApart}
use sonna_os.Vmm.Map.{page_path}
use sonna_os.Vmm.Advance.{Advances, Advances-trans}
use sonna_os.Vmm.Take.{used_outside, taken-Advances, taken-IsApart}
use sonna_os.Vmm.Range.{page_at, Mapped, range-Mapped}
use sonna_os.Elf.Pages.{IsLoadable, may_write, fits_of, low_of, covered_of, pte_flags-word}
use sonna_os.Elf.{
  Elf64Phdr, page_start, num_pages, pte_flags, map_result, fill_segment, load_segment,
}

copy_up-Outside :
    (left : ℕ) (m : Mem) (dest src i a : ℕ)
    → (a < dest + i) ⊎ (dest + i + left ≤ a)
    → copy_up left m dest src i a ≡ m a
unfolding copy_up write
copy_up-Outside zero m dest src i a out = refl
copy_up-Outside (suc left) m dest src i a out =
    copy_up-Outside left (write m (dest + i) (m (src + i))) dest src (i + 1) a (ground arith)
    ∙ ground arith

memcpy-Outside :
    (m : Mem) (dest src n a : ℕ) → (a < dest) ⊎ (dest + n ≤ a) → memcpy m dest src n a ≡ m a
unfolding memcpy
memcpy-Outside m dest src n a out = copy_up-Outside n m dest src 0 a (ground arith)

memcpy_lem : (m : Mem) (dest src n a : ℕ) → memcpy m dest src n a ≡ copy_up n m dest src 0 a
unfolding memcpy
memcpy_lem m dest src n a = refl

map_result-true :
    (phys count : ℕ) (r : Bool × Vm)
    → (map_result phys count r).0 ≡ true
    → (r.0 ≡ true) × ((map_result phys count r).1 ≡ r.1)
map_result-true phys count (true, vm) ok = (refl, refl)
map_result-true phys count (false, vm) ok = absurd (ground arith)

-- The byte `o` of a segment's pages: the file's part, and zeros around it.
abbrev pub segment_byte : Mem → (elf_data : ℕ) → Elf64Phdr → (o : ℕ) → ℕ
segment_byte m elf_data ph o =
    let skip = sub64 ph.p_vaddr (page_start ph.p_vaddr) in
    if within skip ph.p_filesz o then m (add64 elf_data ph.p_offset + (o - skip)) else 0

-- The segment `ph` of the file in `file` is in memory: its pages lead to the frames from `start`
-- on, which are in use, are no tables, and hold the segment's bytes.
pub record IsLoaded (vm : Vm) (root : Root) (file : Mem) (elf_data : ℕ) (ph : Elf64Phdr) (start : ℕ)
    : Type 0 where
  pub own : (k : ℕ) → k < num_pages ph → IsApart vm root (start + k)
  pub leads :
      (k : ℕ)
      → k < num_pages ph
      → lookup_in vm root (page_path (page_at (page_start ph.p_vaddr) k))
        ≡ some (leaf_word (start + k) (may_write ph))
  pub content :
      (o : ℕ)
      → o < num_pages ph * 4096
      → vm.mem (page vm.pmm.hhdm_offset start + o) ≡ segment_byte file elf_data ph o

-- What loading the segment does.
pub record Loaded (vm : Vm) (root : Root) (elf_data : ℕ) (ph : Elf64Phdr) (vm' : Vm) : Type 0 where
  pub advances : Advances vm root vm'
  pub start : ℕ
  pub is_loaded : IsLoaded vm' root vm.mem elf_data ph start
  pub unused : (k : ℕ) → k < num_pages ph → test_frame vm.pmm.bitmap (start + k) ≡ false

-- What a copy to `skip` bytes behind `start` leaves among zeros.
copied_byte :
    (m file : Mem) (dest source n start skip o : ℕ)
    → dest ≡ start + skip
    → m (start + o) ≡ 0
    → ((b : ℕ) → source ≤ b → b < source + n → m b ≡ file b)
    → (if within (dest + 0) n (start + o) then m (source + (start + o - dest)) else m (start + o))
      ≡ (if within skip n o then file (source + (o - skip)) else 0)
copied_byte m file dest source n start skip o place empty same =
    let same_place : within (dest + 0) n (start + o) ≡ within skip n o = ground arith in
    rw (same_place) (elim (Bool-cases (within skip n o)) [
      | inr off ↦ rw off empty
      | inl inside ↦
          let offset : start + o - dest ≡ o - skip = ground arith in
          rw (inside, offset) (same (source + (o - skip)) (omega arith) (ground arith))
    ])

-- The frames of a segment once its bytes are there.
module _ (vm : Vm) (root : Root) (elf_data : ℕ) (ph : Elf64Phdr) (phys : ℕ) (s : Pmm) (m : Mem)
    (is : IsVm vm root) (loadable : IsLoadable vm root elf_data ph)
    (out : Allocated vm.pmm any (num_pages ph) phys s)
    (cleared : IsCleared vm.mem (phys + vm.pmm.hhdm_offset) (num_pages ph * 4096) m) where
  abbrev dest : ℕ
  dest = add64 (add64 phys s.hhdm_offset) (sub64 ph.p_vaddr (page_start ph.p_vaddr))

  abbrev source : ℕ
  source = add64 elf_data ph.p_offset

  abbrev filled : Mem
  filled = memcpy m dest source ph.p_filesz

  place : dest ≡ page vm.pmm.hhdm_offset out.start + sub64 ph.p_vaddr (page_start ph.p_vaddr)
  place = omega (arith, out.address, out.inside, out.same_hhdm, is.room, fits_of loadable)

  filled_outside :
      (b : ℕ)
      → (b < page vm.pmm.hhdm_offset out.start)
        ⊎ (page vm.pmm.hhdm_offset (out.start + num_pages ph) ≤ b)
      → filled b ≡ vm.mem b
  filled_outside b off =
      memcpy-Outside m dest source ph.p_filesz b (ground (arith, place, fits_of loadable))
      ∙ cleared.outside b (ground (arith, out.address))

  source_outside :
      (b : ℕ)
      → source ≤ b
      → b < source + ph.p_filesz
      → (b < page vm.pmm.hhdm_offset out.start)
        ⊎ (page vm.pmm.hhdm_offset (out.start + num_pages ph) ≤ b)
  source_outside b low high =
      let at = loadable.in_frames b low high in
      used_outside vm.pmm phys (num_pages ph) s out at.frame b at.is_apart.used at.from at.to

  source_apart : (dest ≤ source) ⊎ (source + (0 + ph.p_filesz) ≤ dest)
  source_apart = elim (Bool-cases (leb dest source)) [
    | inl le ↦ inl (ground arith)
    | inr gt ↦ elim (Bool-cases (leb (source + ph.p_filesz) dest)) [
      | inl le ↦ inr (ground arith)
      | inr lt ↦ absurd (
          ground
            (arith, source_outside dest (ground arith) (ground arith), place, fits_of loadable))
    ]
  ]

  source_byte : (b : ℕ) → source ≤ b → b < source + ph.p_filesz → m b ≡ vm.mem b
  source_byte b low high =
      cleared.outside b (ground (arith, source_outside b low high, out.address))

  filled_content :
      (o : ℕ)
      → o < num_pages ph * 4096
      → filled (page vm.pmm.hhdm_offset out.start + o) ≡ segment_byte vm.mem elf_data ph o
  filled_content o lt =
      let start = page vm.pmm.hhdm_offset out.start in
      let skip = sub64 ph.p_vaddr (page_start ph.p_vaddr) in
      let empty : m (start + o) ≡ 0 =
        ap (λ p. m (p + vm.pmm.hhdm_offset + o)) (sym out.address) ∙ cleared.inside o lt in
      let copied = copy_up-at ph.p_filesz m dest source 0 (start + o) source_apart in
      memcpy_lem m dest source ph.p_filesz (start + o)
      ∙ copied
      ∙ copied_byte m vm.mem dest source ph.p_filesz start skip o place empty source_byte

  abbrev stored : Vm
  stored = record vm { pmm = s; mem = filled }

  stored-Advances : Advances vm root stored
  stored-Advances = taken-Advances vm root phys (num_pages ph) s filled is out filled_outside

  stored-IsApart : (k : ℕ) → k < num_pages ph → IsApart stored root (out.start + k)
  stored-IsApart = taken-IsApart vm root phys (num_pages ph) s filled is out filled_outside

  -- And once the pages are mapped.
  pub stored-Loaded :
      (vm' : Vm)
      → Mapped stored root
          (page_start ph.p_vaddr)
          phys
          0
          (num_pages ph)
          (pte_flags ph.p_flags)
          true
          vm'
      → Loaded vm root elf_data ph vm'
  stored-Loaded vm' mapped = record {
    advances = Advances-trans vm stored vm' root stored-Advances mapped.advances;
    start = out.start;
    is_loaded = record {
      own = λ k lt. (mapped.advances.keeps.frames (out.start + k) (stored-IsApart k lt)).still;
      leads = λ k lt.
          mapped.mapped k refl (omega arith) (omega (arith, lt))
          ∙ ap some (
              ap (λ p. user_page_word p (pte_flags ph.p_flags))
                (omega (arith, lt, out.address, out.inside, is.valid.small))
              ∙ pte_flags-word (out.start + k) ph.p_flags);
      content = λ o lt.
          let h : vm'.pmm.hhdm_offset ≡ vm.pmm.hhdm_offset = mapped.advances.hhdm ∙ out.same_hhdm in
          ap (λ h. vm'.mem (page h out.start + o)) h
          ∙ (mapped.advances.keeps.frames (out.start + o / 4096)
                (stored-IsApart (o / 4096) (omega arith))).bytes
              (page vm.pmm.hhdm_offset out.start + o) (omega (arith, out.same_hhdm))
              (omega (arith, out.same_hhdm))
          ∙ filled_content o lt;
    };
    unused = λ k lt. (out.run).1 (out.start + k) (omega arith) (omega arith);
  }

fill_segment-Loaded :
    (vm : Vm) (root : Root) (elf_data : ℕ) (ph : Elf64Phdr) (r : Option ℕ × Pmm × Mem)
    → alloc_frames_zeroed vm.pmm vm.mem (num_pages ph) ≡ r
    → IsVm vm root
    → IsLoadable vm root elf_data ph
    → (fill_segment elf_data root.address ph vm r).0 ≡ true
    → Loaded vm root elf_data ph (fill_segment elf_data root.address ph vm r).1
fill_segment-Loaded vm root elf_data ph (none, s, m) e is loadable ok = absurd (ground arith)
fill_segment-Loaded vm root elf_data ph (some phys, s, m) e is loadable ok =
    let (out, cleared) =
      alloc_frames_zeroed-IsCleared vm.pmm vm.mem (num_pages ph) is.valid is.room e in
    let vm1 = stored vm root elf_data ph phys s m is loadable out cleared in
    let start = page_start ph.p_vaddr in
    let call =
      vmm_map_range_for_pml4 vm1 root.address start phys (num_pages ph) (pte_flags ph.p_flags) in
    let (mapped, after) = map_result-true phys (num_pages ph) call ok in
    let range =
      range-Mapped vm1 root start phys (num_pages ph) (pte_flags ph.p_flags)
        (stored-Advances vm root elf_data ph phys s m is loadable out cleared).is_vm
        (low_of loadable) (covered_of loadable) in
    subst (λ v. Loaded vm root elf_data ph v) (sym after)
      (stored-Loaded vm root elf_data ph phys s m is loadable out cleared call.1 (
        subst (λ b. Mapped vm1 root start phys 0 (num_pages ph) (pte_flags ph.p_flags) b call.1)
          mapped range))

load_segment_lem :
    (elf_data pml4 : ℕ) (ph : Elf64Phdr) (vm : Vm)
    → load_segment elf_data pml4 ph vm
      ≡ fill_segment elf_data pml4 ph vm (alloc_frames_zeroed vm.pmm vm.mem (num_pages ph))
unfolding load_segment
load_segment_lem elf_data pml4 ph vm = refl

-- When load_elf has loaded a segment, the allocator is sound and the page tables are well formed
-- as before, and each page of the segment, in order, leads to a frame of one run that was free and
-- is no table, for the user and writable if the segment says so, whose bytes are the file's part
-- of the segment in its place and zeros around it; no translation that was there is lost, and no
-- other frame in use that is no table changes.
pub load_segment-Loaded :
    (vm : Vm) (root : Root) (elf_data : ℕ) (ph : Elf64Phdr)
    → IsVm vm root
    → IsLoadable vm root elf_data ph
    → (load_segment elf_data root.address ph vm).0 ≡ true
    → Loaded vm root elf_data ph (load_segment elf_data root.address ph vm).1
load_segment-Loaded vm root elf_data ph is loadable ok =
    let shut = load_segment_lem elf_data root.address ph vm in
    subst (λ r. Loaded vm root elf_data ph r.1) (sym shut)
      (fill_segment-Loaded vm root elf_data ph (alloc_frames_zeroed vm.pmm vm.mem (num_pages ph))
        refl is loadable (sym (ap (λ r. r.0) shut) ∙ ok))
