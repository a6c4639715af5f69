-- ===== src/Elf/Put.antt =====
-- A segment that `load_elf` put into memory stays while others are loaded.
use sonna_os.Prelude.{
  ℕ, ◌+◌, ◌-◌, ◌/◌, ◌<◌, ◌≤◌, ◌≡◌, ◌≢◌, refl, ◌∙◌, ap, inl, inr, Bool-cases, add64, sub64, arith,
}
use sonna_os.Memory.{Mem}
use sonna_os.Memory.Copy.{within}
use sonna_os.Memory.Word.{bytes_value-frame, read64-frame}
use sonna_os.Vmm.{Vm}
use sonna_os.Vmm.Entry.{index-lt}
use sonna_os.Vmm.Table.{Root, page}
use sonna_os.Pmm.{test_frame}
use sonna_os.Vmm.Keep.{IsApart}
use sonna_os.Vmm.Advance.{Advances, InFrame-byte, InFrame-Advances}
use sonna_os.Vmm.Range.{page_at, leaf, leaf-IsPath}
use sonna_os.Elf.{Elf64Phdr, page_start, num_pages, read_phdr}
use sonna_os.Elf.Pages.{covered_of, IsLoadable}
use sonna_os.Elf.Load.{segment_byte, IsLoaded, Loaded}

pub read_phdr-frame :
    (m m' : Mem) (p : ℕ)
    → ((b : ℕ) → p ≤ b → b < p + 56 → m' b ≡ m b)
    → read_phdr m' p ≡ read_phdr m p
unfolding read_phdr
read_phdr-frame m m' p same =
    rw
      (
        bytes_value-frame 4 m m' p (λ b low high. same b (omega arith) (omega arith)),
        bytes_value-frame 4 m m' (p + 4) (λ b low high. same b (omega arith) (omega arith)),
        read64-frame m m' (p + 8) (λ b low high. same b (omega arith) (omega arith)),
        read64-frame m m' (p + 16) (λ b low high. same b (omega arith) (omega arith)),
        read64-frame m m' (p + 32) (λ b low high. same b (omega arith) (omega arith)),
        read64-frame m m' (p + 40) (λ b low high. same b (omega arith) (omega arith)),
      )
      refl

-- What a segment needs stays while others are loaded, and so does a segment that was loaded.
module _ (vm vm' : Vm) (root : Root) (elf_data : ℕ) (ph : Elf64Phdr)
    (step : Advances vm root vm') where
  pub IsLoadable-Advances : IsLoadable vm root elf_data ph → IsLoadable vm' root elf_data ph
  IsLoadable-Advances loadable = record {
    file_part = loadable.file_part;
    top = loadable.top;
    covers = loadable.covers;
    in_frames = λ b low high. InFrame-Advances vm vm' root b step (loadable.in_frames b low high);
  }

  pub IsLoaded-Advances :
      (file : Mem) (start : ℕ)
      → IsLoadable vm root elf_data ph
      → IsLoaded vm root file elf_data ph start
      → IsLoaded vm' root file elf_data ph start
  IsLoaded-Advances file start loadable is = record {
    own = λ k lt. (step.keeps.frames (start + k) (is.own k lt)).still;
    leads = λ k lt.
        let at = page_at (page_start ph.p_vaddr) k in
        step.stays _ (leaf at) _ (index-lt 12 at)
          (leaf-IsPath root at (covered_of loadable k (omega arith) (omega (arith, lt)))) refl
          (is.leads k lt);
    content = λ o lt.
        ap (λ h. vm'.mem (page h start + o)) step.hhdm
        ∙ (step.keeps.frames (start + o / 4096) (is.own (o / 4096) (omega arith))).bytes
            (page vm.pmm.hhdm_offset start + o) (omega arith) (omega arith)
        ∙ is.content o lt;
  }

  segment_byte-Advances :
      IsLoadable vm root elf_data ph
      → (o : ℕ) → segment_byte vm'.mem elf_data ph o ≡ segment_byte vm.mem elf_data ph o
  segment_byte-Advances loadable o =
      let skip = sub64 ph.p_vaddr (page_start ph.p_vaddr) in
      let source = add64 elf_data ph.p_offset in
      elim (Bool-cases (within skip ph.p_filesz o)) [
        | inr off ↦ rw off refl
        | inl inside ↦ rw inside (
            InFrame-byte vm vm' root (source + (o - skip)) step
              (loadable.in_frames (source + (o - skip)) (omega arith) (ground arith)))
      ]

  -- The file is the one that was there before.
  IsLoaded-file :
      (vm2 : Vm) (start : ℕ)
      → IsLoadable vm root elf_data ph
      → IsLoaded vm2 root vm'.mem elf_data ph start
      → IsLoaded vm2 root vm.mem elf_data ph start
  IsLoaded-file vm2 start loadable is = record {
    own = is.own;
    leads = is.leads;
    content = λ o lt. is.content o lt ∙ segment_byte-Advances loadable o;
  }

-- A segment of the file in `vm.mem` is in memory in `vm'`, in frames that were not in use in
-- `vm`, tables aside.
pub record IsPut (vm : Vm) (root : Root) (elf_data : ℕ) (vm' : Vm) (ph : Elf64Phdr) : Type 0 where
  pub start : ℕ
  pub is_loaded : IsLoaded vm' root vm.mem elf_data ph start
  pub apart : (f n : ℕ) → IsApart vm root f → n < num_pages ph → start + n ≢ f

pub Loaded-IsPut :
    (vm vm' : Vm) (root : Root) (elf_data : ℕ) (ph : Elf64Phdr)
    → Loaded vm root elf_data ph vm'
    → IsPut vm root elf_data vm' ph
Loaded-IsPut vm vm' root elf_data ph loaded = record {
  start = loaded.start;
  is_loaded = loaded.is_loaded;
  apart = λ f n apart lt e.
      absurd (ground (arith, loaded.unused n lt, ap (test_frame vm.pmm.bitmap) e, apart.used));
}

pub IsPut-Advances :
    (vm vm1 vm2 : Vm) (root : Root) (elf_data : ℕ) (ph : Elf64Phdr)
    → Advances vm1 root vm2
    → IsLoadable vm1 root elf_data ph
    → IsPut vm root elf_data vm1 ph
    → IsPut vm root elf_data vm2 ph
IsPut-Advances vm vm1 vm2 root elf_data ph step loadable is = record {
  start = is.start;
  is_loaded = IsLoaded-Advances vm1 vm2 root elf_data ph step vm.mem is.start loadable is.is_loaded;
  apart = is.apart;
}

pub IsPut-file :
    (vm vm1 vm2 : Vm) (root : Root) (elf_data : ℕ) (ph : Elf64Phdr)
    → Advances vm root vm1
    → IsLoadable vm root elf_data ph
    → IsPut vm1 root elf_data vm2 ph
    → IsPut vm root elf_data vm2 ph
IsPut-file vm vm1 vm2 root elf_data ph step loadable is = record {
  start = is.start;
  is_loaded = IsLoaded-file vm vm1 root elf_data ph step vm2 is.start loadable is.is_loaded;
  apart = λ f n apart lt. is.apart f n ((step.keeps.frames f apart).still) lt;
}
