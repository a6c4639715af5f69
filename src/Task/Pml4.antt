-- ===== src/Task/Pml4.antt =====
-- The page tables that a task starts with: none of its own, and the kernel's half.
use native.Mathlib.Nat.{pow-suc}
use sonna_os.Prelude.{
  ℕ, zero, suc, ◌+◌, ◌*◌, ◌^◌, ◌<◌, ◌≤◌, ◌≡◌, ◌≢◌, ◌⊎◌, refl, sym, subst, ◌∙◌, ap, ap₂, inl, inr,
  Bool-cases, true, false, ltb, ◌==◌, ==→eq, not, ◌%◌, Option, none, some, add64, arith,
}
use sonna_os.Memory.{Mem}
use sonna_os.Memory.Word.{
  bytes_value, read64, read64-write64, read64-write64_ne, read64-frame, read64-zero,
  write64-Outside,
}
use sonna_os.Pmm.{Pmm, test_frame, page_size, alloc_zeroed}
use sonna_os.Pmm.Search.{any}
use sonna_os.Pmm.Valid.{IsValid, Allocated}
use sonna_os.Pmm.Zeroed.{IsCleared, alloc_frames_zeroed-IsCleared}
use sonna_os.Vmm.{Vm, slot, set_word, phys_to_virt}
use sonna_os.Vmm.Entry.{is_present_lem}
use sonna_os.Vmm.Table.{Root, page, IsPlaced}
use sonna_os.Vmm.Extends.{IsVm}
use sonna_os.Vmm.Empty.{root-IsSpace}
use sonna_os.Vmm.Fresh.{one_frame, cleared_at}
use sonna_os.Task.{taken, take_page, copy_entries, share_kernel, new_pml4}

-- A task's tree: the entries below 256 are its own.
abbrev pub task_root : (address : ℕ) → Root
task_root address = record { address = address; covers = λ i. ltb i 256 }

bytes_value-lt :
    (n : ℕ) (m : Mem) (p : ℕ)
    → ((b : ℕ) → p ≤ b → b < p + n → m b < 256)
    → bytes_value n m p < 256 ^ n
unfolding bytes_value
bytes_value-lt zero m p small = omega arith
bytes_value-lt (suc n) m p small =
    let here = small p (omega arith) (omega arith) in
    let rest = bytes_value-lt n m (p + 1) (λ b low high. small b (omega arith) (omega arith)) in
    omega (arith, here, rest, pow-suc 256 n)

pub read64-lt : (m : Mem) (p : ℕ) → ((b : ℕ) → p ≤ b → b < p + 8 → m b < 256) → read64 m p < 2 ^ 64
unfolding read64
read64-lt m p small = bytes_value-lt 8 m p small

-- What the loop leaves: the entries `i` to `i + left` are the kernel's, and no other byte changed.
record Copied (vm : Vm) (pml4 kpml4 i left : ℕ) (vm' : Vm) : Type 0 where
  same_pmm : vm'.pmm ≡ vm.pmm
  same_kernel : vm'.kernel_pml4_phys ≡ vm.kernel_pml4_phys
  outside : (b : ℕ) → (b < slot pml4 i) ⊎ (slot pml4 (i + left) ≤ b) → vm'.mem b ≡ vm.mem b
  from_kernel :
      (j : ℕ) → i ≤ j → j < i + left → read64 vm'.mem (slot pml4 j) ≡ read64 vm.mem (slot kpml4 j)

copy_entries-Copied :
    (left : ℕ) (vm : Vm) (pml4 kpml4 i : ℕ)
    → i + left ≤ 512
    → (kpml4 + 4096 ≤ pml4) ⊎ (pml4 + 4096 ≤ kpml4)
    → ((j : ℕ) → j < 512 → read64 vm.mem (slot kpml4 j) < 2 ^ 64)
    → Copied vm pml4 kpml4 i left (copy_entries left vm pml4 kpml4 i)
unfolding copy_entries
copy_entries-Copied zero vm pml4 kpml4 i room apart small = record {
  same_pmm = refl;
  same_kernel = refl;
  outside = λ b off. refl;
  from_kernel = λ j low high. absurd (omega arith);
}
copy_entries-Copied (suc left) vm pml4 kpml4 i room apart small =
    let word = read64 vm.mem (slot kpml4 i) in
    let vm1 = set_word vm (slot pml4 i) word in
    let source : (j : ℕ) → j < 512 → read64 vm1.mem (slot kpml4 j) ≡ read64 vm.mem (slot kpml4 j) =
      λ j lj. read64-write64_ne vm.mem (slot pml4 i) word (slot kpml4 j) (ground (arith, apart)) in
    let rest =
      copy_entries-Copied left vm1 pml4 kpml4 (i + 1) (omega arith) apart
        (λ j lj. omega (arith, source j lj, small j lj)) in
    record {
      same_pmm = rest.same_pmm;
      same_kernel = rest.same_kernel;
      outside = λ b off.
          rest.outside b (ground arith)
          ∙ write64-Outside vm.mem (slot pml4 i) word b (ground arith);
      from_kernel = λ j low high. elim (Bool-cases (j == i)) [
        | inl here ↦
            let same = ==→eq j i here in
            let kept =
              read64-frame vm1.mem (copy_entries left vm1 pml4 kpml4 (i + 1)).mem (slot pml4 i)
                (λ b from to. rest.outside b (inl (omega arith))) in
            subst
              (λ n.
                read64 (copy_entries left vm1 pml4 kpml4 (i + 1)).mem (slot pml4 n)
                ≡ read64 vm.mem (slot kpml4 n))
              (sym same) (kept ∙ read64-write64 vm.mem (slot pml4 i) word (small i (omega arith)))
        | inr later ↦ rest.from_kernel j (ground arith) (omega arith) ∙ source j (omega arith)
      ];
    }

-- What a new tree is, and what it leaves as it was.
pub record NewTree (vm : Vm) (kpml4 : ℕ) (r : ℕ × Vm) : Type 0 where
  pub n : ℕ
  pub unused : test_frame vm.pmm.bitmap n ≡ false
  pub address : r.0 ≡ n * 4096
  pub small : r.0 < 2 ^ 64
  pub place : phys_to_virt r.1 r.0 ≡ page vm.pmm.hhdm_offset n
  pub is_vm : IsVm r.1 (task_root (page vm.pmm.hhdm_offset n))
  pub same_hhdm : r.1.pmm.hhdm_offset ≡ vm.pmm.hhdm_offset
  pub same_kernel : r.1.kernel_pml4_phys ≡ vm.kernel_pml4_phys
  pub own_half : (i : ℕ) → i < 256 → read64 r.1.mem (slot (page vm.pmm.hhdm_offset n) i) ≡ 0
  pub kernel_half :
      (i : ℕ)
      → 256 ≤ i
      → i < 512
      → read64 r.1.mem (slot (page vm.pmm.hhdm_offset n) i) ≡ read64 vm.mem (slot kpml4 i)
  pub marks : (f : ℕ) → test_frame vm.pmm.bitmap f ≡ true → test_frame r.1.pmm.bitmap f ≡ true
  pub bytes :
      (f b : ℕ)
      → test_frame vm.pmm.bitmap f ≡ true
      → page vm.pmm.hhdm_offset f ≤ b
      → b < page vm.pmm.hhdm_offset f + 4096
      → r.1.mem b ≡ vm.mem b

-- The kernel's PML4 is the frame `kf`, in use, and memory holds bytes there.
pub record IsKernelTable (vm : Vm) (kf : ℕ) : Type 0 where
  pub address : vm.kernel_pml4_phys ≡ kf * 4096
  pub inside : kf < vm.pmm.bitmap_frames
  pub used : test_frame vm.pmm.bitmap kf ≡ true
  pub are_bytes :
      (b : ℕ)
      → page vm.pmm.hhdm_offset kf ≤ b
      → b < page vm.pmm.hhdm_offset kf + 4096
      → vm.mem b < 256

module _ (vm : Vm) (kf a : ℕ) (s : Pmm) (m : Mem) (valid : IsValid vm.pmm)
    (room : vm.pmm.hhdm_offset + vm.pmm.bitmap_frames * page_size < 2 ^ 64)
    (kernel : IsKernelTable vm kf) (out : Allocated vm.pmm any 1 a s)
    (cleared : IsCleared vm.mem (a + vm.pmm.hhdm_offset) 4096 m) where
  abbrev fresh : Vm
  fresh = record vm { pmm = s; mem = m }

  abbrev h : ℕ
  h = vm.pmm.hhdm_offset

  abbrev pml4 : ℕ
  pml4 = page h out.start

  abbrev kpml4 : ℕ
  kpml4 = page h kf

  abbrev root : Root
  root = task_root pml4

  -- A frame in use is another one.
  other_frame : (f : ℕ) → test_frame vm.pmm.bitmap f ≡ true → f ≢ out.start
  other_frame f used e =
      let unused = (out.run).1 out.start (omega arith) (omega arith) in
      absurd (ground (arith, unused, ap (test_frame vm.pmm.bitmap) e, used))

  cleared_elsewhere :
      (f b : ℕ)
      → test_frame vm.pmm.bitmap f ≡ true
      → page h f ≤ b
      → b < page h f + 4096
      → m b ≡ vm.mem b
  cleared_elsewhere f b used low high =
      cleared.outside b (ground (arith, other_frame f used, out.address))

  kernel_entry : (j : ℕ) → j < 512 → read64 m (slot kpml4 j) ≡ read64 vm.mem (slot kpml4 j)
  kernel_entry j lj =
      read64-frame vm.mem m (slot kpml4 j)
        (λ b low high. cleared_elsewhere kf b kernel.used (omega arith) (omega (arith, high, lj)))

  fresh_place : phys_to_virt fresh a ≡ pml4
  unfolding phys_to_virt
  fresh_place = omega (arith, out.address, out.same_hhdm, out.inside, room)

  kernel_place : phys_to_virt fresh fresh.kernel_pml4_phys ≡ kpml4
  unfolding phys_to_virt
  kernel_place = omega (arith, kernel.address, out.same_hhdm, kernel.inside, room)

  abbrev copied_vm : Vm
  copied_vm = copy_entries 256 fresh pml4 kpml4 256

  copied_vm-Copied : Copied fresh pml4 kpml4 256 256 copied_vm
  copied_vm-Copied =
      copy_entries-Copied 256 fresh pml4 kpml4 256 (omega arith)
        (ground (arith, other_frame kf kernel.used))
        λ j lj. omega (
          arith,
          kernel_entry j lj,
          read64-lt vm.mem (slot kpml4 j)
              (λ b low high. kernel.are_bytes b (omega arith) (omega (arith, high, lj))),
        )

  own_empty : (i : ℕ) → i < 256 → read64 copied_vm.mem (slot pml4 i) ≡ 0
  own_empty i li = read64-zero copied_vm.mem (slot pml4 i) (λ b low high.
      copied_vm-Copied.outside b (inl (omega arith))
      ∙ cleared_at vm.mem m (a + h) 4096 b cleared (omega (arith, out.address))
          (omega (arith, out.address)))

  root-IsPlaced : IsPlaced copied_vm.pmm pml4
  root-IsPlaced =
      subst (λ p. IsPlaced p pml4) (sym copied_vm-Copied.same_pmm)
        (record {
          frame = out.start;
          address = ap (λ x. page x out.start) (sym out.same_hhdm);
          inside = omega (arith, out.inside, out.same_frames);
          used = ground (arith, out.marked out.start);
        })

  copied-IsVm : IsVm copied_vm root
  copied-IsVm = record {
    valid = subst IsValid (sym copied_vm-Copied.same_pmm) out.valid;
    room =
        subst (λ (p : Pmm). p.hhdm_offset + p.bitmap_frames * page_size < 2 ^ 64)
          (sym copied_vm-Copied.same_pmm) (omega (arith, room, out.same_hhdm, out.same_frames));
    space =
        root-IsSpace copied_vm.pmm copied_vm.mem root
          (λ i li own.
            is_present_lem (read64 copied_vm.mem (slot pml4 i))
            ∙ ap (λ x. not (x % 2 == 0)) (own_empty i (ground arith)))
          root-IsPlaced;
  }

  copied_call : share_kernel (a, fresh) ≡ (a, copied_vm)
  copied_call = ap₂ (λ x y. (a, copy_entries 256 fresh x y 256)) fresh_place kernel_place

  copied_place : phys_to_virt copied_vm a ≡ pml4
  unfolding phys_to_virt
  copied_place = ap (λ (p : Pmm). add64 a p.hhdm_offset) copied_vm-Copied.same_pmm ∙ fresh_place

  pub copied-NewTree : NewTree vm kpml4 (a, copied_vm)
  copied-NewTree = record {
    n = out.start;
    unused = (out.run).1 out.start (omega arith) (omega arith);
    address = out.address;
    small = omega (arith, out.address, out.inside, room);
    place = copied_place;
    is_vm = copied-IsVm;
    same_hhdm = ap (λ (p : Pmm). p.hhdm_offset) copied_vm-Copied.same_pmm ∙ out.same_hhdm;
    same_kernel = copied_vm-Copied.same_kernel;
    own_half = own_empty;
    kernel_half = λ i low high.
        copied_vm-Copied.from_kernel i low (omega arith) ∙ kernel_entry i (omega arith);
    marks = λ f used.
        subst (λ (p : Pmm). test_frame p.bitmap f ≡ true) (sym copied_vm-Copied.same_pmm)
          (ground (arith, out.marked f, used));
    bytes = λ f b used low high.
        copied_vm-Copied.outside b (ground (arith, other_frame f used))
        ∙ cleared_elsewhere f b used low high;
  }

new_pml4_lem : (vm : Vm) → new_pml4 vm ≡ share_kernel (taken vm (alloc_zeroed vm.pmm vm.mem))
unfolding new_pml4 take_page
new_pml4_lem vm = refl

-- When the allocator is sound and has a frame, the window of physical memory does not wrap, and
-- the kernel's table is a frame in use that holds bytes, new_pml4 gives a frame that was free,
-- whose entries below 256 are all zero and whose others are the kernel's; it is a well-formed
-- tree of page tables, and the frames in use stay in use with their bytes.
pub new_pml4-NewTree :
    (vm : Vm) (kf a : ℕ)
    → IsValid vm.pmm
    → vm.pmm.hhdm_offset + vm.pmm.bitmap_frames * page_size < 2 ^ 64
    → IsKernelTable vm kf
    → (alloc_zeroed vm.pmm vm.mem).0 ≡ some a
    → NewTree vm (page vm.pmm.hhdm_offset kf) (new_pml4 vm)
new_pml4-NewTree vm kf a valid room kernel got =
    subst (NewTree vm (page vm.pmm.hhdm_offset kf)) (sym (new_pml4_lem vm))
      (go (alloc_zeroed vm.pmm vm.mem) refl got)
  where
    go :
        (r : Option ℕ × Pmm × Mem)
        → alloc_zeroed vm.pmm vm.mem ≡ r
        → r.0 ≡ some a
        → NewTree vm (page vm.pmm.hhdm_offset kf) (share_kernel (taken vm r))
    go (none, s, m) e got = absurd (cc)
    go (some b, s, m) e got =
        let (out, cleared) =
          alloc_frames_zeroed-IsCleared vm.pmm vm.mem 1 valid room
            (sym (one_frame vm.pmm vm.mem) ∙ e) in
        subst (NewTree vm (page vm.pmm.hhdm_offset kf))
          (sym (copied_call vm kf b s m valid room kernel out cleared))
          (copied-NewTree vm kf b s m valid room kernel out cleared)
