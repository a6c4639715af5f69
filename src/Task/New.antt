-- ===== src/Task/New.antt =====
-- The start of `task_create_from_elf`: a page for the `task_t`, and page tables.
use sonna_os.Prelude.{
  ℕ, ◌+◌, ◌*◌, ◌^◌, ◌<◌, ◌≤◌, ◌≡◌, ◌⊎◌, refl, sym, subst, ◌∙◌, inl, inr, true, false, Option, none,
  some, arith,
}
use sonna_os.Memory.{Mem}
use sonna_os.Memory.Word.{
  bytes_value, write_bytes, read64, write_bytes-Outside, bytes_value-write_bytes, bytes_value-frame,
  bytes_value-zero, read64-zero, read64-frame,
}
use sonna_os.Pmm.{Pmm, test_frame, page_size, alloc_zeroed}
use sonna_os.Pmm.Search.{any}
use sonna_os.Pmm.Valid.{IsValid, Allocated}
use sonna_os.Pmm.Zeroed.{IsCleared, alloc_frames_zeroed-IsCleared}
use sonna_os.Vmm.{Vm, phys_to_virt}
use sonna_os.Vmm.Table.{page}
use sonna_os.Vmm.Fresh.{one_frame, cleared_at}
use sonna_os.Vmm.Take.{used_outside}
use sonna_os.Task.{taken, take_page, set_pid}

-- The `task_t` at `task` as it is before its stack and registers: ready, the last one, with `pid`.
pub record IsBlank (m : Mem) (task pid : ℕ) : Type 0 where
  pub state : bytes_value 4 m (task + 24) ≡ 0
  pub pid_field : bytes_value 4 m (task + 28) ≡ pid
  pub next : read64 m (task + 32) ≡ 0

pub IsBlank-frame :
    (m m' : Mem) (task pid : ℕ)
    → ((b : ℕ) → task + 24 ≤ b → b < task + 40 → m' b ≡ m b)
    → IsBlank m task pid
    → IsBlank m' task pid
IsBlank-frame m m' task pid same is = record {
  state =
      bytes_value-frame 4 m m' (task + 24) (λ b low high. same b (omega arith) (omega arith))
      ∙ is.state;
  pid_field =
      bytes_value-frame 4 m m' (task + 28) (λ b low high. same b (omega arith) (omega arith))
      ∙ is.pid_field;
  next = read64-frame m m' (task + 32) (λ b low high. same b (omega arith) (omega arith)) ∙ is.next;
}

-- The frame `t` was free and is a blank task now; the frames in use keep their bytes.
pub record NewTask (vm : Vm) (pid task : ℕ) (vm' : Vm) : Type 0 where
  pub t : ℕ
  pub unused : test_frame vm.pmm.bitmap t ≡ false
  pub place : task ≡ page vm.pmm.hhdm_offset t
  pub inside : t < vm'.pmm.bitmap_frames
  pub used : test_frame vm'.pmm.bitmap t ≡ true
  pub valid : IsValid vm'.pmm
  pub room : vm'.pmm.hhdm_offset + vm'.pmm.bitmap_frames * page_size < 2 ^ 64
  pub hhdm : vm'.pmm.hhdm_offset ≡ vm.pmm.hhdm_offset
  pub frames : vm'.pmm.bitmap_frames ≡ vm.pmm.bitmap_frames
  pub kernel : vm'.kernel_pml4_phys ≡ vm.kernel_pml4_phys
  pub marks : (f : ℕ) → test_frame vm.pmm.bitmap f ≡ true → test_frame vm'.pmm.bitmap f ≡ true
  pub bytes :
      (f b : ℕ)
      → test_frame vm.pmm.bitmap f ≡ true
      → page vm.pmm.hhdm_offset f ≤ b
      → b < page vm.pmm.hhdm_offset f + 4096
      → vm'.mem b ≡ vm.mem b
  pub is_blank : IsBlank vm'.mem task pid

module _ (vm : Vm) (pid a : ℕ) (s : Pmm) (m : Mem) (valid : IsValid vm.pmm)
    (room : vm.pmm.hhdm_offset + vm.pmm.bitmap_frames * page_size < 2 ^ 64) (small : pid < 2 ^ 32)
    (out : Allocated vm.pmm any 1 a s)
    (cleared : IsCleared vm.mem (a + vm.pmm.hhdm_offset) 4096 m) where
  abbrev h : ℕ
  h = vm.pmm.hhdm_offset

  abbrev task : ℕ
  task = page h out.start

  abbrev fresh : Vm
  fresh = record vm { pmm = s; mem = m }

  abbrev task_mem : Mem
  task_mem = write_bytes 4 m (task + 28) pid

  pub task_place : phys_to_virt fresh a ≡ task
  unfolding phys_to_virt
  task_place = omega (arith, out.address, out.same_hhdm, out.inside, room)

  zero_byte :
      (b : ℕ) → task ≤ b → b < task + 4096 → (b < task + 28) ⊎ (task + 32 ≤ b) → task_mem b ≡ 0
  zero_byte b low high off =
      write_bytes-Outside 4 m (task + 28) pid b (ground arith)
      ∙ cleared_at vm.mem m (a + h) 4096 b cleared (omega (arith, out.address))
          (omega (arith, out.address))

  pub fresh-NewTask : NewTask vm pid task (set_pid fresh task pid)
  fresh-NewTask = record {
    t = out.start;
    unused = (out.run).1 out.start (omega arith) (omega arith);
    place = refl;
    inside = omega (arith, out.inside, out.same_frames);
    used = ground (arith, out.marked out.start);
    valid = out.valid;
    room = omega (arith, room, out.same_hhdm, out.same_frames);
    hhdm = out.same_hhdm;
    frames = out.same_frames;
    kernel = refl;
    marks = λ f used. ground (arith, out.marked f, used);
    bytes = λ f b used low high.
        let off = used_outside vm.pmm a 1 s out f b used low high in
        write_bytes-Outside 4 m (task + 28) pid b (ground arith)
        ∙ cleared.outside b (ground (arith, out.address));
    is_blank = record {
      state =
          bytes_value-zero 4 task_mem (task + 24)
            (λ b low high. zero_byte b (omega arith) (omega arith) (inl (omega arith)));
      pid_field = bytes_value-write_bytes 4 m (task + 28) pid (omega (arith, small));
      next =
          read64-zero task_mem (task + 32)
            (λ b low high. zero_byte b (omega arith) (omega arith) (inr (omega arith)));
    };
  }

take_page_lem : (vm : Vm) → take_page vm ≡ taken vm (alloc_zeroed vm.pmm vm.mem)
unfolding take_page
take_page_lem vm = refl

abbrev pub task_of : ℕ × Vm → ℕ
task_of (phys, vm) = phys_to_virt vm phys

abbrev pub named : ℕ × Vm → (pid : ℕ) → Vm
named (phys, vm) pid = set_pid vm (phys_to_virt vm phys) pid

-- A page for a task, when there is one.
pub take_page-NewTask :
    (vm : Vm) (pid a : ℕ)
    → IsValid vm.pmm
    → vm.pmm.hhdm_offset + vm.pmm.bitmap_frames * page_size < 2 ^ 64
    → pid < 2 ^ 32
    → (alloc_zeroed vm.pmm vm.mem).0 ≡ some a
    → NewTask vm pid (task_of (take_page vm)) (named (take_page vm) pid)
take_page-NewTask vm pid a valid room small got =
    subst (λ r. NewTask vm pid (task_of r) (named r pid)) (sym (take_page_lem vm))
      (go (alloc_zeroed vm.pmm vm.mem) refl got)
  where
    go :
        (r : Option ℕ × Pmm × Mem)
        → alloc_zeroed vm.pmm vm.mem ≡ r
        → r.0 ≡ some a
        → NewTask vm pid (task_of (taken vm r)) (named (taken vm r) pid)
    go (none, s, m) e got = absurd (cc)
    go (some b, s, m) e got =
        let (out, cleared) =
          alloc_frames_zeroed-IsCleared vm.pmm vm.mem 1 valid room
            (sym (one_frame vm.pmm vm.mem) ∙ e) in
        subst (λ x. NewTask vm pid x (set_pid (record vm { pmm = s; mem = m }) x pid))
          (sym (task_place vm pid b s m valid room small out cleared))
          (fresh-NewTask vm pid b s m valid room small out cleared)
