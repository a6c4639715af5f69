-- ===== src/Task/Finish.antt =====
-- The end of `task_create_from_elf`: the kernel stack and the registers on it.
use sonna_os.Prelude.{
  ℕ, ◌+◌, ◌-◌, ◌^◌, ◌<◌, ◌≤◌, ◌≡◌, ◌≢◌, ◌⊎◌, refl, sym, subst, ◌∙◌, ap, inl, inr, Bool-cases, false,
  if◌then◌else◌, Option, none, some, List, ◌∷◌, length, add64, sub64, arith,
}
use sonna_os.Memory.{Mem}
use sonna_os.Memory.Copy.{within}
use sonna_os.Memory.Word.{
  read64, write64, read64-write64, read64-write64_ne, read64-frame, write64-Outside,
}
use sonna_os.Pmm.{Pmm, test_frame, alloc_frames_zeroed}
use sonna_os.Pmm.Search.{any}
use sonna_os.Pmm.Valid.{Allocated}
use sonna_os.Pmm.Zeroed.{IsCleared, alloc_frames_zeroed-IsCleared}
use sonna_os.Vmm.{Vm, phys_to_virt, slot}
use sonna_os.Vmm.Table.{Root, IsPath, page}
use sonna_os.Vmm.Extends.{IsVm, lookup_in}
use sonna_os.Vmm.Keep.{IsApart, Keeps}
use sonna_os.Vmm.Advance.{Advances}
use sonna_os.Vmm.Take.{used_outside, taken-Advances, taken-IsApart}
use sonna_os.Vmm.Store.{stored-IsVm, stored-lookup, stored-IsApart, stored-byte, stored-entry}
use sonna_os.Task.{task_stack_size, taken, take_pages, set_context, fill_task, finish_task}
use sonna_os.Task.Context.{
  IsContext, context_mem, context_mem-IsContext, context_mem-outside, set_context_lem,
  IsContext-frame,
}

-- The task whose `task_t` stands at the start of the frame `t` got a kernel stack and registers.
pub record Finished (vm : Vm) (root : Root) (t entry : ℕ) (vm' : Vm) : Type 0 where
  pub is_vm : IsVm vm' root
  pub hhdm : vm'.pmm.hhdm_offset ≡ vm.pmm.hhdm_offset
  pub stays :
      (j : ℕ) (a : List ℕ) (e : ℕ)
      → j < 512
      → IsPath root a
      → length a ≡ 3
      → lookup_in vm root (j ∷ a) ≡ some e
      → lookup_in vm' root (j ∷ a) ≡ some e
  pub frames : (g : ℕ) → IsApart vm root g → g ≢ t → Keeps vm root vm' g
  pub task : IsApart vm' root t
  pub shared :
      (j : ℕ)
      → j < 512
      → root.covers j ≡ false
      → read64 vm'.mem (slot root.address j) ≡ read64 vm.mem (slot root.address j)
  pub stack : ℕ
  pub own : (k : ℕ) → k < 16 → IsApart vm' root (stack + k)
  pub unused : (k : ℕ) → k < 16 → test_frame vm.pmm.bitmap (stack + k) ≡ false
  pub kernel_stack : read64 vm'.mem (page vm.pmm.hhdm_offset t + 16) ≡ page vm.pmm.hhdm_offset stack
  pub ctx : read64 vm'.mem (page vm.pmm.hhdm_offset t) ≡ page vm.pmm.hhdm_offset (stack + 16) - 160
  pub context : IsContext vm'.mem (page vm.pmm.hhdm_offset (stack + 16) - 160) entry
  pub fields :
      (b : ℕ)
      → page vm.pmm.hhdm_offset t + 8 ≤ b
      → b < page vm.pmm.hhdm_offset t + 4096
      → (b < page vm.pmm.hhdm_offset t + 16) ⊎ (page vm.pmm.hhdm_offset t + 24 ≤ b)
      → vm'.mem b ≡ vm.mem b

module _ (vm : Vm) (root : Root) (t entry a : ℕ) (s : Pmm) (m : Mem) (is : IsVm vm root)
    (apart : IsApart vm root t) (small : entry < 2 ^ 64) (out : Allocated vm.pmm any 16 a s)
    (cleared : IsCleared vm.mem (a + vm.pmm.hhdm_offset) task_stack_size m) where
  abbrev h : ℕ
  h = vm.pmm.hhdm_offset

  abbrev task_at : ℕ
  task_at = page h t

  abbrev stack_at : ℕ
  stack_at = page h out.start

  abbrev ctx_at : ℕ
  ctx_at = page h (out.start + 16) - 160

  abbrev with_stack : Mem
  with_stack = write64 m (task_at + 16) stack_at

  abbrev with_context : Mem
  with_context = context_mem with_stack ctx_at entry

  abbrev final_mem : Mem
  final_mem = write64 with_context task_at ctx_at

  abbrev final_vm : Vm
  final_vm = record vm { pmm = s; mem = final_mem }

  abbrev allocated : Vm
  allocated = record vm { pmm = s; mem = m }

  stack_place : phys_to_virt allocated a ≡ stack_at
  unfolding phys_to_virt
  stack_place = omega (arith, out.address, out.same_hhdm, out.inside, is.room)

  stack_small : stack_at < 2 ^ 64
  stack_small = omega (arith, out.inside, is.room)

  read_stack : read64 with_stack (task_at + 16) ≡ stack_at
  read_stack = read64-write64 m (task_at + 16) stack_at stack_small

  ctx_place : sub64 (add64 (read64 with_stack (task_at + 16)) task_stack_size) 160 ≡ ctx_at
  ctx_place = omega (arith, read_stack, out.inside, is.room)

  pub fill_task-final : fill_task task_at entry (a, allocated) ≡ final_vm
  fill_task-final =
      ap
        (λ x.
          fill_at x (
            sub64 (add64 (read64 (write64 m (task_at + 16) x) (task_at + 16)) task_stack_size) 160))
        stack_place
      ∙ ap (fill_at stack_at) ctx_place
      ∙ ap (λ (v : Vm). record v { mem = write64 v.mem task_at ctx_at })
          (set_context_lem (record vm { pmm = s; mem = with_stack }) ctx_at entry)
    where
      fill_at : (stack ctx : ℕ) → Vm
      fill_at stack ctx =
          let filled : Vm =
            set_context (record vm { pmm = s; mem = write64 m (task_at + 16) stack }) ctx entry in
          record filled { mem = write64 filled.mem task_at ctx }

  -- The task's frame and the stack's share no byte.
  task_outside :
      (b : ℕ) → task_at ≤ b → b < task_at + 4096 → (b < stack_at) ⊎ (page h (out.start + 16) ≤ b)
  task_outside b from to = used_outside vm.pmm a 16 s out t b apart.used from to

  task_below_or_above : (task_at + 4096 ≤ stack_at) ⊎ (page h (out.start + 16) ≤ task_at)
  task_below_or_above = ground (arith, task_outside task_at (omega arith) (omega arith))

  elsewhere :
      (b : ℕ)
      → (b < task_at) ⊎ (task_at + 4096 ≤ b)
      → (b < stack_at) ⊎ (page h (out.start + 16) ≤ b)
      → final_mem b ≡ vm.mem b
  elsewhere b off_task off_stack =
      write64-Outside with_context task_at ctx_at b (ground arith)
      ∙ context_mem-outside with_stack ctx_at entry b (ground arith)
      ∙ write64-Outside m (task_at + 16) stack_at b (ground arith)
      ∙ cleared.outside b (ground (arith, out.address))

  final_field :
      (b : ℕ)
      → task_at + 8 ≤ b
      → b < task_at + 4096
      → (b < task_at + 16) ⊎ (task_at + 24 ≤ b)
      → final_mem b ≡ vm.mem b
  final_field b from to off =
      let off_stack = task_outside b (omega arith) to in
      write64-Outside with_context task_at ctx_at b (inr from)
      ∙ context_mem-outside with_stack ctx_at entry b (ground arith)
      ∙ write64-Outside m (task_at + 16) stack_at b (ground arith)
      ∙ cleared.outside b (ground (arith, out.address))

  final_stack : read64 final_mem (task_at + 16) ≡ stack_at
  final_stack =
      read64-write64_ne with_context task_at ctx_at (task_at + 16) (inl (omega arith))
      ∙ read64-frame with_stack with_context (task_at + 16) (λ b from to.
        context_mem-outside with_stack ctx_at entry b (ground (arith, task_below_or_above)))
      ∙ read_stack

  final_ctx : read64 final_mem task_at ≡ ctx_at
  final_ctx = read64-write64 with_context task_at ctx_at (omega (arith, out.inside, is.room))

  final-IsContext : IsContext final_mem ctx_at entry
  final-IsContext =
      IsContext-frame with_context final_mem ctx_at entry
        (λ b from to.
          write64-Outside with_context task_at ctx_at b (ground (arith, task_below_or_above)))
        (context_mem-IsContext with_stack ctx_at entry small)

  -- First the task's frame, then the stack.
  abbrev task_mem : Mem
  task_mem = λ b. if within task_at 4096 b then final_mem b else vm.mem b

  task_mem-outside : (b : ℕ) → (b < task_at) ⊎ (task_at + 4096 ≤ b) → task_mem b ≡ vm.mem b
  task_mem-outside b off =
      let out_of : within task_at 4096 b ≡ false = ground arith in rw out_of refl

  stack_rest : (b : ℕ) → (b < stack_at) ⊎ (page h (out.start + 16) ≤ b) → final_mem b ≡ task_mem b
  stack_rest b off = elim (Bool-cases (within task_at 4096 b)) [
    | inl inside ↦ rw inside refl
    | inr out_of ↦ rw out_of (elsewhere b (ground arith) off)
  ]

  abbrev between : Vm
  between = record vm { mem = task_mem }

  between-IsVm : IsVm between root
  between-IsVm = stored-IsVm vm root t task_mem is apart task_mem-outside

  final-Advances : Advances between root final_vm
  final-Advances = taken-Advances between root a 16 s final_mem between-IsVm out stack_rest

  between-IsApart : (g : ℕ) → IsApart vm root g → IsApart between root g
  between-IsApart g is_apart =
      stored-IsApart vm root t task_mem is apart task_mem-outside g is_apart

  pub final-Finished : Finished vm root t entry final_vm
  final-Finished = record {
    is_vm = final-Advances.is_vm;
    hhdm = out.same_hhdm;
    stays = λ j path e lj ip deep there.
        final-Advances.stays j path e lj ip deep
          (stored-lookup vm root t task_mem is apart task_mem-outside j path lj ip ∙ there);
    frames = λ g is_apart ne.
        let kept = final-Advances.keeps.frames g (between-IsApart g is_apart) in
        record {
          still = kept.still;
          bytes = λ b from to.
              kept.bytes b from to
              ∙ stored-byte vm root t task_mem is apart task_mem-outside g b ne from to;
        };
    task = (final-Advances.keeps.frames t (between-IsApart t apart)).still;
    shared = λ j lj off.
        final-Advances.keeps.shared j lj off
        ∙ stored-entry vm root t task_mem is apart task_mem-outside j lj;
    stack = out.start;
    own = taken-IsApart between root a 16 s final_mem between-IsVm out stack_rest;
    unused = λ k lt. (out.run).1 (out.start + k) (omega arith) (omega arith);
    kernel_stack = final_stack;
    ctx = final_ctx;
    context = final-IsContext;
    fields = final_field;
  }

finish_task_lem :
    (vm : Vm) (task entry : ℕ)
    → finish_task vm task entry
      ≡ fill_task task entry (taken vm (alloc_frames_zeroed vm.pmm vm.mem 16))
unfolding finish_task take_pages
finish_task_lem vm task entry = refl

pub finish_task-Finished :
    (vm : Vm) (root : Root) (t entry a : ℕ)
    → IsVm vm root
    → IsApart vm root t
    → entry < 2 ^ 64
    → (alloc_frames_zeroed vm.pmm vm.mem 16).0 ≡ some a
    → Finished vm root t entry (finish_task vm (page vm.pmm.hhdm_offset t) entry)
finish_task-Finished vm root t entry a is apart small got =
    subst (Finished vm root t entry) (sym (finish_task_lem vm (page vm.pmm.hhdm_offset t) entry))
      (go (alloc_frames_zeroed vm.pmm vm.mem 16) refl got)
  where
    go :
        (r : Option ℕ × Pmm × Mem)
        → alloc_frames_zeroed vm.pmm vm.mem 16 ≡ r
        → r.0 ≡ some a
        → Finished vm root t entry (fill_task (page vm.pmm.hhdm_offset t) entry (taken vm r))
    go (none, s, m) e got = absurd (cc)
    go (some b, s, m) e got =
        let (out, cleared) = alloc_frames_zeroed-IsCleared vm.pmm vm.mem 16 is.valid is.room e in
        subst (Finished vm root t entry)
          (sym (fill_task-final vm root t entry b s m is apart small out cleared))
          (final-Finished vm root t entry b s m is apart small out cleared)
