-- ===== src/Task/Context.antt =====
-- The registers that a task starts with.
use sonna_os.Prelude.{ℕ, ◌+◌, ◌-◌, ◌*◌, ◌^◌, ◌<◌, ◌≤◌, ◌≡◌, ◌⊎◌, refl, ◌∙◌, ap, inr, arith}
use sonna_os.Memory.{Mem, memset}
use sonna_os.Memory.Word.{
  read64, write64, read64-write64, read64-write64_ne, read64-frame, read64-zero, write64-Outside,
}
use sonna_os.Pmm.Zeroed.{memset-IsCleared}
use sonna_os.Vmm.{Vm}
use sonna_os.Task.{user_stack_vaddr, user_stack_pages, set_context}

-- `cpu_context_t` at `ctx`: the general registers are 0, and the last five words say where the
-- task starts, in user mode with interrupts on.
pub record IsContext (m : Mem) (ctx entry : ℕ) : Type 0 where
  pub general : (i : ℕ) → i < 15 → read64 m (ctx + 8 * i) ≡ 0
  pub rip : read64 m (ctx + 120) ≡ entry
  pub cs : read64 m (ctx + 128) ≡ 0x23
  pub rflags : read64 m (ctx + 136) ≡ 0x202
  pub rsp : read64 m (ctx + 144) ≡ 0x7FFFFFFF8000
  pub ss : read64 m (ctx + 152) ≡ 0x1B

module _ (m : Mem) (ctx entry : ℕ) where
  abbrev m0 : Mem
  m0 = memset m ctx 0 160

  abbrev m1 : Mem
  m1 = write64 m0 (ctx + 120) entry

  abbrev m2 : Mem
  m2 = write64 m1 (ctx + 128) 0x23

  abbrev m3 : Mem
  m3 = write64 m2 (ctx + 136) 0x202

  abbrev m4 : Mem
  m4 = write64 m3 (ctx + 144) (user_stack_vaddr + user_stack_pages * 4096)

  abbrev pub context_mem : Mem
  context_mem = write64 m4 (ctx + 152) 0x1B

  -- What a word in front of the last `k` of the five holds.
  before4 : (q : ℕ) → q + 8 ≤ ctx + 152 → read64 context_mem q ≡ read64 m4 q
  before4 q le = read64-write64_ne m4 (ctx + 152) 0x1B q (inr le)

  before3 : (q : ℕ) → q + 8 ≤ ctx + 144 → read64 context_mem q ≡ read64 m3 q
  before3 q le =
      before4 q (omega arith)
      ∙ read64-write64_ne m3 (ctx + 144) (user_stack_vaddr + user_stack_pages * 4096) q (inr le)

  before2 : (q : ℕ) → q + 8 ≤ ctx + 136 → read64 context_mem q ≡ read64 m2 q
  before2 q le = before3 q (omega arith) ∙ read64-write64_ne m2 (ctx + 136) 0x202 q (inr le)

  before1 : (q : ℕ) → q + 8 ≤ ctx + 128 → read64 context_mem q ≡ read64 m1 q
  before1 q le = before2 q (omega arith) ∙ read64-write64_ne m1 (ctx + 128) 0x23 q (inr le)

  before0 : (q : ℕ) → q + 8 ≤ ctx + 120 → read64 context_mem q ≡ read64 m0 q
  before0 q le = before1 q (omega arith) ∙ read64-write64_ne m0 (ctx + 120) entry q (inr le)

  zero_byte : (i b : ℕ) → i < 15 → ctx + 8 * i ≤ b → b < ctx + 8 * i + 8 → m0 b ≡ 0
  zero_byte i b li low high =
      let inside = (memset-IsCleared m ctx 160).inside (b - ctx) (omega arith) in
      let sum : b ≡ ctx + (b - ctx) = omega arith in ap m0 sum ∙ inside

  pub context_mem-IsContext : entry < 2 ^ 64 → IsContext context_mem ctx entry
  context_mem-IsContext small = record {
    general = λ i li.
        before0 (ctx + 8 * i) (omega arith)
        ∙ read64-zero m0 (ctx + 8 * i) (λ b low high. zero_byte i b li low high);
    rip = before1 (ctx + 120) (omega arith) ∙ read64-write64 m0 (ctx + 120) entry small;
    cs = before2 (ctx + 128) (omega arith) ∙ read64-write64 m1 (ctx + 128) 0x23 (omega arith);
    rflags = before3 (ctx + 136) (omega arith) ∙ read64-write64 m2 (ctx + 136) 0x202 (omega arith);
    rsp =
        before4 (ctx + 144) (omega arith)
        ∙ read64-write64 m3 (ctx + 144) (user_stack_vaddr + user_stack_pages * 4096) (omega arith);
    ss = read64-write64 m4 (ctx + 152) 0x1B (omega arith);
  }

  pub context_mem-outside : (b : ℕ) → (b < ctx) ⊎ (ctx + 160 ≤ b) → context_mem b ≡ m b
  context_mem-outside b off =
      write64-Outside m4 (ctx + 152) 0x1B b (ground arith)
      ∙ write64-Outside m3 (ctx + 144) (user_stack_vaddr + user_stack_pages * 4096) b (ground arith)
      ∙ write64-Outside m2 (ctx + 136) 0x202 b (ground arith)
      ∙ write64-Outside m1 (ctx + 128) 0x23 b (ground arith)
      ∙ write64-Outside m0 (ctx + 120) entry b (ground arith)
      ∙ (memset-IsCleared m ctx 160).outside b off

pub set_context_lem :
    (vm : Vm) (ctx entry : ℕ)
    → set_context vm ctx entry ≡ record vm { mem = context_mem vm.mem ctx entry }
unfolding set_context
set_context_lem vm ctx entry = refl

-- The context stays where its bytes do.
pub IsContext-frame :
    (m m' : Mem) (ctx entry : ℕ)
    → ((b : ℕ) → ctx ≤ b → b < ctx + 160 → m' b ≡ m b)
    → IsContext m ctx entry
    → IsContext m' ctx entry
IsContext-frame m m' ctx entry same is =
    let word : (q : ℕ) → ctx ≤ q → q + 8 ≤ ctx + 160 → read64 m' q ≡ read64 m q =
      λ q low high. read64-frame m m' q λ b from to. same b (omega arith) (omega arith) in
    record {
      general = λ i li. word (ctx + 8 * i) (omega arith) (omega arith) ∙ is.general i li;
      rip = word (ctx + 120) (omega arith) (omega arith) ∙ is.rip;
      cs = word (ctx + 128) (omega arith) (omega arith) ∙ is.cs;
      rflags = word (ctx + 136) (omega arith) (omega arith) ∙ is.rflags;
      rsp = word (ctx + 144) (omega arith) (omega arith) ∙ is.rsp;
      ss = word (ctx + 152) (omega arith) (omega arith) ∙ is.ss;
    }
