-- ===== src/Scheduler/Queue.antt =====
-- `scheduler_add_task` appends to the run queue.
use sonna_os.Prelude.{
  ℕ, zero, suc, ◌<◌, ◌≤◌, ◌≡◌, ◌≢◌, refl, subst, ◌∙◌, true, false, some, List, [], ◌∷◌, ◌++◌, ◌==◌,
  if◌then◌else◌, length, ==_ne, arith,
}
use sonna_os.Scheduler.{
  TaskState, ready, Tasks, Ptr, Sched, store, set_state, set_next, find_tail, add_task,
}
use sonna_os.Scheduler.Ring.{
  has, Chain, Distinct, IsRing, Chain-frame, Chain-append, Distinct-append,
}

-- The last of the tasks `q ∷ qs`.
abbrev pub last : Ptr → List Ptr → Ptr
last q [] = q
last q (r ∷ rs) = last r rs

pub has-last : (q : Ptr) (qs : List Ptr) → has (last q qs) (q ∷ qs) ≡ true
has-last q [] = ground arith
has-last q (r ∷ rs) = ground (arith, has-last r rs)

pub find_tail-last :
    (fuel : ℕ) (tasks : Tasks) (head q : Ptr) (qs : List Ptr)
    → length qs < fuel
    → Chain tasks head (tasks q).next qs
    → has head qs ≡ false
    → find_tail fuel tasks head q ≡ some (last q qs)
unfolding find_tail
find_tail-last zero tasks head q qs lt chain out = absurd (omega arith)
find_tail-last (suc fuel) tasks head q [] lt chain out = ground (arith, chain)
find_tail-last (suc fuel) tasks head q (r ∷ rs) lt (e, ne, chain) out =
    rw (e, ==_ne r head (ground arith))
      (find_tail-last fuel tasks head r rs (omega arith) chain (ground arith))

-- When only the last task's `next` changes, to `stop'`, the chain ends there.
pub Chain-redirect :
    (tasks tasks' : Tasks) (stop stop' q : Ptr) (qs : List Ptr)
    → Distinct (q ∷ qs)
    → ((a : Ptr) → has a (q ∷ qs) ≡ true → a ≢ last q qs → (tasks' a).next ≡ (tasks a).next)
    → (tasks' (last q qs)).next ≡ stop'
    → Chain tasks stop (tasks q).next qs
    → Chain tasks' stop' (tasks' q).next qs
Chain-redirect tasks tasks' stop stop' q [] d same set chain = set
Chain-redirect tasks tasks' stop stop' q (r ∷ rs) (out, d) same set (e, ne, chain) = (
  same q (ground arith) (λ eq. absurd (ground (arith, has-last r rs))) ∙ e,
  ne,
  Chain-redirect tasks tasks' stop stop' r rs d (λ a h. same a (ground arith)) set chain,
)

-- `ps` is the run queue; an empty one has a NULL head.
abbrev pub IsQueue : Sched → List Ptr → Type 0
IsQueue s [] = s.run_queue_head ≡ 0
IsQueue s (p ∷ ps) = IsRing s.tasks s.run_queue_head (p ∷ ps)

-- What `add_task` leaves: the queue `ps`, the new task ready and no other state, identity or
-- context changed.
pub record Added (s : Sched) (task : Ptr) (ps : List Ptr) (s' : Sched) : Type 0 where
  pub queue : IsQueue s' ps
  pub is_ready : (s'.tasks task).state ≡ ready
  pub states : (a : Ptr) → a ≢ task → (s'.tasks a).state ≡ (s.tasks a).state
  pub contexts : (a : Ptr) → (s'.tasks a).ctx ≡ (s.tasks a).ctx
  pub current : s'.current_task ≡ s.current_task

set_next-state : (tasks : Tasks) (p q a : Ptr) → (set_next tasks p q a).state ≡ (tasks a).state
unfolding set_next store
set_next-state tasks p q a = ground arith

set_next-ctx : (tasks : Tasks) (p q a : Ptr) → (set_next tasks p q a).ctx ≡ (tasks a).ctx
unfolding set_next store
set_next-ctx tasks p q a = ground arith

set_next-next :
    (tasks : Tasks) (p q a : Ptr)
    → (set_next tasks p q a).next ≡ (if a == p then q else (tasks a).next)
unfolding set_next store
set_next-next tasks p q a = ground arith

pub set_state-state :
    (tasks : Tasks) (p : Ptr) (st : TaskState) (a : Ptr)
    → (set_state tasks p st a).state ≡ (if a == p then st else (tasks a).state)
unfolding set_state store
set_state-state tasks p st a = ground arith

pub set_state-next :
    (tasks : Tasks) (p : Ptr) (st : TaskState) (a : Ptr)
    → (set_state tasks p st a).next ≡ (tasks a).next
unfolding set_state store
set_state-next tasks p st a = ground arith

set_state-ctx :
    (tasks : Tasks) (p : Ptr) (st : TaskState) (a : Ptr)
    → (set_state tasks p st a).ctx ≡ (tasks a).ctx
unfolding set_state store
set_state-ctx tasks p st a = ground arith

pub set_state-IsRing :
    (tasks : Tasks) (p : Ptr) (st : TaskState) (head : Ptr) (ps : List Ptr)
    → IsRing tasks head ps
    → IsRing (set_state tasks p st) head ps
set_state-IsRing tasks p st head ps ring = record {
  chain =
      Chain-frame tasks (set_state tasks p st) head head ps (λ a h. set_state-next tasks p st a)
        ring.chain;
  distinct = ring.distinct;
}

-- The two writes behind the last task close the longer ring.
link_behind-IsRing :
    (tasks : Tasks) (task q : Ptr) (qs : List Ptr)
    → IsRing tasks q (q ∷ qs)
    → has task (q ∷ qs) ≡ false
    → task ≢ 0
    → IsRing (set_next (set_next tasks (last q qs) task) task q) q ((q ∷ qs) ++ task ∷ [])
link_behind-IsRing tasks task q qs ring fresh ne =
    let n = λ (a : Ptr). set_next-next (set_next tasks (last q qs) task) task q a in
    let m = set_next-next tasks (last q qs) task in
    let linked = set_next (set_next tasks (last q qs) task) task q in
    let (eq, nz, rest) = ring.chain in
    record {
      chain =
          Chain-append linked task q q (q ∷ qs) (task ∷ [])
            (
              refl,
              nz,
              Chain-redirect tasks linked q task q qs ring.distinct
                  (λ a h no_last. ground (arith, n a, m a))
                  (ground (arith, n (last q qs), m (last q qs), has-last q qs)) rest,
            )
            (refl, ne, ground (arith, n task));
      distinct = Distinct-append (q ∷ qs) (task ∷ []) ring.distinct (refl, tt) λ a h. ground arith;
    }

-- Adding a new task to a well-formed queue, empty or not, puts it at the end, makes it ready,
-- and changes no other state and no context; the walk to the tail stops within the queue's
-- length.
pub add_task-Added :
    (fuel : ℕ) (s : Sched) (task : Ptr) (ps : List Ptr)
    → length ps ≤ fuel
    → IsQueue s ps
    → has task ps ≡ false
    → task ≢ 0
    → (s' : Sched) × (add_task fuel s task ≡ some s') × Added s task (ps ++ task ∷ []) s'
unfolding add_task
add_task-Added fuel s task [] lt queue fresh ne =
    let tasks = set_state s.tasks task ready in
    (
      record s { tasks = set_next tasks task task; run_queue_head = task },
      ground (arith, queue),
      record {
        queue = record {
          chain = (refl, ne, ground (arith, set_next-next tasks task task task));
          distinct = (refl, tt);
        };
        is_ready =
            set_next-state tasks task task task
            ∙ ground (arith, set_state-state s.tasks task ready task);
        states = λ a h.
            set_next-state tasks task task a ∙ ground (arith, set_state-state s.tasks task ready a);
        contexts = λ a. set_next-ctx tasks task task a ∙ set_state-ctx s.tasks task ready a;
        current = refl;
      },
    )
add_task-Added fuel s task (p ∷ ps) lt queue fresh ne =
    let tasks = set_state s.tasks task ready in
    let (head_is, nz, rest) = queue.chain in
    let ring : IsRing tasks p (p ∷ ps) =
      subst (λ h. IsRing tasks h (p ∷ ps)) head_is
        (set_state-IsRing s.tasks task ready s.run_queue_head (p ∷ ps) queue) in
    let (same, nz', kept) = ring.chain in
    let (out, d) = ring.distinct in
    let one = set_next tasks (last p ps) task in
    (
      record s { tasks = set_next one task p; run_queue_head = p },
      rw (head_is, ==_ne p 0 nz, find_tail-last fuel tasks p p ps lt kept out) refl,
      record {
        queue = link_behind-IsRing tasks task p ps ring fresh ne;
        is_ready =
            set_next-state one task p task
            ∙ set_next-state tasks (last p ps) task task
            ∙ ground (arith, set_state-state s.tasks task ready task);
        states = λ a h.
            set_next-state one task p a
            ∙ set_next-state tasks (last p ps) task a
            ∙ ground (arith, set_state-state s.tasks task ready a);
        contexts = λ a.
            set_next-ctx one task p a
            ∙ set_next-ctx tasks (last p ps) task a
            ∙ set_state-ctx s.tasks task ready a;
        current = refl;
      },
    )
