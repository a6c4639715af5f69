-- ===== src/Scheduler/Next.antt =====
-- `scheduler_next` takes the first runnable task in queue order, the current one last.
use sonna_os.Prelude.{
  ℕ, zero, suc, ◌<◌, ◌≤◌, ◌≡◌, ◌≢◌, refl, subst, false, List, [], ◌∷◌, ◌++◌, if◌then◌else◌, length,
  length-append, ==_ne, arith,
}
use sonna_os.Scheduler.{
  Tasks, Ptr, Sched, Pick, picked, none_runnable, is_runnable, next_loop, next_task,
}
use sonna_os.Scheduler.Ring.{has, Chain, IsRing, IsRing-rotate}
use sonna_os.Scheduler.Queue.{IsQueue}

abbrev pub first_runnable : Tasks → List Ptr → Pick
first_runnable tasks [] = none_runnable
first_runnable tasks (p ∷ ps) =
    if is_runnable (tasks p).state then picked p else first_runnable tasks ps

next_loop-Chain :
    (fuel : ℕ) (tasks : Tasks) (start q : Ptr) (qs : List Ptr)
    → length qs < fuel
    → Chain tasks start (tasks q).next qs
    → has start qs ≡ false
    → next_loop fuel tasks start q ≡ first_runnable tasks (q ∷ qs)
unfolding next_loop
next_loop-Chain zero tasks start q qs lt chain out = absurd (omega arith)
next_loop-Chain (suc fuel) tasks start q [] lt chain out = ground (arith, chain)
next_loop-Chain (suc fuel) tasks start q (r ∷ rs) lt (e, ne, chain) out =
    rw
      (
        e,
        ==_ne r start (ground arith),
        next_loop-Chain fuel tasks start r rs (omega arith) chain (ground arith),
      )
      refl

-- From a ring's first task the loop sees the whole ring.
next_loop-ring :
    (fuel : ℕ) (tasks : Tasks) (p : Ptr) (ps : List Ptr)
    → length ps < fuel
    → IsRing tasks p (p ∷ ps)
    → next_loop fuel tasks p p ≡ first_runnable tasks (p ∷ ps)
next_loop-ring fuel tasks p ps lt ring =
    next_loop-Chain fuel tasks p p ps lt (ring.chain).2 (ring.distinct).0

-- The loop of a running task starts behind it and ends with it.
next_loop-behind :
    (fuel : ℕ) (tasks : Tasks) (c : Ptr) (ps : List Ptr)
    → length ps < fuel
    → IsRing tasks c (c ∷ ps)
    → next_loop fuel tasks (tasks c).next (tasks c).next ≡ first_runnable tasks (ps ++ c ∷ [])
next_loop-behind fuel tasks c [] lt ring =
    rw ((ring.chain).2) (next_loop-ring fuel tasks c [] lt ring)
next_loop-behind fuel tasks c (p ∷ ps) lt ring = rw ((ring.chain).2.0) (
    next_loop-ring fuel tasks p (ps ++ c ∷ []) (omega (arith, length-append ps (c ∷ [])))
      (IsRing-rotate tasks c p (c ∷ []) ps ring))

pub IsRing-head :
    (tasks : Tasks) (head c : Ptr) (xs ys : List Ptr) → IsRing tasks head (xs ++ c ∷ ys) → head ≢ 0
IsRing-head tasks head c [] ys ring = ground (arith, ring.chain)
IsRing-head tasks head c (x ∷ xs) ys ring = ground (arith, ring.chain)

-- The search with the ring read from the current task.
pub next_task-turn :
    (fuel : ℕ) (s : Sched) (ps : List Ptr)
    → length ps < fuel
    → s.run_queue_head ≢ 0
    → IsRing s.tasks s.current_task (s.current_task ∷ ps)
    → next_task fuel s ≡ first_runnable s.tasks (ps ++ s.current_task ∷ [])
unfolding next_task
next_task-turn fuel s ps lt nz ring =
    rw (==_ne s.run_queue_head 0 nz, ==_ne s.current_task 0 ((ring.chain).1))
      (next_loop-behind fuel s.tasks s.current_task ps lt ring)

-- scheduler_next on a well-formed queue is the first runnable task of the queue read from behind
-- the current task, which comes last.
pub next_task-first_runnable :
    (fuel : ℕ) (s : Sched) (xs ys : List Ptr)
    → length (xs ++ s.current_task ∷ ys) ≤ fuel
    → IsRing s.tasks s.run_queue_head (xs ++ s.current_task ∷ ys)
    → next_task fuel s ≡ first_runnable s.tasks ((ys ++ xs) ++ s.current_task ∷ [])
next_task-first_runnable fuel s xs ys lt ring =
    let c = s.current_task in
    next_task-turn fuel s (ys ++ xs)
      (omega (arith, lt, length-append xs (c ∷ ys), length-append ys xs))
      (IsRing-head s.tasks s.run_queue_head c xs ys ring)
      (IsRing-rotate s.tasks s.run_queue_head c xs ys ring)

pub next_task-idle :
    (fuel : ℕ) (s : Sched) (ps : List Ptr)
    → length ps ≤ fuel
    → IsQueue s ps
    → s.current_task ≡ 0
    → next_task fuel s ≡ first_runnable s.tasks ps
unfolding next_task
next_task-idle fuel s [] lt queue idle = rw queue refl
next_task-idle fuel s (p ∷ ps) lt queue idle =
    let (e, nz, rest) = queue.chain in
    let ring : IsRing s.tasks p (p ∷ ps) = subst (λ h. IsRing s.tasks h (p ∷ ps)) e queue in
    rw (idle, e, ==_ne p 0 nz) (next_loop-ring fuel s.tasks p ps lt ring)
