-- ===== src/Scheduler/Exit.antt =====
-- The end of a task (`SYS_EXIT`): who runs next.
use sonna_os.Prelude.{
  ℕ, ◌≤◌, ◌≡◌, ◌≢◌, refl, ◌∙◌, false, List, [], ◌∷◌, ◌++◌, length, ==_ne, ==_self, arith,
}
use sonna_os.Scheduler.{
  dead, Tasks, Ptr, Sched, Pick, picked, none_runnable, out_of_fuel, set_state, next_task, enter,
  enter_next, exit_current,
}
use sonna_os.Scheduler.Ring.{has, IsRing, IsRing-rotate}
use sonna_os.Scheduler.Queue.{set_state-state, set_state-IsRing}
use sonna_os.Scheduler.Next.{first_runnable, next_task-first_runnable}

first_runnable-dead :
    (tasks : Tasks) (c : Ptr) (ps : List Ptr)
    → has c ps ≡ false
    → first_runnable (set_state tasks c dead) (ps ++ c ∷ []) ≡ first_runnable tasks ps
first_runnable-dead tasks c [] out = rw (set_state-state tasks c dead c, ==_self c) refl
first_runnable-dead tasks c (p ∷ ps) out =
    rw
      (
        set_state-state tasks c dead p,
        ==_ne p c (ground arith),
        first_runnable-dead tasks c ps (ground arith),
      )
      refl

-- What `exit_current` leaves, when the search came to `pick`.
pub record Exited (s : Sched) (ps : List Ptr) (pick : Pick) (s' : Sched) : Type 0 where
  pub ring : IsRing s'.tasks s'.run_queue_head ps
  pub died : (s'.tasks s.current_task).state ≡ dead
  pub others : (a : Ptr) → a ≢ s.current_task → (s'.tasks a).state ≡ (s.tasks a).state
  pub current : (p : Ptr) → pick ≡ picked p → s'.current_task ≡ p

enter_next-Exited :
    (s d : Sched) (ps : List Ptr) (pick : Pick)
    → IsRing d.tasks d.run_queue_head ps
    → (d.tasks s.current_task).state ≡ dead
    → ((a : Ptr) → a ≢ s.current_task → (d.tasks a).state ≡ (s.tasks a).state)
    → ((enter_next d pick).1 ≡ pick) × Exited s ps (enter_next d pick).1 (enter_next d pick).0
unfolding enter
enter_next-Exited s d ps (picked q) ring died others =
    (refl, record { ring = ring; died = died; others = others; current = λ p h. ground (arith, h) })
enter_next-Exited s d ps none_runnable ring died others = (
  refl,
  record { ring = ring; died = died; others = others; current = λ p h. absurd (ground (arith, h)) },
)
enter_next-Exited s d ps out_of_fuel ring died others = (
  refl,
  record { ring = ring; died = died; others = others; current = λ p h. absurd (ground (arith, h)) },
)

-- When the current task of a well-formed queue exits, its state is dead, the next task is the
-- first runnable of the others in queue order (none if there is none), and the queue and all
-- other states stay.
pub exit_current-Exited :
    (fuel : ℕ) (s : Sched) (xs ys : List Ptr)
    → length (xs ++ s.current_task ∷ ys) ≤ fuel
    → IsRing s.tasks s.run_queue_head (xs ++ s.current_task ∷ ys)
    → ((exit_current fuel s).1 ≡ first_runnable s.tasks (ys ++ xs))
      × Exited s (xs ++ s.current_task ∷ ys) (exit_current fuel s).1 (exit_current fuel s).0
unfolding exit_current
exit_current-Exited fuel s xs ys lt ring =
    let c = s.current_task in
    let tasks = set_state s.tasks c dead in
    let ring' = set_state-IsRing s.tasks c dead s.run_queue_head (xs ++ c ∷ ys) ring in
    let turned = IsRing-rotate s.tasks s.run_queue_head c xs ys ring in
    let search =
      next_task-first_runnable fuel (record s { tasks = tasks }) xs ys lt ring'
      ∙ first_runnable-dead s.tasks c (ys ++ xs) ((turned.distinct).0) in
    let st = set_state-state s.tasks c dead in
    let dying = record s { tasks = tasks } in
    let (e, done) =
      enter_next-Exited s dying (xs ++ c ∷ ys) (next_task fuel dying) ring' (ground (arith, st c))
        (λ a h. ground (arith, st a)) in
    (e ∙ search, done)
