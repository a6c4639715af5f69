-- ===== src/Scheduler/Switch.antt =====
-- `schedule`, the exit of a task and the timer's ticks, on a well-formed queue.
use sonna_os.Prelude.{
  ℕ, ◌≤◌, ◌≡◌, ◌≢◌, ◌⊎◌, refl, sym, true, false, Bool-cases, inl, inr, some, List, [], ◌∷◌, ◌++◌,
  ◌==◌, if◌then◌else◌, not, ◌&&◌, length, arith,
}
use sonna_os.Scheduler.{
  TaskState, ready, running, blocked, dead, Tasks, Ptr, Sched, Pick, picked, none_runnable,
  out_of_fuel, is_runnable, is_running, set_state, store, schedule_to, switch_to, schedule,
}
use sonna_os.Scheduler.Ring.{IsRing, Chain-frame}
use sonna_os.Scheduler.Next.{first_runnable, next_task-first_runnable}

-- No task but the current one is running.
abbrev pub OneRunning : Sched → Type 0
OneRunning s = (a : Ptr) → a ≢ 0 → (s.tasks a).state ≡ running → a ≡ s.current_task

-- Whom the processor goes to.
abbrev pub chosen : Ptr → Pick → Ptr
chosen c (picked p) = p
chosen c none_runnable = c
chosen c out_of_fuel = c

-- What `schedule` leaves, when the search came to `pick`.
pub record Scheduled (s : Sched) (pick : Pick) (s' : Sched) : Type 0 where
  pub current : s'.current_task ≡ chosen s.current_task pick
  pub head : s'.run_queue_head ≡ s.run_queue_head
  pub next : (a : Ptr) → (s'.tasks a).next ≡ (s.tasks a).next
  pub alone : OneRunning s'
  pub runnable : (a : Ptr) → is_runnable (s'.tasks a).state ≡ is_runnable (s.tasks a).state

pub first_runnable-runnable :
    (tasks : Tasks) (ps : List Ptr) (p : Ptr)
    → first_runnable tasks ps ≡ picked p
    → is_runnable (tasks p).state ≡ true
first_runnable-runnable tasks [] p h = absurd (ground arith)
first_runnable-runnable tasks (q ∷ qs) p h = elim (Bool-cases (is_runnable (tasks q).state)) [
  | inl yes_q ↦ ground (arith, h)
  | inr no_q ↦ first_runnable-runnable tasks qs p (ground (arith, h))
]

first_runnable-halts : (tasks : Tasks) (ps : List Ptr) → first_runnable tasks ps ≢ out_of_fuel
first_runnable-halts tasks [] = λ h. absurd (ground arith)
first_runnable-halts tasks (q ∷ qs) =
    let rest = first_runnable-halts tasks qs in λ h. ground (arith, h, rest)

switch_to-state :
    (s : Sched) (p a : Ptr)
    → ((switch_to s p).tasks a).state ≡ (
        if a == p
        then running
        else if (a == s.current_task) && not (a == 0) && is_running (s.tasks a).state
        then ready
        else (s.tasks a).state)
unfolding switch_to set_state store
switch_to-state s p a = ground arith

running-or_not : (st : TaskState) → (st ≡ running) ⊎ ((is_running st ≡ false) × (st ≢ running))
running-or_not ready = inr (refl, λ h. absurd (ground arith))
running-or_not running = inl refl
running-or_not blocked = inr (refl, λ h. absurd (ground arith))
running-or_not dead = inr (refl, λ h. absurd (ground arith))

switch_to-Scheduled :
    (s : Sched) (p : Ptr)
    → OneRunning s
    → is_runnable (s.tasks p).state ≡ true
    → Scheduled s (picked p) (switch_to s p)
unfolding switch_to set_state store
switch_to-Scheduled s p alone able = record {
  current = refl;
  head = refl;
  next = λ a. ground arith;
  alone = λ a nz h. elim (running-or_not (s.tasks a).state) [
    | inl was ↦ ground (arith, h, switch_to-state s p a, alone a nz was)
    | inr was ↦ ground (arith, h, switch_to-state s p a, was)
  ];
  runnable = λ a. elim (running-or_not (s.tasks a).state) [
    | inl was ↦ ground (arith, switch_to-state s p a, able, was)
    | inr was ↦ ground (arith, switch_to-state s p a, able, was)
  ];
}

Pick-cases : (k : Pick) → ((p : Ptr) × (k ≡ picked p)) ⊎ ((k ≡ none_runnable) ⊎ (k ≡ out_of_fuel))
Pick-cases (picked p) = inl (p, refl)
Pick-cases none_runnable = inr (inl refl)
Pick-cases out_of_fuel = inr (inr refl)

==_cases : (a b : Ptr) → (a ≡ b) ⊎ (a ≢ b)
==_cases a b = elim (Bool-cases (a == b)) [
  | inl h ↦ inl (ground arith)
  | inr h ↦ inr (ground arith)
]

pub Scheduled-IsRing :
    (s s' : Sched) (pick : Pick) (head : Ptr) (ps : List Ptr)
    → Scheduled s pick s'
    → IsRing s.tasks head ps
    → IsRing s'.tasks head ps
Scheduled-IsRing s s' pick head ps done ring = record {
  chain = Chain-frame s.tasks s'.tasks head head ps (λ a h. done.next a) ring.chain;
  distinct = ring.distinct;
}

pub schedule_to-Scheduled :
    (s : Sched) (ps : List Ptr)
    → OneRunning s
    → (s' : Sched) × (schedule_to s (first_runnable s.tasks ps) ≡ some s')
      × Scheduled s (first_runnable s.tasks ps) s'
unfolding switch_to
schedule_to-Scheduled s ps alone = elim (Pick-cases (first_runnable s.tasks ps)) [
  | inl (p, e) ↦ elim (==_cases p s.current_task) [
    | inl same ↦ (
      s,
      ground (arith, e, same),
      rw e (record {
        current = sym same;
        head = refl;
        next = λ a. refl;
        alone = alone;
        runnable = λ a. refl;
      }),
    )
    | inr other ↦ (
      switch_to s p,
      ground (arith, e, other),
      rw e (switch_to-Scheduled s p alone (first_runnable-runnable s.tasks ps p e)),
    )
  ]
  | inr (inl e) ↦ (
    s,
    rw e refl,
    rw e (record {
      current = refl;
      head = refl;
      next = λ a. refl;
      alone = alone;
      runnable = λ a. refl;
    }),
  )
  | inr (inr e) ↦ absurd (first_runnable-halts s.tasks ps e)
]

-- schedule on a well-formed queue in which only the current task may be running returns: the
-- current task becomes the first runnable one behind it, the current one being the last choice;
-- the queue stays as it is, still no task but the current one is running, and no task becomes or
-- ceases to be runnable.
pub schedule-Scheduled :
    (fuel : ℕ) (s : Sched) (xs ys : List Ptr)
    → length (xs ++ s.current_task ∷ ys) ≤ fuel
    → IsRing s.tasks s.run_queue_head (xs ++ s.current_task ∷ ys)
    → OneRunning s
    → (s' : Sched) × (schedule fuel s ≡ some s')
      × Scheduled s (first_runnable s.tasks ((ys ++ xs) ++ s.current_task ∷ [])) s'
      × IsRing s'.tasks s'.run_queue_head (xs ++ s.current_task ∷ ys)
unfolding schedule
schedule-Scheduled fuel s xs ys lt ring alone =
    let order = (ys ++ xs) ++ s.current_task ∷ [] in
    let (s', e, done) = schedule_to-Scheduled s order alone in
    (
      s',
      rw (next_task-first_runnable fuel s xs ys lt ring) e,
      done,
      rw (done.head) (
          Scheduled-IsRing s s' (first_runnable s.tasks order) s.run_queue_head
            (xs ++ s.current_task ∷ ys) done ring),
    )
