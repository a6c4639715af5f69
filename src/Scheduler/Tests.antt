-- ===== src/Scheduler/Tests.antt =====
-- Three queued tasks, at the addresses 100, 200 and 300; the second runs.
use sonna_os.Prelude.{ℕ, ◌≡◌, refl, true, some, [], ◌∷◌, ◌==◌, if◌then◌else◌, arith}
use sonna_os.Scheduler.{
  Task, TaskState, ready, running, Tasks, Ptr, Sched, picked, next_task, schedule, add_task,
  exit_current, next_loop, is_runnable,
}
use sonna_os.Scheduler.Ring.{IsRing, has}
use sonna_os.Scheduler.Queue.{Added, add_task-Added}
use sonna_os.Scheduler.Next.{first_runnable}
use sonna_os.Scheduler.Switch.{OneRunning, Scheduled, schedule-Scheduled}
use sonna_os.Scheduler.Turns.{turns, turns-round_robin}
use sonna_os.Scheduler.Exit.{Exited, exit_current-Exited}

abbrev a_task : TaskState → (pid next : ℕ) → Task
a_task st pid next = record {
  ctx = 0;
  pml4_phys = 0;
  kernel_stack = 0;
  state = st;
  pid = pid;
  next = next;
}

abbrev three_tasks : Tasks
three_tasks p =
    if p == 100
    then a_task ready 1 200
    else if p == 200
    then a_task running 2 300
    else if p == 300
    then a_task ready 3 100
    else a_task ready 0 0

abbrev three : Sched
three = record { tasks = three_tasks; current_task = 200; run_queue_head = 100 }

three-IsRing : IsRing three_tasks 100 (100 ∷ 200 ∷ 300 ∷ [])
three-IsRing = record {
  chain = (refl, omega arith, (refl, omega arith, (refl, omega arith, refl)));
  distinct = (refl, (refl, (refl, tt)));
}

three-OneRunning : OneRunning three
three-OneRunning a nz h = ground (arith, h)

three-runnable :
    (a : Ptr) → has a (100 ∷ 200 ∷ 300 ∷ []) ≡ true → is_runnable (three_tasks a).state ≡ true
three-runnable a h = ground (arith, h)

picks_third : next_task 3 three ≡ picked 300
unfolding next_task next_loop
picks_third = refl

add_task-Added_example :
    (s' : Sched) × (add_task 3 three 400 ≡ some s')
    × Added three 400 (100 ∷ 200 ∷ 300 ∷ 400 ∷ []) s'
add_task-Added_example =
    add_task-Added 3 three 400 (100 ∷ 200 ∷ 300 ∷ []) (omega arith) three-IsRing refl (omega arith)

schedule-Scheduled_example :
    (s' : Sched) × (schedule 3 three ≡ some s')
    × Scheduled three (first_runnable three_tasks (300 ∷ 100 ∷ 200 ∷ [])) s'
    × IsRing s'.tasks s'.run_queue_head (100 ∷ 200 ∷ 300 ∷ [])
schedule-Scheduled_example =
    schedule-Scheduled 3 three (100 ∷ []) (300 ∷ []) (omega arith) three-IsRing three-OneRunning

turns-round_robin_example : turns 3 2 three ≡ some (300 ∷ 100 ∷ [])
turns-round_robin_example =
    turns-round_robin 3 three (100 ∷ []) (300 ∷ []) (omega arith) three-IsRing three-OneRunning
      three-runnable

exit_current-Exited_example :
    ((exit_current 3 three).1 ≡ first_runnable three_tasks (300 ∷ 100 ∷ []))
    × Exited three (100 ∷ 200 ∷ 300 ∷ []) (exit_current 3 three).1 (exit_current 3 three).0
exit_current-Exited_example =
    exit_current-Exited 3 three (100 ∷ []) (300 ∷ []) (omega arith) three-IsRing
