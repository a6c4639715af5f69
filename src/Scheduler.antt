-- ===== src/Scheduler.antt =====
-- kernel/arch/x86_64/usermode/scheduler.c: the circular run queue, the choice of the next task and
-- the switch; `task_enter` (usermode.c), `lapic_timer_handler` (interrupts/apictimer.c) as far as
-- they concern the queue.
-- A task is an address, 0 is NULL, and a store gives the `task_t` at each address. The two walks
-- round the queue run on fuel; `Scheduler.Queue` and `Scheduler.Next` show how much is enough.
pub mod Ring
pub mod Queue
pub mod Next
pub mod Switch
pub mod Turns
pub mod Exit
pub mod Ticks
mod Tests
use sonna_os.Prelude.{
  ℕ, zero, suc, ◌+◌, ◌%◌, Bool, true, false, not, ◌&&◌, ◌||◌, Option, none, some, if◌then◌else◌,
  ◌==◌, add64,
}

pub data TaskState : Type 0 where
  ready running blocked dead : TaskState

pub record Task : Type 0 where
  pub ctx : ℕ
  pub pml4_phys : ℕ
  pub kernel_stack : ℕ
  pub state : TaskState
  pub pid : ℕ
  pub next : ℕ

abbrev pub Tasks : Type 0
Tasks = ℕ → Task

abbrev pub Ptr : Type 0
Ptr = ℕ

pub record Sched : Type 0 where
  pub tasks : Tasks
  pub current_task : Ptr
  pub run_queue_head : Ptr

-- `*p = t`.
unfoldable pub store : Tasks → Ptr → Task → Tasks
store tasks p t q = if q == p then t else tasks q

unfoldable pub set_state : Tasks → Ptr → TaskState → Tasks
unfolding store
set_state tasks p st = store tasks p (record (tasks p) { state = st })

unfoldable pub set_next : Tasks → Ptr → Ptr → Tasks
unfolding store
set_next tasks p q = store tasks p (record (tasks p) { next = q })

unfoldable pub init : Tasks → Sched
init tasks = record { tasks = tasks; current_task = 0; run_queue_head = 0 }

-- `while (tail->next != run_queue_head) tail = tail->next;`, `none` when the fuel runs out.
unfoldable pub find_tail : (fuel : ℕ) → Tasks → (head tail : Ptr) → Option Ptr
find_tail zero tasks head tail = none
find_tail (suc fuel) tasks head tail =
    let rest = find_tail fuel tasks head (tasks tail).next in
    if (tasks tail).next == head then some tail else rest

abbrev pub link_behind : Sched → Tasks → Ptr → Option Ptr → Option Sched
link_behind s tasks task none = none
link_behind s tasks task (some tail) =
    some (record s { tasks = set_next (set_next tasks tail task) task s.run_queue_head })

-- `scheduler_add_task`.
unfoldable pub add_task : (fuel : ℕ) → Sched → Ptr → Option Sched
unfolding set_state set_next find_tail
add_task fuel s task =
    let tasks = set_state s.tasks task ready in
    if s.run_queue_head == 0
    then some (record s { tasks = set_next tasks task task; run_queue_head = task })
    else link_behind s tasks task (find_tail fuel tasks s.run_queue_head s.run_queue_head)

abbrev pub is_runnable : TaskState → Bool
is_runnable ready = true
is_runnable running = true
is_runnable blocked = false
is_runnable dead = false

-- What the search for the next task comes to; `out_of_fuel` is not an outcome of the code.
pub data Pick : Type 0 where
  picked : Ptr → Pick
  none_runnable : Pick
  out_of_fuel : Pick

-- The `do … while (t != start)` loop of `scheduler_next`.
unfoldable pub next_loop : (fuel : ℕ) → Tasks → (start t : Ptr) → Pick
next_loop zero tasks start t = out_of_fuel
next_loop (suc fuel) tasks start t =
    let n = (tasks t).next in
    let rest = next_loop fuel tasks start n in
    if is_runnable (tasks t).state then picked t else if n == start then none_runnable else rest

-- `scheduler_next`.
unfoldable pub next_task : (fuel : ℕ) → Sched → Pick
unfolding next_loop
next_task fuel s =
    let start = if s.current_task == 0 then s.run_queue_head else (s.tasks s.current_task).next in
    if s.run_queue_head == 0 then none_runnable else next_loop fuel s.tasks start start

abbrev pub is_running : TaskState → Bool
is_running running = true
is_running ready = false
is_running blocked = false
is_running dead = false

-- The end of `schedule`, once a task other than the current one is chosen.
unfoldable pub switch_to : Sched → Ptr → Sched
unfolding set_state
switch_to s next =
    let yields = not (s.current_task == 0) && is_running (s.tasks s.current_task).state in
    let tasks = if yields then set_state s.tasks s.current_task ready else s.tasks in
    record s { tasks = set_state tasks next running; current_task = next }

abbrev pub schedule_to : Sched → Pick → Option Sched
schedule_to s (picked next) = some (if next == s.current_task then s else switch_to s next)
schedule_to s none_runnable = some s
schedule_to s out_of_fuel = none

unfoldable pub schedule : (fuel : ℕ) → Sched → Option Sched
unfolding next_task switch_to
schedule fuel s = schedule_to s (next_task fuel s)

-- What `task_enter` does to the queue: the register and address-space switch is assembly.
unfoldable pub enter : Sched → Ptr → Sched
enter s task = record s { current_task = task }

-- The `SYS_EXIT` case of `syscall_common_handler`: the task dies and the next one is entered;
-- `none_runnable` is where the kernel halts.
abbrev pub enter_next : Sched → Pick → Sched × Pick
enter_next s (picked next) = (enter s next, picked next)
enter_next s none_runnable = (s, none_runnable)
enter_next s out_of_fuel = (s, out_of_fuel)

unfoldable pub exit_current : (fuel : ℕ) → Sched → Sched × Pick
unfolding set_state next_task enter
exit_current fuel s =
    let dying = record s { tasks = set_state s.tasks s.current_task dead } in
    enter_next dying (next_task fuel dying)

-- `lapic_timer_handler` counts ticks and schedules on every tenth.
abbrev pub sched_quantum : ℕ
sched_quantum = 10

abbrev pub count_tick : ℕ → Option Sched → Option (ℕ × Sched)
count_tick ticks none = none
count_tick ticks (some s) = some (ticks, s)

unfoldable pub timer_tick : (fuel : ℕ) → ℕ × Sched → Option (ℕ × Sched)
unfolding schedule
timer_tick fuel (lapic_ticks, s) =
    let ticks = add64 lapic_ticks 1 in
    if ticks % sched_quantum == 0 then count_tick ticks (schedule fuel s) else some (ticks, s)
