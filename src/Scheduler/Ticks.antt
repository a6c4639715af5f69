-- ===== src/Scheduler/Ticks.antt =====
-- The timer: one `schedule` in every ten ticks.
use sonna_os.Prelude.{
  ℕ, zero, suc, ◌+◌, ◌%◌, ◌^◌, ◌<◌, ◌≡◌, ◌≢◌, refl, ◌∙◌, ap, Option, some, none, arith,
}
use sonna_os.Scheduler.{Sched, schedule, timer_tick, sched_quantum, count_tick}

abbrev tick_on : Option (ℕ × Sched) → (ℕ × Sched → Option (ℕ × Sched)) → Option (ℕ × Sched)
tick_on none rest = none
tick_on (some ts) rest = rest ts

-- `n` timer interrupts.
abbrev pub timer_ticks : (fuel n : ℕ) → ℕ × Sched → Option (ℕ × Sched)
timer_ticks fuel zero ts = some ts
timer_ticks fuel (suc n) ts = tick_on (timer_tick fuel ts) (timer_ticks fuel n)

timer_tick-quiet :
    (fuel ticks : ℕ) (s : Sched)
    → (ticks + 1) % sched_quantum ≢ 0
    → ticks + 1 < 2 ^ 64
    → timer_tick fuel (ticks, s) ≡ some (ticks + 1, s)
unfolding timer_tick
timer_tick-quiet fuel ticks s ne lt = ground arith

timer_tick-due :
    (fuel ticks : ℕ) (s : Sched)
    → (ticks + 1) % sched_quantum ≡ 0
    → ticks + 1 < 2 ^ 64
    → timer_tick fuel (ticks, s) ≡ count_tick (ticks + 1) (schedule fuel s)
unfolding timer_tick
timer_tick-due fuel ticks s eq lt = ground arith

tick_on-some : (r : Option (ℕ × Sched)) → tick_on r some ≡ r
tick_on-some none = refl
tick_on-some (some ts) = refl

-- Up to ten timer interrupts of which only the last reaches a multiple of ten call schedule
-- exactly once, on that last one, while the tick counter does not wrap.
pub timer_ticks-schedule :
    (fuel n ticks : ℕ) (s : Sched)
    → n < sched_quantum
    → (ticks + suc n) % sched_quantum ≡ 0
    → ticks + suc n < 2 ^ 64
    → timer_ticks fuel (suc n) (ticks, s) ≡ count_tick (ticks + suc n) (schedule fuel s)
timer_ticks-schedule fuel zero ticks s le due lt =
    ap (λ r. tick_on r some) (timer_tick-due fuel ticks s due lt)
    ∙ tick_on-some (count_tick (ticks + 1) (schedule fuel s))
timer_ticks-schedule fuel (suc n) ticks s le due lt =
    let same : ticks + suc (suc n) ≡ (ticks + 1) + suc n = omega arith in
    rw (timer_tick-quiet fuel ticks s (omega arith) (omega arith), same)
      (timer_ticks-schedule fuel n (ticks + 1) s (omega arith) (omega arith) (omega arith))
