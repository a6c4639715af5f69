-- ===== src/Scheduler/Turns.antt =====
-- Calls of `schedule` in a row: round robin.
use sonna_os.Prelude.{
  ℕ, zero, suc, ◌<◌, ◌≤◌, ◌≡◌, ◌≢◌, refl, sym, subst, ◌∙◌, true, Option, some, none, List, [], ◌∷◌,
  ◌++◌, length, length-append, append_assoc, append-nil, ap, arith,
}
use sonna_os.Scheduler.{Ptr, Sched, picked, is_runnable, schedule}
use sonna_os.Scheduler.Ring.{has, has-append, IsRing, IsRing-rotate}
use sonna_os.Scheduler.Next.{first_runnable, next_task-turn, IsRing-head}
use sonna_os.Scheduler.Switch.{OneRunning, Scheduled, Scheduled-IsRing, schedule_to-Scheduled}

abbrev put_first : Ptr → Option (List Ptr) → Option (List Ptr)
put_first p none = none
put_first p (some ps) = some (p ∷ ps)

abbrev turn_from : Option Sched → (Sched → Option (List Ptr)) → Option (List Ptr)
turn_from none rest = none
turn_from (some s) rest = put_first s.current_task (rest s)

-- The tasks that `n` calls of `schedule` go to.
abbrev pub turns : (fuel n : ℕ) → Sched → Option (List Ptr)
turns fuel zero s = some []
turns fuel (suc n) s = turn_from (schedule fuel s) (turns fuel n)

-- The processor's first turn goes to the next task of the ring, if that is runnable.
turn-step :
    (fuel : ℕ) (s : Sched) (w : Ptr) (ws : List Ptr)
    → length (w ∷ ws) < fuel
    → s.run_queue_head ≢ 0
    → IsRing s.tasks s.current_task (s.current_task ∷ w ∷ ws)
    → OneRunning s
    → is_runnable (s.tasks w).state ≡ true
    → (s' : Sched) × (schedule fuel s ≡ some s')
      × Scheduled s (picked w) s'
      × IsRing s'.tasks w ((w ∷ ws) ++ s.current_task ∷ [])
unfolding schedule
turn-step fuel s w ws lt nz ring alone able =
    let order = w ∷ (ws ++ s.current_task ∷ []) in
    let is_w : first_runnable s.tasks order ≡ picked w = rw able refl in
    let (s', e, done) = schedule_to-Scheduled s order alone in
    let turned = IsRing-rotate s.tasks s.current_task w (s.current_task ∷ []) ws ring in
    (
      s',
      rw (next_task-turn fuel s (w ∷ ws) lt nz ring) e,
      subst (λ k. Scheduled s k s') is_w done,
      Scheduled-IsRing s s' (first_runnable s.tasks order) w ((w ∷ ws) ++ s.current_task ∷ []) done
          turned,
    )

turns-step :
    (fuel n : ℕ) (s s' : Sched) (w : Ptr) (ws : List Ptr)
    → schedule fuel s ≡ some s'
    → s'.current_task ≡ w
    → turns fuel n s' ≡ some ws
    → turns fuel (suc n) s ≡ some (w ∷ ws)
turns-step fuel n s s' w ws step at rest = rw (step, rest, at) refl

round_robin :
    (fuel : ℕ) (s : Sched) (ws vs : List Ptr)
    → length (ws ++ vs) < fuel
    → s.run_queue_head ≢ 0
    → IsRing s.tasks s.current_task (s.current_task ∷ (ws ++ vs))
    → OneRunning s
    → ((a : Ptr)
        → has a (s.current_task ∷ (ws ++ vs)) ≡ true
        → is_runnable (s.tasks a).state ≡ true)
    → turns fuel (length ws) s ≡ some ws
round_robin fuel s [] vs lt nz ring alone able = refl
round_robin fuel s (w ∷ ws) vs lt nz ring alone able =
    let c = s.current_task in
    let (s', step, done, ring') =
      turn-step fuel s w (ws ++ vs) lt nz ring alone (able w (ground arith)) in
    let behind = append_assoc ws vs (c ∷ []) in
    turns-step fuel (length ws) s s' w ws step done.current (
      round_robin fuel s' ws (vs ++ c ∷ [])
        (omega (
          arith,
          lt,
          length-append ws vs,
          length-append ws (vs ++ c ∷ []),
          length-append vs (c ∷ []),
        ))
        (rw (done.head) nz)
        (rw (done.current) (subst (λ l. IsRing s'.tasks w (w ∷ l)) behind ring')) done.alone
        (λ a h.
          done.runnable a
          ∙ able a (
              ground
                (arith, h, ap (has a) behind, has-append a (ws ++ vs) (c ∷ []), done.current))))

-- When every task of a well-formed queue is runnable and only the current one may be running,
-- consecutive calls of schedule go to each of the other tasks in queue order before the current
-- one comes again; the walks stop within the queue's length.
pub turns-round_robin :
    (fuel : ℕ) (s : Sched) (xs ys : List Ptr)
    → length (xs ++ s.current_task ∷ ys) ≤ fuel
    → IsRing s.tasks s.run_queue_head (xs ++ s.current_task ∷ ys)
    → OneRunning s
    → ((a : Ptr) → has a (xs ++ s.current_task ∷ ys) ≡ true → is_runnable (s.tasks a).state ≡ true)
    → turns fuel (length (ys ++ xs)) s ≡ some (ys ++ xs)
turns-round_robin fuel s xs ys lt ring alone able =
    let c = s.current_task in
    let turned = IsRing-rotate s.tasks s.run_queue_head c xs ys ring in
    round_robin fuel s (ys ++ xs) []
      (omega
        (arith, lt, length-append xs (c ∷ ys), length-append (ys ++ xs) [], length-append ys xs))
      (IsRing-head s.tasks s.run_queue_head c xs ys ring)
      (subst (λ l. IsRing s.tasks c (c ∷ l)) (sym (append-nil (ys ++ xs))) turned) alone
      (λ a h. able a (
        ground
          (arith, h, has-append a xs (c ∷ ys), has-append a (ys ++ xs) [], has-append a ys xs)))
