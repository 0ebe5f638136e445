-- ===== src/Schedule/Progress.antt =====
-- A round of the ticker leaves nothing due that it found due.
use aiplatform.Shared.{
  ℕ, suc, ◌≤◌, ◌≡◌, refl, sym, ap, ◌∙◌, true, false, some, List, [], ◌∷◌, inl, inr, All, Member,
}
use mathlib.Core.Path.{subst}
use aiplatform.Models.{WorkflowSchedule}
use aiplatform.State.{Db, World, Outside}
use aiplatform.Schedule.Service.{get_schedule, list_due, is_due}
use aiplatform.Schedule.Ticker.{fire_one, fire_all, fire_found, poll, tick}
use aiplatform.Schedule.Advance.{IsTimed, time_at}
use aiplatform.Schedule.Effects.{
  found_in, IsServed, IsReady, fire_one-Effect, Effect-IsReady, Effect-IsServed_kept,
  Effect-IsServed,
}

module _ (o : Outside) (as_of : ℕ) (locks : (n id : ℕ) → o.acquire_lock n id ≡ true)
    (clock : (n : ℕ) → as_of ≤ time_at o n) where
  fire_all_keeps :
      (id : ℕ) (ss : List WorkflowSchedule) (w : World)
      → IsReady o as_of w
      → IsServed as_of id w.db.workflow_schedules
      → (let v = fire_all o ss w in IsReady o as_of v × IsServed as_of id v.db.workflow_schedules)
  unfolding fire_all
  fire_all_keeps id [] w h served = (h, served)
  fire_all_keeps id (s ∷ ss) w h served =
      let effect = fire_one-Effect o as_of locks clock s w h in
      fire_all_keeps id ss (fire_one o s w).1
        (Effect-IsReady o as_of locks clock s.id w (fire_one o s w).1 h effect)
        (Effect-IsServed_kept o as_of locks clock id s.id w (fire_one o s w).1 served effect)

  fire_all_serves :
      (s : WorkflowSchedule) (ss : List WorkflowSchedule) (w : World)
      → Member s ss
      → IsReady o as_of w
      → (let v = fire_all o ss w in IsReady o as_of v × IsServed as_of s.id v.db.workflow_schedules)
  unfolding fire_all
  fire_all_serves s [] w m h = elim m [ ]
  fire_all_serves s (x ∷ xs) w (inl e) h =
      let effect = fire_one-Effect o as_of locks clock x w h in
      fire_all_keeps s.id xs (fire_one o x w).1
        (Effect-IsReady o as_of locks clock x.id w (fire_one o x w).1 h effect)
        (subst
          (λ (y : WorkflowSchedule). IsServed as_of y.id (fire_one o x w).1.db.workflow_schedules)
          (sym e) (Effect-IsServed o as_of locks clock x.id w (fire_one o x w).1 effect))
  fire_all_serves s (x ∷ xs) w (inr m) h = fire_all_serves s xs (fire_one o x w).1 m (
      Effect-IsReady o as_of locks clock x.id w (fire_one o x w).1 h
        (fire_one-Effect o as_of locks clock x w h))

-- A schedule that a round of the ticker finds due is not due any more when the round is over: its
-- row, if it is found in what is committed then, is not due at the time at which the round polled,
-- because it was fired or is disabled. The round wins its locks, no reading of the clock is earlier than the poll,
-- all was committed before the round, and the next time of each schedule can be computed and lies
-- after the time that it is computed for.
pub tick_serves :
    (o : Outside) (w : World) (s r : WorkflowSchedule)
    → ((n id : ℕ) → o.acquire_lock n id ≡ true)
    → ((n : ℕ) → time_at o w.readings ≤ time_at o n)
    → w.db ≡ w.saved
    → All (IsTimed o) w.db.workflow_schedules
    → Member s (list_due (time_at o w.readings) w.db)
    → get_schedule s.id (tick o w).saved ≡ some r
    → is_due (time_at o w.readings) r ≡ false
unfolding tick poll fire_found get_schedule
tick_serves o w s r locks clock settled timed m found =
    let v = record w { readings = suc w.readings; saved = w.db } in
    let ((t, _), served) =
      fire_all_serves o (time_at o w.readings) locks clock s (list_due (time_at o w.readings) w.db)
        v m (refl, timed) in
    served r (ap (found_in s.id) (ap (λ (d : Db). d.workflow_schedules) t) ∙ found)
