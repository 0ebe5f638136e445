-- ===== src/Schedule/Effects.antt =====
-- What one firing of the ticker leaves of the schedules.
use aiplatform.Shared.{
  ℕ, suc, ◌≤◌, ◌≡◌, refl, sym, ap, ◌∙◌, ◌⊎◌, inl, inr, Bool, true, false, ◌&&◌, not, Option, none,
  some, List, [], ◌∷◌, arith, ◌==◌, leb, All, Bool-cases, Option-cases, first_where,
  first_where_after_update, first_where-holds, All-first_where, update_where, if◌then◌else◌,
}
use mathlib.Core.Path.{subst}
use mathlib.Core.Option
use aiplatform.Exec.{Result, ok, err}
use aiplatform.Models.{WorkflowSchedule}
use aiplatform.State.{Db, World, Outside, calling, in_session}
use aiplatform.Workflow.Transaction.{run_workflow_keeps_aside}
use aiplatform.Schedule.Timing.{next_after}
use aiplatform.Schedule.Service.{
  get_schedule, get_or_404, missing_schedule, update_schedule, is_due, arrived, Firing, fired,
}
use aiplatform.Schedule.Ticker.{request_of, fire_in_session, fire_one, run_if}
use aiplatform.Schedule.Advance.{IsTimed, time_at, run_of_schedule, fire_one-recorded, firing}

-- `get_schedule` on the table alone.
abbrev pub found_in : ℕ → List WorkflowSchedule → Option WorkflowSchedule
found_in id t = first_where (λ s. s.id == id && not s.deleted) t

-- The schedule of that identifier, if it is there, is not due.
abbrev pub IsServed : ℕ → ℕ → List WorkflowSchedule → Type 0
IsServed as_of id t = (s : WorkflowSchedule) → found_in id t ≡ some s → is_due as_of s ≡ false

abbrev pub fire_row : ℕ → Firing → List WorkflowSchedule → List WorkflowSchedule
fire_row id f t = update_where (λ r. r.id == id) (fired f) t

update_found :
    (id j : ℕ) (f : Firing) (t : List WorkflowSchedule)
    → found_in id (fire_row j f t)
      ≡ Option.map (λ r. if r.id == j then fired f r else r) (found_in id t)
update_found id j f t =
    first_where_after_update (λ s. s.id == id && not s.deleted) (λ r. r.id == j) (fired f) t
      (λ r. refl)

module _ (o : Outside) (as_of : ℕ) where
  -- A firing sets a time that has not come yet.
  abbrev pub IsAhead : Firing → Type 0
  IsAhead f = arrived as_of f.next ≡ false

  fired_not_due : (f : Firing) (s : WorkflowSchedule) → IsAhead f → is_due as_of (fired f s) ≡ false
  fired_not_due f s h = rw h ground arith

  fire_row-IsServed_kept :
      (id j : ℕ) (f : Firing) (t : List WorkflowSchedule)
      → IsAhead f
      → IsServed as_of id t
      → IsServed as_of id (fire_row j f t)
  fire_row-IsServed_kept id j f t h served s e =
      let u = update_found id j f t in
      elim (Option-cases (found_in id t)) [
        | inl k ↦ cc (rw k at u)
        | inr (r, k) ↦ elim (Bool-cases (r.id == j)) [
          | inl m ↦
              let q : fired f r ≡ s = cc (rw (k, m) at u) in
              subst (λ (x : WorkflowSchedule). is_due as_of x ≡ false) q (fired_not_due f r h)
          | inr m ↦
              let q : r ≡ s = cc (rw (k, m) at u) in
              subst (λ (x : WorkflowSchedule). is_due as_of x ≡ false) q (served r k)
        ]
      ]

  fire_row-IsServed :
      (id : ℕ) (f : Firing) (t : List WorkflowSchedule)
      → IsAhead f
      → IsServed as_of id (fire_row id f t)
  fire_row-IsServed id f t h s e =
      let u = update_found id id f t in
      elim (Option-cases (found_in id t)) [
        | inl k ↦ cc (rw k at u)
        | inr (r, k) ↦
            let m : (r.id == id) ≡ true =
              ground (arith, first_where-holds (λ x. x.id == id && not x.deleted) t r k) in
            let q : fired f r ≡ s = cc (rw (k, m) at u) in
            subst (λ (x : WorkflowSchedule). is_due as_of x ≡ false) q (fired_not_due f r h)
      ]

  fire_row-IsTimed :
      (id : ℕ) (f : Firing) (t : List WorkflowSchedule)
      → All (IsTimed o) t
      → All (IsTimed o) (fire_row id f t)
  unfolding next_after
  fire_row-IsTimed id f [] h = tt
  fire_row-IsTimed id f (s ∷ ss) (h, hs) = elim (Bool-cases (s.id == id)) [
    | inl e ↦ rw e (h, fire_row-IsTimed id f ss hs)
    | inr e ↦ rw e (h, fire_row-IsTimed id f ss hs)
  ]

  -- What one firing leaves of the tables: all is committed, and either the schedule of the
  -- identifier cannot be fired and the table is as before, or its rows hold a firing.
  abbrev pub Effect : ℕ → World → World → Type 0
  Effect id w v =
      (v.db ≡ v.saved)
      × (((v.db.workflow_schedules ≡ w.db.workflow_schedules)
            × IsServed as_of id w.db.workflow_schedules)
          ⊎ ((f : Firing) × IsAhead f
              × (v.db.workflow_schedules ≡ fire_row id f w.db.workflow_schedules)))

  abbrev pub IsReady : World → Type 0
  IsReady w = (w.db ≡ w.saved) × All (IsTimed o) w.db.workflow_schedules

  fire_one-missing :
      (x : WorkflowSchedule) (w : World)
      → o.acquire_lock w.calls x.id ≡ true
      → get_schedule x.id w.db ≡ none
      → fire_one o x w ≡ (err (missing_schedule x.id), record (calling w) { db = w.saved })
  unfolding fire_one fire_in_session get_or_404
  fire_one-missing x w lock e = rw (fire_one, lock) (rw e refl)

  fire_one-disabled :
      (x : WorkflowSchedule) (w : World) (r : WorkflowSchedule)
      → o.acquire_lock w.calls x.id ≡ true
      → get_schedule x.id w.db ≡ some r
      → r.enabled ≡ false
      → fire_one o x w ≡ (ok tt, record (calling w) { saved = w.db })
  unfolding fire_one fire_in_session get_or_404
  fire_one-disabled x w r lock e off =
      let inside : fire_in_session o x.id (calling w) ≡ run_if r.enabled o r (calling w) =
        rw e refl in
      let all =
        inside ∙ ap (λ (b : Bool). run_if b o r (calling w)) off ∙ (unfold run_if in refl) in
      rw (fire_one, lock) (ap (λ (p : Result (Unit {0}) × World). in_session (λ _. p) w) all)

  module _ (locks : (n id : ℕ) → o.acquire_lock n id ≡ true)
      (clock : (n : ℕ) → as_of ≤ time_at o n) where
    pub fire_one-Effect :
        (x : WorkflowSchedule) (w : World) → IsReady w → Effect x.id w (fire_one o x w).1
    unfolding get_schedule
    fire_one-Effect x w (s, timed) = elim (Option-cases (get_schedule x.id w.db)) [
      | inl e ↦
          subst (λ (p : Result (Unit {0}) × World). Effect x.id w p.1)
            (sym (fire_one-missing x w (locks w.calls x.id) e))
            (refl, inl (ap (λ (d : Db). d.workflow_schedules) (sym s), λ r k. cc))
      | inr (r, e) ↦ elim (Bool-cases r.enabled) [
        | inl on ↦
            let (q, v) = run_of_schedule o r (calling w) in
            let (t, n, l) =
              All-first_where (IsTimed o) _ w.db.workflow_schedules r e timed
                (time_at o (suc v.readings)) in
            let f = firing q (time_at o v.readings) t in
            let same : r.id ≡ x.id = ground (
              arith,
              first_where-holds (λ y. y.id == x.id && not y.deleted) w.db.workflow_schedules r e,
            ) in
            let ahead : leb t as_of ≡ false = ground (arith, clock (suc v.readings)) in
            let kept : v.db.workflow_schedules ≡ w.db.workflow_schedules =
              ap (λ (a : Db × List WorkflowSchedule). a.1)
                (run_workflow_keeps_aside o r.workflow_id (request_of r) (calling w)) in
            subst (λ (p : Result (Unit {0}) × World). Effect x.id w p.1)
              (sym (fire_one-recorded o r x w v q t (locks w.calls x.id) e on refl n))
              (
                refl,
                inr (
                  f,
                  ahead,
                  unfold update_schedule in
                      ap (fire_row r.id f) kept
                      ∙ ap (λ (i : ℕ). fire_row i f w.db.workflow_schedules) same,
                ),
              )
        | inr off ↦
            subst (λ (p : Result (Unit {0}) × World). Effect x.id w p.1)
              (sym (fire_one-disabled x w r (locks w.calls x.id) e off))
              (
                refl,
                inl (
                  refl,
                  λ y k.
                      let h : r ≡ y = cc in
                      subst (λ (z : WorkflowSchedule). is_due as_of z ≡ false) h
                        (rw off ground arith),
                ),
              )
      ]
    ]

    pub Effect-IsReady : (j : ℕ) (w v : World) → IsReady w → Effect j w v → IsReady v
    Effect-IsReady j w v (s, timed) (t, inl (same, served)) =
        (t, subst (All (IsTimed o)) (sym same) timed)
    Effect-IsReady j w v (s, timed) (t, inr (f, ahead, same)) =
        (t, subst (All (IsTimed o)) (sym same) (fire_row-IsTimed j f _ timed))

    -- A firing of another keeps what is served.
    pub Effect-IsServed_kept :
        (id j : ℕ) (w v : World)
        → IsServed as_of id w.db.workflow_schedules
        → Effect j w v
        → IsServed as_of id v.db.workflow_schedules
    Effect-IsServed_kept id j w v served (t, inl (same, _)) =
        subst (IsServed as_of id) (sym same) served
    Effect-IsServed_kept id j w v served (t, inr (f, ahead, same)) =
        subst (IsServed as_of id) (sym same) (fire_row-IsServed_kept id j f _ ahead served)

    -- The one that was fired is served.
    pub Effect-IsServed :
        (id : ℕ) (w v : World) → Effect id w v → IsServed as_of id v.db.workflow_schedules
    Effect-IsServed id w v (t, inl (same, served)) = subst (IsServed as_of id) (sym same) served
    Effect-IsServed id w v (t, inr (f, ahead, same)) =
        subst (IsServed as_of id) (sym same) (fire_row-IsServed id f _ ahead)
