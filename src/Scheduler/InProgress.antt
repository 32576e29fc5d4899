-- ===== src/Scheduler/InProgress.antt =====
-- internal/scheduler/scheduler.go: the slot whose period contains the present instant, and how a new
-- schedule takes it over. A copy of a slot (cloneSlot) is the slot.
pub mod Kept
use grosz.Prelude.{
  ℕ, Bool, not, Option, none, some, List, [], ◌∷◌, ◌++◌, ltb, ◌==◌, if◌then◌else◌, select, any,
}
use grosz.Std.{Float64, Sorting}
use grosz.Scheduler.Schedule.{Period, Slot, Schedule}
use grosz.Scheduler.Totals.{recalc_slot_totals, schedule_of}
use grosz.Scheduler.Profile.{is_charging_in}
use grosz.Scheduler.Forces.{period_before}

module _ (fl : Float64) where
  -- preservedSchedule.
  pub preserved_schedule : Slot fl → Schedule fl
  preserved_schedule slot = record {
    slots = slot ∷ [];
    cost = slot.cost;
    energy = slot.energy;
    deadline = slot.deadline;
  }

  -- The first loop of mergeInProgressSlot: the first slot of that date gives way.
  pub replace_slot : Slot fl → List (Slot fl) → List (Slot fl)
  replace_slot in_slot [] = []
  replace_slot in_slot (s ∷ slots) =
      let rest = replace_slot in_slot slots in
      if s.date == in_slot.date then in_slot ∷ slots else s ∷ rest

  -- The insertion before the first later date.
  pub insert_slot : Slot fl → List (Slot fl) → List (Slot fl)
  insert_slot in_slot [] = in_slot ∷ []
  insert_slot in_slot (s ∷ slots) =
      let rest = insert_slot in_slot slots in
      if ltb in_slot.date s.date then in_slot ∷ s ∷ slots else s ∷ rest

  pub put_slot : Slot fl → List (Slot fl) → List (Slot fl)
  unfolding replace_slot insert_slot
  put_slot in_slot slots =
      if any (λ s. s.date == in_slot.date) slots
      then replace_slot in_slot slots
      else insert_slot in_slot slots

  pub merge_in_progress_slot : Option (Schedule fl) → Slot fl → Schedule fl
  unfolding preserved_schedule put_slot
  merge_in_progress_slot none in_slot = preserved_schedule in_slot
  merge_in_progress_slot (some sched) in_slot = schedule_of fl (put_slot in_slot sched.slots)

  -- The periods of the slot up to the active one, and the active one.
  pub up_to_active : ℕ → List (Period fl) → Option (List (Period fl) × Period fl)
  up_to_active now [] = none
  up_to_active now (p ∷ ps) =
      let rest = up_to_active now ps in
      if is_charging_in fl now p
      then some (p ∷ [], p)
      else elim rest [ none ↦ none | some (before, active) ↦ some (p ∷ before, active) ]

  -- The recomputed slot of that date.
  pub slot_of_date : ℕ → List (Slot fl) → Option (Slot fl)
  slot_of_date date [] = none
  slot_of_date date (s ∷ slots) =
      let rest = slot_of_date date slots in if s.date == date then some s else rest

  abbrev recomputed_slot : ℕ → Option (Schedule fl) → Option (Slot fl)
  recomputed_slot date none = none
  recomputed_slot date (some sched) = slot_of_date date sched.slots

  module _ (sorting : Sorting) where
    -- The periods up to the active one, and those recomputed ones that start when it is over.
    pub merged_periods : List (Period fl) → Period fl → Option (Slot fl) → List (Period fl)
    merged_periods before active none = before
    merged_periods before active (some recomputed) =
        sorting.sort (Period fl) (period_before fl)
          (before ++ select (λ p. not (ltb p.start active.stop)) recomputed.periods)

    pub merge_active_slot_preserving_active : ℕ → Option (Schedule fl) → Slot fl → Schedule fl
    unfolding merged_periods merge_in_progress_slot up_to_active slot_of_date
    merge_active_slot_preserving_active now sched in_slot =
        elim (up_to_active now in_slot.periods) [
          | none ↦ merge_in_progress_slot sched in_slot
          | some (before, active) ↦ merge_in_progress_slot sched (
              recalc_slot_totals fl (record in_slot {
                periods = merged_periods before active (recomputed_slot in_slot.date sched);
              }))
        ]
