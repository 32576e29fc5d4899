-- ===== src/Scheduler/Forces.antt =====
-- internal/scheduler/overrides.go: the user's forced windows as charging periods, and their place in
-- the schedule.
pub mod Kept
use grosz.Prelude.{
  ℕ, ◌+◌, ◌*◌, Bool, true, false, not, ◌&&◌, Option, none, some, List, [], ◌∷◌, ◌++◌, map, ltb,
  ◌==◌, if◌then◌else◌,
}
use grosz.Prelude.Int.{pos}
use grosz.Std.{Float64, Calendar, Sorting}
use grosz.Tariff.{Rate}
use grosz.Store.Overrides.{ScheduleOverride, Kind, force, block, other}
use grosz.Scheduler.Schedule.{Period, Slot, Schedule, user_force}
use grosz.Scheduler.Totals.{
  next_deadline_after, recalc_slot_totals, schedule_of, price_over_period, period_energy,
}

module _ (fl : Float64) where
  open fl use {Float, num, add, div, lt}

  -- The two results: forces, blocks.
  pub split_overrides :
      List (ScheduleOverride fl) → List (ScheduleOverride fl) × List (ScheduleOverride fl)
  split_overrides [] = ([], [])
  split_overrides (o ∷ os) =
      let (forces, blocks) = split_overrides os in
      elim o.kind [
        | force ↦ (o ∷ forces, blocks)
        | block ↦ (forces, o ∷ blocks)
        | other _ ↦ (forces, blocks)
      ]

  pub force_period : List (Rate fl) → ScheduleOverride fl → Period fl
  force_period rates f =
      let (cost, energy) = price_over_period fl rates f.start f.stop f.power_w in
      record {
        start = f.start;
        stop = f.stop;
        power = f.power_w;
        price = if lt (num (pos 0)) energy then div cost energy else num (pos 0);
        source = user_force;
      }

  pub period_before : Period fl → Period fl → Bool
  period_before a b = ltb a.start b.start

  pub build_force_periods : Sorting → List (ScheduleOverride fl) → List (Rate fl) → List (Period fl)
  unfolding force_period
  build_force_periods sorting forces rates =
      sorting.sort (Period fl) period_before (map (force_period rates) forces)

  force_energy_from : Float → List (Period fl) → Float
  unfolding period_energy
  force_energy_from sum [] = sum
  force_energy_from sum (p ∷ ps) = force_energy_from (add sum (period_energy fl p)) ps

  pub total_force_energy : List (Period fl) → Float
  unfolding force_energy_from
  total_force_energy periods = force_energy_from (num (pos 0)) periods

  pub slot_before : Slot fl → Slot fl → Bool
  slot_before a b = ltb a.deadline b.deadline

  abbrev pub slots_of : Option (Schedule fl) → List (Slot fl)
  slots_of none = []
  slots_of (some s) = s.slots

  module _ (sorting : Sorting) (cal : Calendar) where
    -- The slot that the first period of a day opens.
    pub new_slot : ℕ → Period fl → Slot fl
    new_slot deadline fp = recalc_slot_totals fl (record {
      date = cal.date deadline;
      deadline = deadline;
      periods = fp ∷ [];
      cost = num (pos 0);
      energy = num (pos 0);
      cancelled = false;
    })

    pub with_period : Slot fl → Period fl → Slot fl
    with_period slot fp =
        recalc_slot_totals fl (record slot {
          periods = sorting.sort (Period fl) period_before (slot.periods ++ fp ∷ []);
        })

    -- The search for the first slot of that deadline, and what is done with it or without one.
    pub place_force : ℕ → Period fl → List (Slot fl) → List (Slot fl)
    unfolding new_slot with_period
    place_force deadline fp [] = new_slot deadline fp ∷ []
    place_force deadline fp (slot ∷ slots) =
        let rest = place_force deadline fp slots in
        if slot.deadline == deadline then with_period slot fp ∷ slots else slot ∷ rest

    pub place_forces : ℕ → ℕ → List (Period fl) → List (Slot fl) → List (Slot fl)
    unfolding place_force
    place_forces dh dm [] slots = slots
    place_forces dh dm (fp ∷ fps) slots =
        place_forces dh dm fps (place_force (next_deadline_after cal fp.start dh dm) fp slots)

    pub merged_slots : Option (Schedule fl) → List (Period fl) → ℕ → List (Slot fl)
    unfolding place_forces
    merged_slots auto forces first_deadline = sorting.sort (Slot fl) slot_before (
        place_forces (cal.hour_of first_deadline) (cal.minute_of first_deadline) forces
          (slots_of auto))

    pub merge_forces_into_schedule :
        Option (Schedule fl) → List (Period fl) → ℕ → Option (Schedule fl)
    unfolding merged_slots
    merge_forces_into_schedule none [] first_deadline = none
    merge_forces_into_schedule none (fp ∷ fps) first_deadline =
        some (schedule_of fl (merged_slots none (fp ∷ fps) first_deadline))
    merge_forces_into_schedule (some s) forces first_deadline =
        some (schedule_of fl (merged_slots (some s) forces first_deadline))
