-- ===== src/Scheduler/Profile.antt =====
-- internal/scheduler/profile.go: the charging profile that is sent to the charger, and the tests of a
-- schedule against the clock. The profile type of the OCPP library is a record of the fields that
-- BuildProfile sets to what depends on the schedule; the others are constants.
pub mod Meaning
use grosz.Prelude.{
  ℕ, Bool, true, false, not, ◌&&◌, Option, none, some, List, [], ◌∷◌, ltb, leb, ◌==◌, if◌then◌else◌,
  select, any,
}
use grosz.Prelude.Int.{ℤ, pos, sub_ℕ}
use grosz.Std.{Float64}
use grosz.Scheduler.Schedule.{Period, Slot, Schedule, active_periods}

module _ (fl : Float64) where
  open fl use {Float, num, lt, eq, int_seconds}

  -- types.ChargingSchedulePeriod.
  pub record LimitPeriod : Type 0 where
    pub start_period : ℤ
    pub limit : Float

  pub record Profile : Type 0 where
    pub valid_from : ℕ
    pub valid_to : ℕ
    pub start_schedule : ℕ
    pub periods : List LimitPeriod

  abbrev pub limit_from : ℕ → ℕ → Float → LimitPeriod
  limit_from earliest t limit = record {
    start_period = int_seconds (sub_ℕ t earliest);
    limit = limit;
  }

  -- The test for a period that the last emitted one already covers; `last` is its limit, if any.
  pub continues : Option Float → ℕ → Period fl → Bool
  continues none last_end p = false
  continues (some limit) last_end p = p.start == last_end && eq p.power limit

  -- The loop over the periods, and the final period of no power.
  unfoldable pub limit_periods : ℕ → Option Float → ℕ → List (Period fl) → List LimitPeriod
  unfolding continues
  limit_periods earliest last last_end [] = limit_from earliest last_end (num (pos 0)) ∷ []
  limit_periods earliest last last_end (p ∷ ps) =
      let merged = limit_periods earliest last p.stop ps in
      let emitted =
        limit_from earliest p.start p.power ∷ limit_periods earliest (some p.power) p.stop ps in
      if continues last last_end p
      then merged
      else if ltb last_end p.start
      then limit_from earliest last_end (num (pos 0)) ∷ emitted
      else emitted

  abbrev last_stop : ℕ → List (Period fl) → ℕ
  last_stop t [] = t
  last_stop t (p ∷ ps) = last_stop p.stop ps

  pub profile_of : List (Period fl) → Option Profile
  profile_of [] = none
  profile_of (p ∷ ps) = some (record {
    valid_from = p.start;
    valid_to = last_stop p.stop ps;
    start_schedule = p.start;
    periods = limit_periods p.start none p.start (p ∷ ps);
  })

  -- The source's parameter maxPowerW is not used there.
  unfoldable pub build_profile : Option (Schedule fl) → Option Profile
  unfolding profile_of active_periods limit_periods
  build_profile sched = profile_of (active_periods fl sched)

  -- The window of a period is [Start, End).
  unfoldable pub is_charging_in : ℕ → Period fl → Bool
  is_charging_in now p = not (ltb now p.start) && ltb now p.stop && lt (num (pos 0)) p.power

  unfoldable pub is_active_slot : ℕ → Slot fl → Bool
  unfolding is_charging_in
  is_active_slot now slot = not slot.cancelled && any (is_charging_in now) slot.periods

  unfoldable pub is_charge_time : ℕ → Option (Schedule fl) → Bool
  unfolding is_active_slot
  is_charge_time now none = false
  is_charge_time now (some s) = any (is_active_slot now) s.slots

  unfoldable pub first_active : ℕ → List (Slot fl) → Option (Slot fl)
  unfolding is_active_slot
  first_active now [] = none
  first_active now (slot ∷ slots) =
      let rest = first_active now slots in if is_active_slot now slot then some slot else rest

  unfoldable pub active_slot : ℕ → Option (Schedule fl) → Option (Slot fl)
  unfolding first_active
  active_slot now none = none
  active_slot now (some s) = first_active now s.slots
