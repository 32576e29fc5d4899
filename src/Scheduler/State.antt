-- ===== src/Scheduler/State.antt =====
-- The state of internal/scheduler's Scheduler that recompute and applyProfile read and write, what
-- they ask of the rest of the program, and what they send.
use grosz.Prelude.{ℕ, Bool, Option, List}
use grosz.Std.{Float64, TimeText}
use grosz.Tariff.{Rate}
use grosz.Store.Overrides.{Table}
use grosz.Scheduler.Schedule.{Period, Schedule}
use grosz.Scheduler.Profile.{Profile}
use grosz.Scheduler.Compute.{Config}

-- The i18n key of a skip reason; its text and parameters are made from the same values.
pub data SkipKey : Type 0 where
  soc_above_threshold covered_by_overrides no_energy_needed no_affordable_rates
        no_rates_below_price :
      SkipKey

module _ (fl : Float64) (text : TimeText) where
  open fl use {Float}

  -- The settings that configFromStore reads, with their defaults applied.
  pub record Settings : Type 0 where
    pub deadline : ℕ
    pub max_power : Float
    pub min_power : Float
    pub battery_capacity : Float
    pub vehicle_soc_target : Float
    pub target_soc : Float
    pub skip_above_soc : Float
    pub min_soc : Float
    pub current_soc : Float
    pub max_price : Float
    pub charge_headroom : Float
    pub target_energy : Float

  -- What one call of recompute is told: the clock, the connector (its transaction is 0 if there is
  -- none), the settings, the tariff (`none` is an error), whether a session of the store overlaps a
  -- window (`none` is an error), and whether the charger takes a profile.
  pub record Surroundings : Type 0 where
    pub now : ℕ
    pub has_charge_box : Bool
    pub connected : Bool
    pub txn_id : ℕ
    pub settings : Settings
    pub rates : Option (List (Rate fl))
    pub sessions_overlapping : ℕ → ℕ → Option Bool
    pub profile_taken : Bool

  -- A hash is a number, and 0 the empty text; the schedule that is saved is the settings key
  -- scheduler.persisted_schedule.
  pub record State : Type 0 where
    pub current : Option (Schedule fl)
    pub persisted : Option (Schedule fl)
    pub config : Option (Config fl)
    pub live_power : Float
    pub skip_reason : Option SkipKey
    pub last_recompute_at : ℕ
    pub recompute_frozen_txn_id : ℕ
    pub last_profile_hash : ℕ
    pub last_profile_sent : ℕ
    pub overrides : Table fl text

  -- Calls of the charger, events of the log, and the callback of SetOnRecompute.
  pub data Effect : Type 0 where
    set_charging_profile : Profile fl → Effect
    missed_period : Period fl → Effect
    frozen : ℕ → Effect
    recomputed : Effect
