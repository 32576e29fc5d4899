-- ===== src/Scheduler/Schedule.antt =====
-- The data of internal/scheduler/scheduler.go: charging periods, the slot of a day, the schedule.
use grosz.Prelude.{ℕ, Bool, Option, none, some, List, [], ◌∷◌, ◌++◌, if◌then◌else◌}
use grosz.Std.{Float64}

-- The Source text of a period: left empty, or "user_force".
pub data Source : Type 0 where
  unset user_force : Source

module _ (fl : Float64) where
  pub record Period : Type 0 where
    pub start : ℕ
    pub stop : ℕ
    pub power : fl.Float
    pub price : fl.Float
    pub source : Source

  -- The text of the date is its day; see Calendar.
  pub record Slot : Type 0 where
    pub date : ℕ
    pub deadline : ℕ
    pub periods : List Period
    pub cost : fl.Float
    pub energy : fl.Float
    pub cancelled : Bool

  pub record Schedule : Type 0 where
    pub slots : List Slot
    pub cost : fl.Float
    pub energy : fl.Float
    pub deadline : ℕ

  unfoldable pub active_periods_of : List Slot → List Period
  active_periods_of [] = []
  active_periods_of (slot ∷ slots) =
      let rest = active_periods_of slots in if slot.cancelled then rest else slot.periods ++ rest

  -- ActivePeriods, of a schedule that may be nil.
  unfoldable pub active_periods : Option Schedule → List Period
  unfolding active_periods_of
  active_periods none = []
  active_periods (some s) = active_periods_of s.slots
