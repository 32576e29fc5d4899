-- ===== src/Store/Idle/Daily.antt =====
-- computeDailyIdle, UpsertDailyIdle and RebuildDailyIdle of internal/store/idle.go.
use grosz.Prelude.{ℕ, ◌+◌, ◌*◌, not, List, [], ◌∷◌, ltb, ◌==◌, if◌then◌else◌, put_by}
use grosz.Prelude.Int.{pos}
use grosz.Std.{Sorting, TimeText, Float64, Calendar, hour}
use grosz.Window.{Window}
use grosz.Store.Rates.{RateRow, calculate_session_cost}
use grosz.Store.PstrykConsumption.{ConsumptionRow, pstryk_rows_count, pstryk_energy_kwh}
use grosz.Store.Idle.{SessionRow, non_charging_windows}

module _ (fl : Float64) where
  open fl use {Float, num, add, le}

  -- DailyIdle; a date is the number of its day.
  pub record DailyIdle : Type 0 where
    pub date : ℕ
    pub energy_kwh : Float
    pub cost : Float

  -- UpsertDailyIdle.
  pub upsert_daily_idle : DailyIdle → List DailyIdle → List DailyIdle
  upsert_daily_idle d rows = put_by (λ r. r.date == d.date) d rows

  module _ (text : TimeText) (order_by : Sorting) (rates : List (RateRow fl text)) where
    -- The loop over the windows: the energy and the cost.
    pub idle_from : (ℕ → ℕ → Float) → List Window → Float × Float → Float × Float
    idle_from energy_kwh [] acc = acc
    idle_from energy_kwh (w ∷ ws) (idle_kwh, idle_cost) =
        let delta = energy_kwh w.start w.stop in
        idle_from energy_kwh ws (
          if le delta (num (pos 0)) then (idle_kwh, idle_cost) else (
            add idle_kwh delta,
            add idle_cost (calculate_session_cost fl text order_by w.start w.stop delta rates),
          ))

    -- What computeDailyIdle stores for a day.
    pub idle_of : Calendar → ℕ → ℕ → ℕ → (ℕ → ℕ → Float) → List (SessionRow text) → DailyIdle
    unfolding idle_from
    idle_of calendar day day_start day_end energy_kwh sessions =
        let (idle_kwh, idle_cost) =
          idle_from energy_kwh (non_charging_windows text order_by day_start day_end sessions)
            (num (pos 0), num (pos 0)) in
        record { date = calendar.date day; energy_kwh = idle_kwh; cost = idle_cost }

    -- computeDailyIdle; the day runs for 24 hours from its local midnight.
    pub compute_daily_idle :
        Calendar
        → ℕ
        → ℕ
        → (ℕ → ℕ → ℕ)
        → ℕ
        → (ℕ → ℕ → Float)
        → List (SessionRow text)
        → List DailyIdle
        → List DailyIdle
    unfolding idle_of upsert_daily_idle
    compute_daily_idle calendar now day row_count min_rows energy_kwh sessions rows =
        let day_start = calendar.at_clock day 0 0 in
        let day_end = if ltb now (day_start + 24 * hour) then now else day_start + 24 * hour in
        if not (ltb day_start day_end)
        then rows
        else if ltb (row_count day_start day_end) min_rows
        then rows
        else upsert_daily_idle (idle_of calendar day day_start day_end energy_kwh sessions) rows

    -- RebuildDailyIdle.
    pub rebuild_daily_idle :
        Calendar
        → ℕ
        → ℕ
        → List (ConsumptionRow fl text)
        → List (SessionRow text)
        → List DailyIdle
        → List DailyIdle
    unfolding compute_daily_idle
    rebuild_daily_idle calendar now day consumption sessions rows =
        compute_daily_idle calendar now day
          (λ start stop. pstryk_rows_count fl text start stop consumption) 1
          (λ start stop. pstryk_energy_kwh fl text order_by start stop consumption) sessions rows
