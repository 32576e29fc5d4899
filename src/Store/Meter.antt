-- ===== src/Store/Meter.antt =====
-- internal/store/meter.go, with its tables of internal/store/store.go: the readings of the meter and of
-- its phases, and the markers of the chart. Rows stand in the order of their ids.
use grosz.Prelude.{
  ℕ, ◌-◌, ◌*◌, Bool, not, ◌&&◌, Option, none, some, List, [], ◌∷◌, ◌++◌, ltb, length, select, map,
  if◌then◌else◌,
}
use grosz.Prelude.Int.{pos}
use grosz.Std.{Sorting, TimeText, Float64, minute}
use grosz.Store.Odometer.{max_from, min_from, not_below_0}

-- The last element.
abbrev pub latest {ℓ} : {A : Type ℓ} → List A → Option A
latest [] = none
latest (x ∷ xs) = let rest = latest xs in elim rest [ none ↦ some x | some y ↦ some y ]

module _ (fl : Float64) (text : TimeText) where
  open fl use {Float, num, sub, div, lt}
  open text use {Text, before, format, parse}

  -- MeterReading, as a row.
  pub record MeterRow : Type 0 where
    pub timestamp : Text
    pub power_w : Float
    pub energy_wh : Float

  pub record PhaseRow : Type 0 where
    pub timestamp : Text
    pub phase1_w : Float
    pub phase2_w : Float
    pub phase3_w : Float

  unfoldable pub insert_meter_reading : ℕ → Float → Float → List MeterRow → List MeterRow
  insert_meter_reading timestamp power_w energy_wh rows =
      rows ++ record { timestamp = format timestamp; power_w = power_w; energy_wh = energy_wh } ∷ []

  -- PurgeMeterReadings at an instant.
  unfoldable pub purge_meter_readings : ℕ → ℕ → List MeterRow → List MeterRow
  purge_meter_readings now max_age rows =
      select (λ r. not (before r.timestamp (format (now - max_age)))) rows

  pub insert_phase_reading : ℕ → Float → Float → Float → List PhaseRow → List PhaseRow
  insert_phase_reading timestamp p1 p2 p3 rows =
      rows
      ++ record { timestamp = format timestamp; phase1_w = p1; phase2_w = p2; phase3_w = p3 } ∷ []

  pub purge_phase_readings : ℕ → ℕ → List PhaseRow → List PhaseRow
  purge_phase_readings now max_age rows =
      select (λ r. not (before r.timestamp (format (now - max_age)))) rows

  -- RecentPhaseReadings.
  pub recent_phase_readings : Sorting → ℕ → ℕ → List PhaseRow → List PhaseRow
  recent_phase_readings order_by now minutes rows =
      order_by.sort PhaseRow (λ a b. before a.timestamp b.timestamp)
        (select (λ r. not (before r.timestamp (format (now - minutes * minute)))) rows)

  abbrev in_window : ℕ → ℕ → MeterRow → Bool
  in_window start end r = not (before r.timestamp (format start)) && before r.timestamp (format end)

  -- MeterReadingsCount.
  pub meter_readings_count : ℕ → ℕ → List MeterRow → ℕ
  meter_readings_count start end rows = length (select (in_window start end) rows)

  abbrev extent : List Float → Float
  extent [] = num (pos 0)
  extent (m ∷ ms) = sub (max_from fl m ms) (min_from fl m ms)

  -- MeterDeltaKWh.
  pub meter_delta_kwh : ℕ → ℕ → List MeterRow → Float
  meter_delta_kwh start end rows =
      let found = select (in_window start end) rows in
      if ltb (length found) 2
      then num (pos 0)
      else div (not_below_0 fl (extent (map (λ (r : MeterRow). r.energy_wh) found)))
          (num (pos 1000))

  -- LatestMeterReading; `none` is the error of a table without rows.
  unfoldable pub latest_meter_reading : List MeterRow → Option MeterRow
  latest_meter_reading rows = latest rows

  -- earliestMeterTimestamp.
  pub earliest_meter_timestamp : List MeterRow → Option ℕ
  earliest_meter_timestamp [] = none
  earliest_meter_timestamp (r ∷ rows) = parse r.timestamp
