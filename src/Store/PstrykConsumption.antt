-- ===== src/Store/PstrykConsumption.antt =====
-- internal/store/pstryk_consumption.go, with its table of internal/store/store.go. `fetched_at`, which
-- nothing reads, is left out.
use grosz.Prelude.{
  ℕ, ◌+◌, ◌-◌, ◌*◌, ◌/◌, Bool, not, ◌&&◌, Option, none, some, List, [], ◌∷◌, map, ltb, leb,
  if◌then◌else◌, select, length, put_by,
}
use grosz.Prelude.Int.{pos, sub_ℕ}
use grosz.Std.{Sorting, TimeText, Float64, hour}

-- Truncate(time.Hour), which counts from Go's zero time.
abbrev pub top_of_hour : ℕ → ℕ
top_of_hour t = t / hour * hour

module _ (fl : Float64) where
  open fl use {Float, num, add, mul, div, seconds}

  pub record PstrykConsumption : Type 0 where
    pub hour : ℕ
    pub energy_wh : Float

  pub record HourlyEnergy : Type 0 where
    pub hour : ℕ
    pub energy_wh : Float
    pub power_w : Float

  module _ (text : TimeText) where
    open text use {Text, before, format, parse}

    pub record ConsumptionRow : Type 0 where
      pub hour : Text
      pub energy_wh : Float

    -- The primary key.
    abbrev pub is_row_at : Text → ConsumptionRow → Bool
    is_row_at h r = not (before r.hour h) && not (before h r.hour)

    -- UpsertPstrykConsumption: one transaction.
    unfoldable pub upsert_pstryk_consumption :
        List PstrykConsumption → List ConsumptionRow → List ConsumptionRow
    upsert_pstryk_consumption [] rows = rows
    upsert_pstryk_consumption (f ∷ fs) rows = upsert_pstryk_consumption fs (
        put_by (is_row_at (format f.hour))
          (record { hour = format f.hour; energy_wh = f.energy_wh }) rows)

    abbrev by_hour : ConsumptionRow → ConsumptionRow → Bool
    by_hour a b = before a.hour b.hour

    abbrev by_hour_down : ConsumptionRow → ConsumptionRow → Bool
    by_hour_down a b = before b.hour a.hour

    -- PstrykHourlyConsumption; a count below 1 is 48, and a row that does not parse has the zero time.
    pub pstryk_hourly_consumption : Sorting → ℕ → ℕ → List ConsumptionRow → List HourlyEnergy
    pstryk_hourly_consumption order_by now hours rows =
        let hours' = if leb hours 0 then 48 else hours in
        let since = format (now - hours' * hour) in
        map
          (λ (r : ConsumptionRow). record {
            hour = elim (parse r.hour) [ none ↦ 0 | some t ↦ t ];
            energy_wh = r.energy_wh;
            power_w = r.energy_wh;
          })
          (order_by.sort ConsumptionRow by_hour (select (λ r. not (before r.hour since)) rows))

    -- pstrykHourEdge after its query.
    pub first_hour : List ConsumptionRow → Option ℕ
    first_hour [] = none
    first_hour (r ∷ _) = parse r.hour

    pub latest_pstryk_hour : Sorting → List ConsumptionRow → Option ℕ
    unfolding first_hour
    latest_pstryk_hour order_by rows = first_hour (order_by.sort ConsumptionRow by_hour_down rows)

    pub earliest_pstryk_hour : Sorting → List ConsumptionRow → Option ℕ
    unfolding first_hour
    earliest_pstryk_hour order_by rows = first_hour (order_by.sort ConsumptionRow by_hour rows)

    -- One round of the loop of PstrykEnergyKWh, from the hour that the row parses to.
    pub overlap_wh : ℕ → ℕ → ℕ → Float → Float → Float
    overlap_wh start stop h wh total_wh =
        let ov_start = if ltb h start then start else h in
        let ov_end = if ltb stop (h + hour) then stop else h + hour in
        if not (ltb ov_start ov_end)
        then total_wh
        else add total_wh (mul wh (div (seconds (sub_ℕ ov_end ov_start)) (seconds (pos hour))))

    pub energy_from : ℕ → ℕ → List ConsumptionRow → Float → Float
    unfolding overlap_wh
    energy_from start stop [] total_wh = total_wh
    energy_from start stop (r ∷ rs) total_wh = energy_from start stop rs (elim (parse r.hour) [
      | none ↦ total_wh
      | some h ↦ overlap_wh start stop h r.energy_wh total_wh
    ])

    -- PstrykEnergyKWh.
    pub pstryk_energy_kwh : Sorting → ℕ → ℕ → List ConsumptionRow → Float
    unfolding energy_from
    pstryk_energy_kwh order_by start stop rows =
        let query_start = format (top_of_hour start - hour) in
        let query_end = format stop in
        let total_wh =
          energy_from start stop
            (order_by.sort ConsumptionRow by_hour
              (select (λ r. not (before r.hour query_start) && before r.hour query_end) rows))
            (num (pos 0)) in
        if not (ltb start stop) then num (pos 0) else div total_wh (num (pos 1000))

    -- PstrykRowsCount.
    pub pstryk_rows_count : ℕ → ℕ → List ConsumptionRow → ℕ
    pstryk_rows_count start stop rows =
        length
          (select (λ r. not (before r.hour (format start)) && before r.hour (format stop)) rows)
