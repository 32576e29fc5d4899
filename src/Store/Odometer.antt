-- ===== src/Store/Odometer.antt =====
-- internal/store/odometer.go, with the odometer_readings table of internal/store/store.go.
use grosz.Prelude.{
  ℕ, not, ◌&&◌, Option, none, some, List, [], ◌∷◌, ◌++◌, map, ltb, suc, select, if◌then◌else◌,
}
use grosz.Prelude.Int.{pos}
use grosz.Std.{Sorting, TimeText, Float64}

module _ (fl : Float64) where
  open fl use {Float, num, sub, lt}

  -- SQL's MAX and MIN of a column of floats that is not empty.
  pub max_from : Float → List Float → Float
  max_from m [] = m
  max_from m (x ∷ xs) = max_from (if lt m x then x else m) xs

  pub min_from : Float → List Float → Float
  min_from m [] = m
  min_from m (x ∷ xs) = min_from (if lt x m then x else m) xs

  -- COALESCE(MAX(c) - MIN(c), 0).
  pub spread : List Float → Float
  unfolding max_from min_from
  spread [] = num (pos 0)
  spread (m ∷ ms) = sub (max_from m ms) (min_from m ms)

  -- A difference below 0 counts as 0.
  abbrev pub not_below_0 : Float → Float
  not_below_0 delta = if lt delta (num (pos 0)) then num (pos 0) else delta

  module _ (text : TimeText) where
    open text use {Text, before, format, parse}

    pub record OdometerRow : Type 0 where
      pub id : ℕ
      pub timestamp : Text
      pub mileage : Float

    pub record OdometerTable : Type 0 where
      pub rows : List OdometerRow
      pub next_id : ℕ

    -- OdometerReading.
    pub record OdometerReading : Type 0 where
      pub id : ℕ
      pub timestamp : ℕ
      pub mileage : Float

    pub insert_odometer_reading : ℕ → Float → OdometerTable → OdometerTable
    insert_odometer_reading timestamp mileage t = record {
      rows =
          t.rows ++ record { id = t.next_id; timestamp = format timestamp; mileage = mileage } ∷ [];
      next_id = suc t.next_id;
    }

    pub odometer_delta : ℕ → ℕ → OdometerTable → Float
    unfolding spread
    odometer_delta from to t = not_below_0 (
        spread (
          map (λ (r : OdometerRow). r.mileage)
            (select (λ r. not (before r.timestamp (format from)) && before r.timestamp (format to))
              t.rows)))

    -- The row with the largest id, if there is one; a text that does not parse gives the zero time.
    pub latest_odometer_reading : Sorting → OdometerTable → Option OdometerReading
    latest_odometer_reading order_by t =
        elim (order_by.sort OdometerRow (λ a b. ltb b.id a.id) t.rows) [
          | [] ↦ none
          | r ∷ _ ↦ some (record {
            id = r.id;
            timestamp = elim (parse r.timestamp) [ none ↦ 0 | some t ↦ t ];
            mileage = r.mileage;
          })
        ]
