-- ===== src/Tests/TariffWitnesses.antt =====
-- The theorems about internal/tariff/pstryk.go at concrete answers.
use grosz.Prelude.{
  refl, inr, arith, ◌*◌, ◌+◌, ◌≡◌, ◌≤◌, ℕ, some, none, [], ◌∷◌, List, Option, ltb, if◌then◌else◌,
}
use grosz.Prelude.Int.{pos}
use grosz.Std.{hour}
use grosz.Tariff.{Rate}
use grosz.Store.Idle.Daily.{DailyIdle}
use grosz.Store.PstrykConsumption.{
  PstrykConsumption, top_of_hour, latest_pstryk_hour, earliest_pstryk_hour,
}
use grosz.Tariff.Pstryk.Backfill.{Surroundings, Cycle, since_of, fetch_consumption_and_store}
use grosz.Tariff.Pstryk.Backfill.Chunks.{IsCycle, fetch_consumption_and_store-IsCycle}
use grosz.Tariff.Pstryk.Placeholders.{filter_placeholders, rounded}
use grosz.Tariff.Pstryk.Placeholders.Kept.{kept_of, filter_placeholders-IsMost}
use grosz.Tests.Models.{sorting, seconds_text, whole_floats, utc, div_ℤ}

abbrev one_frame : ℕ → ℕ → Option (List (PstrykConsumption whole_floats))
one_frame start stop =
    if ltb start (1000 * hour)
    then some (record { hour = start; energy_wh = pos 400 } ∷ [])
    else none

abbrev surroundings : Surroundings whole_floats seconds_text
surroundings = record { order_by = sorting; calendar = utc; rates = []; sessions = [] }

fetch_consumption_and_store-IsCycle_example :
    let since =
      since_of
        (1000 * hour)
        (earliest_pstryk_hour whole_floats seconds_text sorting [])
        (latest_pstryk_hour whole_floats seconds_text sorting []) in
    (1000 * hour ≤ since + 30 * 24 * hour)
    × ((c : Cycle whole_floats seconds_text) × (idle' : List (DailyIdle whole_floats))
        × (fetch_consumption_and_store whole_floats seconds_text one_frame surroundings
              (1000 * hour)
              []
              []
            ≡ some (c, idle'))
        × IsCycle whole_floats seconds_text one_frame since (top_of_hour (1000 * hour)) 5 [] c)
fetch_consumption_and_store-IsCycle_example =
    fetch_consumption_and_store-IsCycle whole_floats seconds_text one_frame surroundings
      (1000 * hour) [] []

abbrev flat_tomorrow : List (Rate whole_floats)
flat_tomorrow =
    record { start = 22 * hour; stop = 23 * hour; price = pos 2 }
    ∷ record { start = 24 * hour; stop = 25 * hour; price = pos 1 }
    ∷ record { start = 25 * hour; stop = 26 * hour; price = pos 1 }
    ∷ []

filter_placeholders-IsMost_example :
    filter_placeholders whole_floats (24 * hour) flat_tomorrow
    ≡ kept_of whole_floats (24 * hour) flat_tomorrow 2
unfolding rounded div_ℤ
filter_placeholders-IsMost_example =
    filter_placeholders-IsMost whole_floats (24 * hour) flat_tomorrow 2 (refl, (refl, tt))
      ((λ p. ground arith), inr (pos 1, refl))
