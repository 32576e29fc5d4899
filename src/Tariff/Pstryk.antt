-- ===== src/Tariff/Pstryk.antt =====
-- internal/tariff/pstryk.go: what is done with the answers of Pstryk's API. An answer, whatever the
-- request and its errors were, is the list of its frames or `none`; the context is not cancelled.
pub mod Placeholders
pub mod Backfill
use grosz.Prelude.{
  ℕ, ◌*◌, Bool, true, false, not, ◌&&◌, Option, none, some, List, [], ◌∷◌, ◌++◌, ltb, leb, ◌==◌,
  if◌then◌else◌, length,
}
use grosz.Prelude.Int.{pos}
use grosz.Std.{TimeText, Float64, hour}
use grosz.Tariff.{Rate}
use grosz.Store.Rates.{RateRow, save_rates}
use grosz.Store.PstrykConsumption.{PstrykConsumption, top_of_hour}
use Placeholders.{filter_placeholders}

-- What fetchAndStore records.
pub data RatesEvent : Type 0 where
  token_not_configured fetch_failed no_valid_rates : RatesEvent
  placeholders_filtered : ℕ → ℕ → RatesEvent
  rates_updated : ℕ → RatesEvent

module _ (fl : Float64) where
  open fl use {Float, num, mul}

  module _ (text : TimeText) where
    open text use {Text, parse}

    -- pstrykFrame with its metrics: the price, and the register of the meter.
    pub record PstrykFrame : Type 0 where
      pub start : Text
      pub stop : Text
      pub price_gross : Option Float
      pub energy_active_import_register : Option Float
      pub fae_usage : Option Float

    -- extractFaeUsage.
    pub extract_fae_usage : PstrykFrame → Option Float
    extract_fae_usage f = elim f.fae_usage [
      | some x ↦ some x
      | none ↦ f.energy_active_import_register
    ]

    -- One round of the loop of fetch.
    pub rate_of_frame : PstrykFrame → Option (Rate fl)
    rate_of_frame f = elim f.price_gross [
      | none ↦ none
      | some price ↦ elim (parse f.start) [
        | none ↦ none
        | some start ↦ elim (parse f.stop) [
          | none ↦ none
          | some stop ↦ some (record { start = start; stop = stop; price = price })
        ]
      ]
    ]

    -- fetch, after the request.
    pub rates_of_frames : List PstrykFrame → List (Rate fl)
    unfolding rate_of_frame
    rates_of_frames [] = []
    rates_of_frames (f ∷ fs) =
        let rest = rates_of_frames fs in elim (rate_of_frame f) [ none ↦ rest | some r ↦ r ∷ rest ]

    -- One round of the loop of FetchConsumption.
    pub consumption_of_frame : PstrykFrame → Option (PstrykConsumption fl)
    unfolding extract_fae_usage
    consumption_of_frame f = elim (parse f.start) [
      | none ↦ none
      | some t ↦ elim (extract_fae_usage f) [
        | none ↦ none
        | some kwh ↦ some (record { hour = top_of_hour t; energy_wh = mul kwh (num (pos 1000)) })
      ]
    ]

    -- FetchConsumption, after the request.
    pub consumption_of_frames : List PstrykFrame → List (PstrykConsumption fl)
    unfolding consumption_of_frame
    consumption_of_frames [] = []
    consumption_of_frames (f ∷ fs) =
        let rest = consumption_of_frames fs in
        elim (consumption_of_frame f) [ none ↦ rest | some c ↦ c ∷ rest ]

    -- The rates in memory and in the store.
    pub record Cached : Type 0 where
      pub rates : List (Rate fl)
      pub rows : List (RateRow fl text)

    -- The end of fetchAndStore, with the rates that were fetched.
    pub store_rates : ℕ → ℕ → List (Rate fl) → Cached → Cached × List RatesEvent
    store_rates provider day_end fetched c =
        let rates = filter_placeholders fl day_end fetched in
        let before : List RatesEvent =
          if ltb (length rates) (length fetched)
          then placeholders_filtered (length fetched) (length rates) ∷ []
          else [] in
        elim rates [
          | [] ↦ (c, before ++ no_valid_rates ∷ [])
          | r ∷ rs ↦ (
            record { rates = r ∷ rs; rows = save_rates fl text provider (r ∷ rs) c.rows },
            before ++ rates_updated (length (r ∷ rs)) ∷ [],
          )
        ]

    -- fetchAndStore: `provider` is pstrykName, and `day_end` the next midnight in UTC.
    pub fetch_and_store :
        ℕ → ℕ → Bool → Option (List PstrykFrame) → Cached → Cached × List RatesEvent
    unfolding store_rates rates_of_frames
    fetch_and_store provider day_end has_token answer c =
        if not has_token then (c, token_not_configured ∷ []) else elim answer [
          | none ↦ (c, fetch_failed ∷ [])
          | some frames ↦ store_rates provider day_end (rates_of_frames frames) c
        ]
