-- ===== src/Store/Rates.antt =====
-- internal/store/rates.go, with the tariff_rates table of internal/store/store.go. Providers, texts
-- that are only compared, are numbers; `fetched_at` and the row ids, which nothing reads, are left out.
use grosz.Prelude.{
  ℕ, Bool, not, ◌&&◌, none, some, List, [], ◌∷◌, map, ltb, ◌==◌, if◌then◌else◌, select, put_by,
}
use grosz.Prelude.Int.{pos, sub_ℕ}
use grosz.Std.{Sorting, TimeText, Float64}
use grosz.Tariff.{Rate}

module _ (fl : Float64) where
  open fl use {Float, num, add, mul, div, le, hours}

  -- What one rate adds to the cost between two instants at a power.
  pub cost_of : ℕ → ℕ → Float → Rate fl → Float → Float
  cost_of start stop power_kw r cost =
      let overlap_start = if ltb r.start start then start else r.start in
      let overlap_end = if ltb stop r.stop then stop else r.stop in
      let hours = hours (sub_ℕ overlap_end overlap_start) in
      if le hours (num (pos 0)) then cost else add cost (mul (mul power_kw hours) r.price)

  -- The loop over the rates.
  unfoldable pub cost_from : ℕ → ℕ → Float → List (Rate fl) → Float → Float
  unfolding cost_of
  cost_from start stop power_kw [] cost = cost
  cost_from start stop power_kw (r ∷ rs) cost =
      cost_from start stop power_kw rs (cost_of start stop power_kw r cost)

  module _ (text : TimeText) where
    open text use {Text, before, format, parse}

    pub record RateRow : Type 0 where
      pub provider : ℕ
      pub start_time : Text
      pub end_time : Text
      pub price : Float

    -- Texts are equal if neither is before the other.
    abbrev pub same_text : Text → Text → Bool
    same_text a b = not (before a b) && not (before b a)

    -- The columns that are UNIQUE together.
    abbrev pub is_rate_of : ℕ → Text → RateRow → Bool
    is_rate_of provider start r = r.provider == provider && same_text r.start_time start

    pub rate_row : ℕ → Rate fl → RateRow
    rate_row provider r = record {
      provider = provider;
      start_time = format r.start;
      end_time = format r.stop;
      price = r.price;
    }

    -- SaveRates: one transaction of upserts.
    unfoldable pub save_rates : ℕ → List (Rate fl) → List RateRow → List RateRow
    unfolding rate_row
    save_rates provider [] rows = rows
    save_rates provider (r ∷ rs) rows =
        save_rates provider rs
          (put_by (is_rate_of provider (format r.start)) (rate_row provider r) rows)

    abbrev time_or_0 : Text → ℕ
    time_or_0 s = elim (parse s) [ none ↦ 0 | some t ↦ t ]

    pub scan_rate : RateRow → Rate fl
    scan_rate r = record {
      start = time_or_0 r.start_time;
      stop = time_or_0 r.end_time;
      price = r.price;
    }

    -- LoadRates.
    pub load_rates : Sorting → ℕ → ℕ → List RateRow → List (Rate fl)
    unfolding scan_rate
    load_rates order_by provider now rows = map scan_rate (
        order_by.sort RateRow (λ a b. before a.start_time b.start_time)
          (select (λ r. r.provider == provider && before (format now) r.end_time) rows))

    -- RatesForPeriod.
    pub rates_for_period : Sorting → ℕ → ℕ → List RateRow → List (Rate fl)
    unfolding scan_rate
    rates_for_period order_by from to rows = map scan_rate (
        order_by.sort RateRow (λ a b. before a.start_time b.start_time)
          (select (λ r. before r.start_time (format to) && before (format from) r.end_time) rows))

    -- CalculateSessionCost.
    pub calculate_session_cost : Sorting → ℕ → ℕ → Float → List RateRow → Float
    unfolding rates_for_period cost_from
    calculate_session_cost order_by start stop energy_kwh rows =
        let total_hours = hours (sub_ℕ stop start) in
        let cost =
          cost_from start stop (div energy_kwh total_hours)
            (rates_for_period order_by start stop rows) (num (pos 0)) in
        if le energy_kwh (num (pos 0))
        then num (pos 0)
        else elim (rates_for_period order_by start stop rows) [
          | [] ↦ num (pos 0)
          | _ ↦ if le total_hours (num (pos 0)) then num (pos 0) else cost
        ]

    -- PurgeOldRates.
    pub purge_old_rates : ℕ → List RateRow → List RateRow
    purge_old_rates cutoff rows = select (λ r. not (before r.end_time (format cutoff))) rows
