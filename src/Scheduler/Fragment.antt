-- ===== src/Scheduler/Fragment.antt =====
-- internal/scheduler/fragment.go: what the user's overrides leave of the tariff's rates.
pub mod Cut
pub mod Exact
use grosz.Prelude.{ℕ, ◌+◌, Bool, not, ◌||◌, List, [], ◌∷◌, ◌++◌, map, ltb, if◌then◌else◌, select}
use grosz.Std.{Sorting, Float64, second}
use grosz.Window.{Window}
use grosz.Tariff.{Rate}
use grosz.Store.Overrides.{ScheduleOverride, window_of}
use Cut.{merge_carve, carve_all}

-- `seg.end.Sub(seg.start) < time.Second` is the test that drops a segment.
pub is_long : Window → Bool
is_long seg = not (ltb seg.stop (seg.start + second))

pub starts_before : Window → Window → Bool
starts_before a b = ltb a.start b.start

module _ (fl : Float64) where
  pub rate_before : Rate fl → Rate fl → Bool
  rate_before a b = ltb a.start b.start

  pub priced : Rate fl → Window → Rate fl
  priced r seg = record { start = seg.start; stop = seg.stop; price = r.price }

  -- The fragments of one rate.
  pub rate_fragments : List Window → Rate fl → List (Rate fl)
  unfolding is_long priced
  rate_fragments merged r =
      map (priced r) (select is_long (carve_all merged (record { start = r.start; stop = r.stop })))

  -- The loop over the rates.
  pub all_fragments : List Window → List (Rate fl) → List (Rate fl)
  all_fragments merged [] = []
  all_fragments merged (r ∷ rs) = rate_fragments merged r ++ all_fragments merged rs

  -- A copy of the rates is the rates.
  pub fragment_rates : Sorting → List (Rate fl) → List (ScheduleOverride fl) → List (Rate fl)
  fragment_rates sorting rates [] = rates
  fragment_rates sorting rates (o ∷ os) =
      let carve = sorting.sort Window starts_before (map (window_of fl) (o ∷ os)) in
      sorting.sort (Rate fl) rate_before (all_fragments (merge_carve carve) rates)
