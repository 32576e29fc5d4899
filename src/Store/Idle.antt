-- ===== src/Store/Idle.antt =====
-- internal/store/idle.go: which parts of a day no charging session covers, and the energy and cost
-- of those parts.
pub mod Merge
pub mod Invert
pub mod Exact
pub mod Daily
use grosz.Prelude.{
  ℕ, Bool, true, false, ◌&&◌, Option, none, some, List, [], ◌∷◌, ltb, if◌then◌else◌, select,
}
use grosz.Std.{Sorting, TimeText}
use grosz.Window.{Window}
use Merge.{merge_windows}
use Invert.{invert_windows}

-- Clipping to the day: a window that is left empty is dropped.
pub clip : ℕ → ℕ → ℕ → ℕ → Option Window
clip day_start day_end start stop =
    let start' = if ltb start day_start then day_start else start in
    let stop' = if ltb day_end stop then day_end else stop in
    if ltb start' stop' then some (record { start = start'; stop = stop' }) else none

module _ (text : TimeText) where
  open text use {Text, before, format, parse}

  -- The two columns of charging_sessions that the query reads; `none` is SQL's NULL.
  pub record SessionRow : Type 0 where
    pub start_time : Text
    pub stop_time : Option Text

  -- The WHERE clause of the query.
  pub in_range : ℕ → ℕ → SessionRow → Bool
  in_range day_start day_end r =
      before r.start_time (format day_end)
      && elim r.stop_time [ none ↦ true | some s ↦ before (format day_start) s ]

  -- Its ORDER BY clause.
  pub started_before : SessionRow → SessionRow → Bool
  started_before a b = before a.start_time b.start_time

  -- A stop that is NULL, or that does not parse, is the end of the day.
  pub stop_of : ℕ → Option Text → ℕ
  stop_of day_end none = day_end
  stop_of day_end (some s) = elim (parse s) [ none ↦ day_end | some t ↦ t ]

  -- One row of the result: a start that does not parse skips the row.
  pub session_window : ℕ → ℕ → SessionRow → Option Window
  unfolding clip stop_of
  session_window day_start day_end r = elim (parse r.start_time) [
    | none ↦ none
    | some start ↦ clip day_start day_end start (stop_of day_end r.stop_time)
  ]

  -- The loop over the rows.
  pub session_windows : ℕ → ℕ → List SessionRow → List Window
  session_windows day_start day_end [] = []
  session_windows day_start day_end (r ∷ rs) =
      let rest = session_windows day_start day_end rs in
      elim (session_window day_start day_end r) [ none ↦ rest | some w ↦ w ∷ rest ]

  pub non_charging_windows : Sorting → ℕ → ℕ → List SessionRow → List Window
  non_charging_windows order_by day_start day_end table =
      let rows =
        order_by.sort SessionRow started_before (select (in_range day_start day_end) table) in
      invert_windows day_start day_end (merge_windows (session_windows day_start day_end rows))
