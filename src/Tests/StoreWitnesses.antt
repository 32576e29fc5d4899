-- ===== src/Tests/StoreWitnesses.antt =====
-- The theorems about the store's tables at concrete tables.
use grosz.Prelude.{
  ◌*◌, ◌≡◌, refl, inl, inr, not, ◌&&◌, none, some, List, [], ◌∷◌, arith, ltb, leb, any,
}
use grosz.Prelude.Int.{pos}
use grosz.Std.{second}
use grosz.Window.{Window, covered, Apart}
use grosz.Store.Idle.{SessionRow, non_charging_windows}
use grosz.Store.Idle.Merge.{merge_windows, merge_windows-Apart}
use grosz.Store.Idle.Exact.{under_way, covered-non_charging_windows}
use grosz.Store.Overrides.{ScheduleOverride, Table, force}
use grosz.Store.Overrides.Invariant.{IsValid, insert, delete, purge, apply_all, apply_all-IsValid}
use grosz.Tests.Models.{sorting, seconds_text, whole_floats}

-- A session from second 10 to second 20, and one that has run since second 40.
abbrev sessions : List (SessionRow seconds_text)
sessions =
    record { start_time = 40; stop_time = none }
    ∷ record { start_time = 10; stop_time = some 20 }
    ∷ []

covered-non_charging_windows_example :
    covered (non_charging_windows seconds_text sorting 0 (60 * second) sessions) (30 * second) ≡ (
      leb 0 (30 * second)
      && ltb (30 * second) (60 * second)
      && not (any (under_way seconds_text (60 * second) (30 * second)) sessions))
covered-non_charging_windows_example =
    covered-non_charging_windows seconds_text sorting 0 (60 * second) (30 * second) sessions
      (
        record { start_written = (40 * second, refl); stop_written = inl refl },
        (
          record { start_written = (10 * second, refl); stop_written = inr (20 * second, refl) },
          tt,
        ),
      )
      (inl (omega arith))

abbrev overlapping : List Window
overlapping =
    record { start = 1; stop = 5 }
    ∷ record { start = 3; stop = 4 }
    ∷ record { start = 7; stop = 9 }
    ∷ []

merge_windows-Apart_example : Apart (merge_windows overlapping)
merge_windows-Apart_example = merge_windows-Apart overlapping (omega arith)

abbrev empty_table : Table whole_floats seconds_text
empty_table = record { rows = []; next_id = 1 }

abbrev evening : ScheduleOverride whole_floats
evening = record {
  id = 0;
  kind = force;
  start = 100 * second;
  stop = 200 * second;
  power_w = pos 11000;
  created_at = 0;
}

apply_all-IsValid_example : IsValid whole_floats seconds_text (
    apply_all whole_floats seconds_text empty_table
      (insert evening 7 ∷ insert evening 8 ∷ delete 1 ∷ purge 9 ∷ []))
apply_all-IsValid_example =
    apply_all-IsValid whole_floats seconds_text empty_table
      (insert evening 7 ∷ insert evening 8 ∷ delete 1 ∷ purge 9 ∷ [])
      (record { windows = tt; disjoint = tt; ids_grow = tt; ids_used = tt })
