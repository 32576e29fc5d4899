-- ===== src/Meter/Series.antt =====
-- Runs of poll of internal/meter/meter.go, with restarts between them: the readings that are stored
-- never decrease.
use grosz.Prelude.{ℕ, ◌+◌, ◌*◌, ◌≤◌, Option, none, some, List, [], ◌∷◌, arith, All, length}
use grosz.Std.{Float64, TimeText, Calendar}
use grosz.Meter.{Sensor, sensor_val, Poller, poll, restarted}
use grosz.Meter.Monotonic.{whole_limit, IsExact, IsWhole}
use grosz.Meter.Rows.{IsSeries}
use grosz.Meter.Kept.{IsKept, poll-IsKept, unanswered-IsKept, restarted-IsKept}

module _ (fl : Float64) (exact : IsExact fl) (text : TimeText) (cal : Calendar) where
  -- What happens to the poller: a poll, with what the meter has answered, or a restart.
  pub data Event : Type 0 where
    polled : ℕ → Option (List (Sensor fl)) → Event
    restart : Event

  unfoldable pub run : List Event → Poller fl text cal → Poller fl text cal
  run [] p = p
  run (polled now answer ∷ events) p = run events (poll fl text cal now answer p).0
  run (restart ∷ events) p = run events (restarted fl text cal p)

  -- The meter's register is a whole number of watt-hours, at most so much.
  abbrev pub IsMetered : ℕ → Event → Type 0
  IsMetered step (polled now none) = Unit
  IsMetered step (polled now (some sensors)) =
      IsWhole fl exact step (sensor_val fl sensors 0 "forwardActiveEnergy")
  IsMetered step restart = Unit

  -- In every run of polls and restarts, the readings in the store never decrease, however often the
  -- counter of the meter is reset and whenever old readings are purged; the registers are whole
  -- numbers of watt-hours, and so small that all the sums are exact.
  pub run-IsSeries :
      (events : List Event) (p : Poller fl text cal) (most step : ℕ)
      → IsKept fl exact text cal most p
      → All (IsMetered step) events
      → most + length events * step + 1000 ≤ whole_limit
      → IsSeries fl exact text (run events p).readings
  unfolding run
  run-IsSeries [] p most step k w h = k.series
  run-IsSeries (polled now none ∷ events) p most step k w h =
      run-IsSeries events _ most step (unanswered-IsKept fl exact text cal most now p k) w.1
        (omega arith)
  run-IsSeries (polled now (some sensors) ∷ events) p most step k w h =
      run-IsSeries events _ (most + step) step
        (poll-IsKept fl exact text cal most step now sensors p (omega arith) w.0 k) w.1
        (omega arith)
  run-IsSeries (restart ∷ events) p most step k w h =
      run-IsSeries events _ most step (restarted-IsKept fl exact text cal most p k) w.1
        (omega arith)
