-- ===== src/Tests/ControlWitnesses.antt =====
-- The theorem about runs of controlCharging at concrete calls.
use grosz.Prelude.{ℕ, ◌+◌, ◌*◌, refl, false, some, [], ◌∷◌, arith}
use grosz.Std.{minute}
use grosz.Scheduler.Control.{schedule}
use grosz.Scheduler.Control.Cooldown.{Call, starts, Spaced, starts-Spaced}
use grosz.Tests.Evening.{night, now, waiting, nothing_sent}
use grosz.Tests.Models.{whole_floats}

-- A call some minutes after 1:30, while the car waits.
abbrev after : ℕ → Call whole_floats
after minutes = record {
  mode = schedule;
  forced = false;
  current = some night;
  sight = record waiting { now = now + minutes * minute };
}

starts-Spaced_example :
    Spaced whole_floats
      (starts whole_floats (after 0 ∷ after 3 ∷ after 6 ∷ after 12 ∷ []) nothing_sent)
starts-Spaced_example =
    starts-Spaced whole_floats (after 0 ∷ after 3 ∷ after 6 ∷ after 12 ∷ []) nothing_sent (
      (refl, refl, omega arith),
      ((refl, refl, omega arith), ((refl, refl, omega arith), ((refl, refl, omega arith), tt))),
    )
