-- ===== src/Tests/MeterWitnesses.antt =====
-- The theorem about internal/meter/meter.go at a meter whose counter is reset.
use grosz.Prelude.{ℕ, ◌*◌, refl, false, none, some, List, [], ◌∷◌, arith}
use grosz.Prelude.Int.{pos}
use grosz.Std.{minute}
use grosz.Meter.{Sensor, sensor_val, Poller}
use grosz.Meter.Monotonic.{IsExact}
use grosz.Meter.Rows.{IsSeries}
use grosz.Meter.Series.{Event, polled, restart, run, run-IsSeries}
use grosz.Tests.Models.{whole_floats, seconds_text, utc}

whole_floats-IsExact : IsExact whole_floats
whole_floats-IsExact = record {
  add_num = λ a b h. ground arith;
  sub_num = λ a b h k. ground arith;
  lt_num = λ x y h k. refl;
}

abbrev new_poller : Poller whole_floats seconds_text utc
new_poller = record {
  energy = record { offset = pos 0; last = pos 0; stored_offset = none };
  energy_inited = false;
  last_power = pos 0;
  live = none;
  last_store = 0;
  last_snapshot_date = none;
  last_snapshot_time = 0;
  readings = [];
  phases = [];
}

abbrev register : ℕ → List (Sensor whole_floats)
register n = record { id = 0; typ = "forwardActiveEnergy"; value = pos n } ∷ []

-- The counter is reset between the polls, and the program is restarted.
abbrev some_events : List (Event whole_floats whole_floats-IsExact seconds_text utc)
some_events =
    polled (1 * minute) (some (register 5000))
    ∷ polled (2 * minute) (some (register 10))
    ∷ restart
    ∷ polled (3 * minute) (some (register 20))
    ∷ []

run-IsSeries_example :
    IsSeries whole_floats whole_floats-IsExact seconds_text
      (run whole_floats whole_floats-IsExact seconds_text utc some_events new_poller).readings
unfolding sensor_val
run-IsSeries_example =
    run-IsSeries whole_floats whole_floats-IsExact seconds_text utc some_events new_poller 0 5000
      (record {
        stored = tt;
        offset = record { value = 0; same = refl; few = omega arith };
        last = record { value = 0; same = refl; few = omega arith };
        rows = tt;
        series = tt;
        above = λ e. tt;
      })
      (
        record { value = 5000; same = refl; few = omega arith },
        (
          record { value = 10; same = refl; few = omega arith },
          (tt, (record { value = 20; same = refl; few = omega arith }, tt)),
        ),
      )
      (omega arith)
