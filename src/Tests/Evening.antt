-- ===== src/Tests/Evening.antt =====
-- The data of the scheduler's tests: an evening with two hours to charge.
use grosz.Prelude.{ℕ, ◌*◌, true, false, none, some, List, [], ◌∷◌}
use grosz.Prelude.Int.{pos}
use grosz.Std.{minute, hour}
use grosz.Tariff.{Rate}
use grosz.Scheduler.Schedule.{Period, Slot, Schedule, unset}
use grosz.Scheduler.State.{Settings, Surroundings, State}
use grosz.Ocpp.Status.{preparing, charging}
use grosz.Scheduler.Control.{Sight, Sent}
use grosz.Tests.Models.{seconds_text, whole_floats}

-- 11 kW from 1:00 to 2:00 and from 3:00 to 4:00.
abbrev pub first_hour : Period whole_floats
first_hour = record {
  start = 1 * hour;
  stop = 2 * hour;
  power = pos 11000;
  price = pos 3;
  source = unset;
}

abbrev pub second_hour : Period whole_floats
second_hour = record {
  start = 3 * hour;
  stop = 4 * hour;
  power = pos 11000;
  price = pos 4;
  source = unset;
}

abbrev pub slot : Slot whole_floats
slot = record {
  date = 0;
  deadline = 7 * hour;
  periods = first_hour ∷ second_hour ∷ [];
  cost = pos 77;
  energy = pos 22;
  cancelled = false;
}

abbrev pub night : Schedule whole_floats
night = record { slots = slot ∷ []; cost = pos 77; energy = pos 22; deadline = 7 * hour }

-- 1:30.
abbrev pub now : ℕ
now = 90 * minute

abbrev pub settings : Settings whole_floats seconds_text
settings = record {
  deadline = 7 * hour;
  max_power = pos 11000;
  min_power = pos 1400;
  battery_capacity = pos 50;
  vehicle_soc_target = pos 80;
  target_soc = pos 0;
  skip_above_soc = pos 0;
  min_soc = pos 0;
  current_soc = pos 40;
  max_price = pos 0;
  charge_headroom = pos 0;
  target_energy = pos 0;
}

abbrev pub hourly : List (Rate whole_floats)
hourly =
    record { start = 1 * hour; stop = 2 * hour; price = pos 5 }
    ∷ record { start = 2 * hour; stop = 3 * hour; price = pos 3 }
    ∷ record { start = 3 * hour; stop = 4 * hour; price = pos 9 }
    ∷ []

abbrev pub surroundings : Surroundings whole_floats seconds_text
surroundings = record {
  now = now;
  has_charge_box = true;
  connected = true;
  txn_id = 0;
  settings = settings;
  rates = some hourly;
  sessions_overlapping = λ a b. some true;
  profile_taken = true;
}

abbrev pub state : State whole_floats seconds_text
state = record {
  current = some night;
  persisted = some night;
  config = none;
  live_power = pos 0;
  skip_reason = none;
  last_recompute_at = 60 * minute;
  recompute_frozen_txn_id = 0;
  last_profile_hash = 0;
  last_profile_sent = 0;
  overrides = record { rows = []; next_id = 1 };
}

-- Plugged in at 1:30, with no transaction.
abbrev pub waiting : Sight
waiting = record {
  now = now;
  has_charge_box = true;
  connected = true;
  status = preparing;
  txn_id = 0;
  require_plug_check = false;
  plug_status_is_0 = false;
  battery_timestamp = none;
  poll_interval = pos 5;
  start_taken = true;
}

-- In a transaction at 2:30, when the schedule does not charge.
abbrev pub in_gap : Sight
in_gap = record waiting { now = 150 * minute; status = charging; txn_id = 12 }

abbrev pub nothing_sent : Sent
nothing_sent = record { last_start_sent = 0; last_stop_sent = 0 }
