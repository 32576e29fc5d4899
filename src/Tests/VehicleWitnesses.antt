-- ===== src/Tests/VehicleWitnesses.antt =====
-- The theorems about internal/vehicle at a concrete car.
use grosz.Prelude.{◌≤◌, ℕ, ◌+◌, ◌*◌, ◌≡◌, refl, true, false, none, some, List, [], ◌∷◌, arith}
use grosz.Prelude.Int.{pos}
use grosz.Std.{minute, hour, second}
use grosz.Vehicle.Renault.{State, BatteryStatus, AuthAnswers, answered, ensure_auth}
use grosz.Vehicle.SocLevel.{
  EndPoint, LevelAnswer, status, body, poll_soc_level, should_fetch_soc_level, soc_level_backed_off,
  get_soc_level,
}
use grosz.Vehicle.SocLevel.Backoff.{requests_of, poll_soc_level-backoff}
use grosz.Vehicle.SocTarget.{TargetAnswers, set_soc_target}
use grosz.Vehicle.SocTarget.Writes.{IsSafe, set_soc_target-IsSafe}
use grosz.Vehicle.Poll.{AbrpCache, PollAnswers, poll_once}
use grosz.Vehicle.Poll.Tiers.{IsUntouched, poll_once-failed}
use grosz.Vehicle.Sound.{IsSound, Action, poll, set_target, act_all, act_all-IsSound}
use grosz.Vehicle.Loop.{
  wake, Settings, Turn, Signal, trigger, plug, timer, socket_event, turn_step, started,
}
use grosz.Vehicle.Loop.Turns.{run, has_poll, reason_of, IsPaced, IsQuiet}
use grosz.Vehicle.Loop.Cadence.{loop-IsPaced, loop-wakes, loop-socket}
use grosz.Tests.Models.{whole_floats, seconds_text}

abbrev new_car : State whole_floats seconds_text
new_car = record {
  session = 0;
  jwt = 0;
  jwt_expiry = 0;
  person_id = 0;
  account_id = 0;
  last = none;
  soc_min = pos 0;
  soc_target = pos 0;
  soc_level_known = false;
  stored_session = none;
  tfa_required = false;
  battery = record {
    plug_status = none;
    battery_autonomy = none;
    charging_status = none;
    charging_remaining_time = none;
    battery_timestamp = none;
    current_soc = some (pos 55);
  };
  stored_soc_min = none;
  stored_soc_target = some (pos 80);
  soc_level_read_at = none;
  soc_level_backoff_until = none;
  odometer = record { rows = []; next_id = 1 };
}

abbrev good_auth : AuthAnswers
good_auth = record {
  login = answered 11;
  person = answered 12;
  jwt = answered 13;
  account = answered 14;
}

abbrev limited : EndPoint → LevelAnswer
limited p = status 429

abbrev learned : EndPoint → LevelAnswer
learned p = body (some (record { soc_min = pos 15; soc_target = pos 80 })) none

poll_soc_level-backoff_example :
    requests_of whole_floats seconds_text
      ((30 * minute, learned) ∷ (50 * minute, learned) ∷ [])
      (poll_soc_level whole_floats seconds_text 0 limited new_car).0
    ≡ []
unfolding should_fetch_soc_level soc_level_backed_off get_soc_level
poll_soc_level-backoff_example =
    poll_soc_level-backoff whole_floats seconds_text 0 limited new_car refl refl refl
      ((30 * minute, learned) ∷ (50 * minute, learned) ∷ []) (omega arith, (omega arith, tt))

-- The first write is refused, and the one after the new authentication succeeds.
abbrev second_write : TargetAnswers
second_write = record {
  now = hour;
  auth = good_auth;
  read = learned;
  put = λ p. some 401;
  later = hour + second;
  re_auth = good_auth;
  put_again = λ p. some 200;
}

set_soc_target-IsSafe_example :
    IsSafe whole_floats seconds_text
      (pos 70)
      new_car
      (set_soc_target whole_floats seconds_text true second_write (pos 70) new_car)
set_soc_target-IsSafe_example =
    set_soc_target-IsSafe whole_floats seconds_text true second_write (pos 70) new_car

abbrev full_battery : BatteryStatus whole_floats seconds_text
full_battery = record {
  level = pos 100;
  autonomy = pos 350;
  plug_status = pos 1;
  charging_status = pos 0;
  remaining_time = pos 0;
  timestamp = 5;
  battery_temperature = none;
  charging_instantaneous_power = none;
}

abbrev good_poll : PollAnswers whole_floats seconds_text
good_poll = record {
  now = hour;
  auth = good_auth;
  battery = some full_battery;
  later = hour;
  re_auth = good_auth;
  battery_again = none;
  level_at = hour;
  level = learned;
  mileage = some (pos 12000);
  mileage_at = hour;
  is_abrp_enabled = true;
  hvac = none;
  location = none;
  capacity = pos 60;
  sent_at = hour;
}

abbrev failed_poll : PollAnswers whole_floats seconds_text
failed_poll = record good_poll { battery = none }

abbrev empty_cache : AbrpCache whole_floats seconds_text
empty_cache = record { hvac = none; loc = none; odometer_km = pos 0 }

poll_once-failed_example :
    IsUntouched whole_floats seconds_text new_car empty_cache
      (poll_once whole_floats seconds_text failed_poll true (new_car, empty_cache))
unfolding poll_once ensure_auth
poll_once-failed_example =
    poll_once-failed whole_floats seconds_text failed_poll true new_car empty_cache refl

abbrev some_actions : List (Action whole_floats seconds_text)
some_actions = poll good_poll true ∷ set_target true second_write (pos 70) ∷ []

act_all-IsSound_example :
    IsSound whole_floats seconds_text
      (act_all whole_floats seconds_text some_actions (new_car, empty_cache)).0
act_all-IsSound_example =
    act_all-IsSound whole_floats seconds_text some_actions new_car empty_cache (refl, refl, refl)

abbrev no_settings : Settings
no_settings = record { plugged = none; unplugged = none; soc_level = none }

-- A turn at a minute, whose poll takes no time and finds the car plugged in.
abbrev turn_at : ℕ → Signal → Turn
turn_at m signal = record {
  is_configured = true;
  settings = no_settings;
  signal = signal;
  at = m * minute;
  decided = m * minute;
  plugged = some true;
  tier_b_at = m * minute;
  done = m * minute;
}

abbrev some_turns : List Turn
some_turns =
    turn_at 0 timer ∷ turn_at 3 plug ∷ turn_at 4 timer ∷ turn_at 5 trigger ∷ turn_at 20 timer ∷ []

loop-IsPaced_example : IsPaced 0 some_turns (started 0 false)
loop-IsPaced_example =
    loop-IsPaced 0 false some_turns
      (
        omega arith,
        omega arith,
        (
          omega arith,
          omega arith,
          (omega arith, omega arith, (omega arith, omega arith, (omega arith, omega arith, tt))),
        ),
      )
      ((tt, tt), ((tt, tt), ((tt, tt), ((tt, tt), ((tt, tt), tt)))))

loop-wakes_example :
    let s = run (turn_at 1 plug ∷ []) (started (3 * minute) true) in
    (wake s ≤ 3 * minute) × (has_poll (turn_step (turn_at 2 timer) s).1 ≡ true)
unfolding IsQuiet turn_step run wake
loop-wakes_example =
    loop-wakes (turn_at 1 plug ∷ []) (started (3 * minute) true) (refl, tt) (turn_at 2 timer) refl
      refl (omega arith)

loop-socket_example :
    reason_of
      (turn_step
        (turn_at 5 timer)
        (run (turn_at 3 timer ∷ []) (turn_step (turn_at 3 plug) (started (10 * minute) true)).0)).1
    ≡ some socket_event
unfolding IsQuiet turn_step
loop-socket_example =
    loop-socket (turn_at 3 plug) (started (10 * minute) true) refl refl (turn_at 3 timer ∷ [])
      (refl, tt) (refl, tt) (turn_at 5 timer) refl refl (omega arith)
