-- ===== src/Tests/SessionWitnesses.antt =====
-- The theorems about the sessions and the connectors' states at concrete tables.
use grosz.Prelude.{◌*◌, ◌≡◌, some, none, [], ◌∷◌, if◌then◌else◌, ◌==◌, ◌&&◌}
use grosz.Prelude.Int.{pos}
use grosz.Std.{second}
use grosz.Ocpp.Status.{charging}
use grosz.Store.Overrides.{err, no_rows}
use grosz.Store.Odometer.{OdometerTable}
use grosz.Store.Sessions.{Row, Table, Session, active, stop_session}
use grosz.Store.Sessions.Invariant.{IsValid, start, stop, apply_calls, apply_calls-IsValid}
use grosz.Store.Sessions.Closed.{stop_session-stop_session}
use grosz.Store.ConnectorState.{ConnectorState, get_connector_state, upsert_connector_state}
use grosz.Store.ConnectorState.Roundtrip.{get-upsert_connector_state}
use grosz.Tests.Models.{seconds_text, whole_floats, sums, nano_text}

abbrev no_odometer : OdometerTable whole_floats seconds_text
no_odometer = record { rows = []; next_id = 1 }

abbrev no_sessions : Table whole_floats seconds_text
no_sessions = record { rows = []; next_id = 1 }

abbrev first_session : Session whole_floats seconds_text
first_session = record {
  id = 0;
  charge_box = 1;
  connector_id = 1;
  transaction_id = 7;
  id_tag = 3;
  start_time = 100 * second;
  stop_time = none;
  meter_start = pos 10;
  meter_stop = pos 0;
  energy = pos 0;
  cost = pos 0;
  status = active;
  distance = pos 0;
  kwh_per_100km = pos 0;
}

apply_calls-IsValid_example : IsValid whole_floats seconds_text (
    apply_calls whole_floats seconds_text sums
      (start first_session
        ∷ start first_session
        ∷ stop no_odometer 7 (200 * second) (pos 15) (pos 5) (pos 4)
        ∷ [])
      no_sessions)
apply_calls-IsValid_example =
    apply_calls-IsValid whole_floats seconds_text sums
      (start first_session
        ∷ start first_session
        ∷ stop no_odometer 7 (200 * second) (pos 15) (pos 5) (pos 4)
        ∷ [])
      no_sessions (record { written = tt; ids_grow = tt; ids_used = tt; distinct = tt })

abbrev open_row : Row whole_floats seconds_text
open_row = record {
  id = 1;
  charge_box = 1;
  connector_id = 1;
  transaction_id = 7;
  id_tag = 3;
  start_time = 100;
  stop_time = none;
  meter_start = pos 10;
  meter_stop = none;
  energy = none;
  cost = none;
  status = active;
  distance_km = none;
  kwh_per_100km = none;
}

abbrev one_open : Table whole_floats seconds_text
one_open = record { rows = open_row ∷ []; next_id = 2 }

stop_session-stop_session_example :
    let stopped =
      (stop_session whole_floats seconds_text sums no_odometer 7
        (200 * second)
        (pos 15)
        (pos 5)
        (pos 4)
        one_open).0 in
    stop_session whole_floats seconds_text sums no_odometer 7
      (300 * second)
      (pos 16)
      (pos 6)
      (pos 5)
      stopped
    ≡ (stopped, err no_rows)
stop_session-stop_session_example =
    stop_session-stop_session whole_floats seconds_text sums no_odometer no_odometer 7
      (200 * second) (300 * second) (pos 15) (pos 5) (pos 4) (pos 16) (pos 6) (pos 5) one_open

abbrev charging_state : ConnectorState
charging_state = record {
  charge_box = 1;
  connector_id = 1;
  status = charging;
  status_at = 5;
  error_code = 0;
  transaction_id = 7;
  id_tag = 3;
  last_status_notification = 6;
}

get-upsert_connector_state_example :
    get_connector_state nano_text 1 2 (upsert_connector_state nano_text charging_state []) ≡ (
      if charging_state.charge_box == 1 && charging_state.connector_id == 2
      then some charging_state
      else get_connector_state nano_text 1 2 [])
get-upsert_connector_state_example = get-upsert_connector_state nano_text charging_state 1 2 []
