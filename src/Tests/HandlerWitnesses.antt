-- ===== src/Tests/HandlerWitnesses.antt =====
-- The theorems about internal/ocpp/handler.go and connector.go at concrete messages.
use text.Mathlib.Text.{◌==◌ as same}
use grosz.Prelude.{◌*◌, ◌≡◌, ℕ, refl, some, none, [], ◌∷◌, List, arith, if◌then◌else◌, any}
use grosz.Prelude.Int.{pos}
use grosz.Std.{second}
use grosz.Store.Sessions.{Table}
use grosz.Ocpp.Status.{preparing, charging, suspended_ev}
use grosz.Ocpp.Connector.{Connector, lookup, stop_transaction}
use grosz.Ocpp.Connector.Stopped.{zeroed_keys, zeroed, lookup-stop_transaction}
use grosz.Ocpp.Server.{State}
use grosz.Ocpp.Handler.{World, StatusNotification, StartTransaction, StopTransaction}
use grosz.Ocpp.Handler.Messages.{
  Message, connected, status_notification, start_transaction_request, stop_transaction_request,
  on_status_notification, run,
}
use grosz.Ocpp.Handler.Messages.Ledger.{Balances, run-Balances}
use grosz.Ocpp.Handler.Messages.Repeat.{changes, on_status_notification_repeated}
use grosz.Tests.Models.{sorting, seconds_text, whole_floats, sums, nano_text}

abbrev world : ℕ → World whole_floats seconds_text nano_text
world now = record {
  now = now;
  sums = sums;
  order_by = sorting;
  odometer = record { rows = []; next_id = 1 };
  rates = [];
  latest_energy = λ txn. some (pos 25);
  parse_float = λ s. none;
}

abbrev no_sessions : Table whole_floats seconds_text
no_sessions = record { rows = []; next_id = 1 }

abbrev fresh_server : State whole_floats seconds_text nano_text
fresh_server = record {
  points = [];
  next_txn_id = 1;
  sessions = no_sessions;
  connector_states = [];
}

abbrev plugged_in : StatusNotification
plugged_in = record { connector_id = 1; status = preparing; error_code = 0; timestamp = none }

abbrev start_1 : StartTransaction
start_1 = record { connector_id = 1; id_tag = 3; meter_start = 20000; timestamp = none }

abbrev stop_1 : StopTransaction
stop_1 = record { transaction_id = 1; meter_stop = 26000; timestamp = none }

-- The car is plugged in and charges; the charge is suspended, and stopped later.
abbrev charge :
    List
      (World whole_floats seconds_text nano_text × ℕ × Message whole_floats seconds_text nano_text)
charge =
    (world (10 * second), 1, connected)
    ∷ (world (20 * second), 1, status_notification plugged_in)
    ∷ (world (30 * second), 1, start_transaction_request start_1)
    ∷ (world (90 * second), 1, status_notification (record plugged_in { status = suspended_ev }))
    ∷ (world (95 * second), 1, stop_transaction_request stop_1)
    ∷ []

run-Balances_example :
    Balances whole_floats seconds_text nano_text fresh_server
      (run whole_floats seconds_text nano_text charge fresh_server)
run-Balances_example =
    run-Balances whole_floats seconds_text nano_text charge fresh_server
      (record { written = tt; ids_grow = tt; ids_used = tt; distinct = tt })

on_status_notification_repeated_example :
    changes whole_floats
      (on_status_notification whole_floats seconds_text nano_text
        (world (60 * second))
        1
        (record plugged_in { error_code = 4 })
        (on_status_notification whole_floats seconds_text nano_text
          (world (20 * second))
          1
          plugged_in
          fresh_server).0).1
    ≡ 0
on_status_notification_repeated_example =
    on_status_notification_repeated whole_floats seconds_text nano_text (world (20 * second))
      (world (60 * second)) 1 plugged_in (record plugged_in { error_code = 4 }) fresh_server
      (on_status_notification whole_floats seconds_text nano_text (world (20 * second)) 1 plugged_in
        fresh_server).0
      (omega arith) refl refl refl

abbrev live : Connector whole_floats
live = record {
  id = 1;
  status = charging;
  status_at = 0;
  error_code = 0;
  transaction_id = 1;
  id_tag = 3;
  measurements =
      record {
        key = "Power.Active.Import.L1";
        measurement = record { value = pos 3600; unit = "W"; timestamp = 7 };
      }
      ∷ record {
        key = "Voltage.L1";
        measurement = record { value = pos 231; unit = "V"; timestamp = 7 };
      }
      ∷ [];
}

lookup-stop_transaction_example :
    lookup whole_floats "Voltage.L1" (stop_transaction whole_floats live).measurements ≡ (
      if any (λ k. same k "Voltage.L1") zeroed_keys
      then zeroed whole_floats (lookup whole_floats "Voltage.L1" live.measurements)
      else lookup whole_floats "Voltage.L1" live.measurements)
lookup-stop_transaction_example = lookup-stop_transaction whole_floats live "Voltage.L1"
