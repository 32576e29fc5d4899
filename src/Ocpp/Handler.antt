-- ===== src/Ocpp/Handler.antt =====
-- internal/ocpp/handler.go: what the server does with each message of a charge point. The hooks are
-- set, as cmd/grosz/main.go sets them. Of the events, those of a status that changed and of a session
-- that was closed early are in the model, the copies of the messages are not.
pub mod Finalize
pub mod Messages
use Prim.Native.String.{String}
use grosz.Prelude.{
  ℕ, Bool, true, false, not, ◌&&◌, ◌||◌, Option, none, some, List, [], ◌∷◌, ◌++◌, ltb, ◌==◌,
  if◌then◌else◌, find_by,
}
use grosz.Prelude.Int.{pos}
use grosz.Std.{Sorting, TimeText, Float64}
use grosz.Store.Overrides.{Result, ok, err}
use grosz.Store.Odometer.{OdometerTable}
use grosz.Store.Rates.{RateRow, calculate_session_cost}
use grosz.Store.Sessions.{Sums, Session, active, start_session, stop_session, active_session}
use grosz.Store.ConnectorState.{
  NanoText, ConnectorState, get_connector_state, upsert_connector_state,
}
use grosz.Ocpp.Status.{
  Status, available, preparing, suspended_ev, suspended_evse, finishing, faulted, unknown,
  same_status,
}
use grosz.Ocpp.Connector.{
  Connector, Measurement, MeterValue, lookup, update_status, update_meter_values, start_transaction,
  stop_transaction,
}
use grosz.Ocpp.Server.{
  BootInfo, ChargePoint, new_charge_point, set_connected, set_boot_info, get_connector,
  on_connector, is_point, charge_point, on_point, State, allocate_txn_id,
}

-- The chart's markers.
pub data Marker : Type 0 where
  plug unplug stop : Marker

pub data SkipReason : Type 0 where
  no_energy_reading nonpositive_energy : SkipReason

-- isStopStatus.
pub is_stop_status : Status → Bool
is_stop_status suspended_ev = true
is_stop_status suspended_evse = true
is_stop_status finishing = true
is_stop_status faulted = true
is_stop_status _ = false

-- What a message leads to beside the change of the state: markers of the chart, the energy that the
-- socUpdater is told, calls of hooks, and events.
pub data Effect (fl : Float64) : Type 0 where
  marker : Marker → ℕ → Effect fl
  soc_update : fl.Float → Effect fl
  status_hook : Effect fl
  connector_status_hook : ℕ → ℕ → Status → Effect fl
  plug_event_hook : ℕ → ℕ → Status → Status → Effect fl
  transaction_ended_hook : ℕ → ℕ → ℕ → Effect fl
  boot_hooks : ℕ → Effect fl
  status_changed : ℕ → ℕ → Status → Status → ℕ → Effect fl
  finalized : ℕ → Effect fl
  finalize_skipped : ℕ → SkipReason → Effect fl

pub record StatusNotification : Type 0 where
  pub connector_id : ℕ
  pub status : Status
  pub error_code : ℕ
  pub timestamp : Option ℕ

pub record StartTransaction : Type 0 where
  pub connector_id : ℕ
  pub id_tag : ℕ
  pub meter_start : ℕ
  pub timestamp : Option ℕ

pub record StopTransaction : Type 0 where
  pub transaction_id : ℕ
  pub meter_stop : ℕ
  pub timestamp : Option ℕ

abbrev pub or_now : ℕ → Option ℕ → ℕ
or_now now none = now
or_now now (some t) = t

module _ (fl : Float64) (text : TimeText) (nano : NanoText) where
  open fl use {Float, num, sub, div, lt, le}

  -- What a handler reads beside the state: the clock, SQLite, the tables that others write, and
  -- LatestEnergyForTransaction of the log of messages.
  pub record World : Type 1 where
    pub now : ℕ
    pub sums : Sums fl
    pub order_by : Sorting
    pub odometer : OdometerTable fl text
    pub rates : List (RateRow fl text)
    pub latest_energy : ℕ → Option Float
    pub parse_float : String → Option Float

  -- What a handler leaves: the state and the effects.
  abbrev pub Outcome : Type 0
  Outcome = State fl text nano × List (Effect fl)

  abbrev pub kwh_of : Float → Float
  kwh_of wh = div wh (num (pos 1000))

  -- currentEnergyKWh.
  pub current_energy_kwh : World → ℕ → ℕ → ℕ → State fl text nano → Option Float
  current_energy_kwh w cp_id conn_id txn s =
      let logged = w.latest_energy txn in
      elim (charge_point fl cp_id s.points) [
        | none ↦ logged
        | some cp ↦
            let m = (get_connector fl conn_id cp).measurements in
            elim (lookup fl "Energy.Active.Import.Register" m) [
              | some meas ↦ some (kwh_of meas.value)
              | none ↦ elim (lookup fl "Energy.Active.Import.Register.N" m) [
                | some meas ↦ some (kwh_of meas.value)
                | none ↦ logged
              ]
            ]
      ]

  -- What follows a StopSession in finalizeSessionOnStop.
  abbrev pub after_finalize : {A : Type 0} → ℕ → ℕ → Float → Result A → List (Effect fl)
  after_finalize txn stop_time energy (err _) = []
  after_finalize txn stop_time energy (ok _) =
      marker stop stop_time ∷ finalized txn ∷ soc_update energy ∷ []

  -- The end of finalizeSessionOnStop, with the reading of the meter.
  pub finalize_at : World → ℕ → ℕ → Session fl text → Float → State fl text nano → Outcome
  finalize_at w txn stop_time session meter_stop_kwh s =
      let energy = sub meter_stop_kwh session.meter_start in
      let cost =
        calculate_session_cost fl text w.order_by session.start_time stop_time energy w.rates in
      let stopped =
        stop_session fl text w.sums w.odometer txn stop_time meter_stop_kwh energy cost
          s.sessions in
      if le energy (num (pos 0))
      then (s, finalize_skipped txn nonpositive_energy ∷ [])
      else (record s { sessions = stopped.0 }, after_finalize txn stop_time energy stopped.1)

  -- The part of finalizeSessionOnStop that reads the meter.
  pub finalize_reading :
      World → ℕ → ℕ → ℕ → ConnectorState → Session fl text → State fl text nano → Outcome
  unfolding finalize_at current_energy_kwh
  finalize_reading w cp_id conn_id stop_time cs session s =
      elim (current_energy_kwh w cp_id conn_id cs.transaction_id s) [
        | none ↦ (s, finalize_skipped cs.transaction_id no_energy_reading ∷ [])
        | some kwh ↦ finalize_at w cs.transaction_id stop_time session kwh s
      ]

  -- finalizeSessionOnStop.
  pub finalize_session_on_stop : World → ℕ → ℕ → ℕ → State fl text nano → Outcome
  unfolding finalize_reading
  finalize_session_on_stop w cp_id conn_id stop_time s =
      elim (get_connector_state nano cp_id conn_id s.connector_states) [
        | none ↦ (s, [])
        | some cs ↦ elim (active_session fl text w.order_by s.sessions) [
          | none ↦ (s, [])
          | some session ↦
              if cs.transaction_id == 0
              then (s, [])
              else if not (session.transaction_id == cs.transaction_id)
              then (s, [])
              else finalize_reading w cp_id conn_id stop_time cs session s
        ]
      ]
