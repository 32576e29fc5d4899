-- ===== src/Ocpp/Handler/Messages.antt =====
-- The handlers of internal/ocpp/handler.go, one for each message, and runs of them.
pub mod Ledger
pub mod Fresh
pub mod Repeat
use grosz.Prelude.{
  ℕ, Bool, true, false, not, ◌&&◌, Option, none, some, List, [], ◌∷◌, ◌++◌, ltb, ◌==◌,
  if◌then◌else◌, find_by, put_by,
}
use grosz.Prelude.Int.{pos}
use grosz.Std.{TimeText, Float64}
use grosz.Store.Overrides.{Result, ok, err}
use grosz.Store.Rates.{calculate_session_cost}
use grosz.Store.Sessions.{Session, active, start_session, stop_session, active_session}
use grosz.Store.ConnectorState.{
  NanoText, ConnectorState, StateRow, get_connector_state, upsert_connector_state,
}
use grosz.Ocpp.Status.{Status, available, preparing, suspended_ev, unknown, same_status}
use grosz.Ocpp.Connector.{
  Connector, MeterValue, update_status, update_meter_values, start_transaction, stop_transaction,
}
use grosz.Ocpp.Server.{
  BootInfo, ChargePoint, new_charge_point, set_connected, set_boot_info, get_connector,
  on_connector, is_point, charge_point, on_point, State, allocate_txn_id, on_connected,
  on_disconnected,
}
use grosz.Ocpp.Handler.{
  Marker, plug, unplug, stop, Effect, marker, soc_update, status_hook, connector_status_hook,
  plug_event_hook, transaction_ended_hook, boot_hooks, status_changed, is_stop_status,
  StatusNotification, StartTransaction, StopTransaction, or_now, World, Outcome, kwh_of,
  finalize_session_on_stop,
}

module _ (fl : Float64) (text : TimeText) (nano : NanoText) where
  open fl use {Float, num, sub, div, lt}

  -- OnBootNotification. A point that is not known, which should not happen, is made anew.
  pub on_boot_notification :
      World fl text nano → ℕ → BootInfo → State fl text nano → Outcome fl text nano
  on_boot_notification w cp_id info s =
      let cp : ChargePoint fl = elim (charge_point fl cp_id s.points) [
        | none ↦ new_charge_point fl cp_id w.now
        | some cp ↦ cp
      ] in
      (
        record s {
          points =
              put_by (is_point fl cp_id) (set_connected fl true w.now (set_boot_info fl info cp))
                s.points;
        },
        boot_hooks cp_id ∷ [],
      )

  -- What a real change of the status leads to: the event, the marker and the hook.
  pub on_real_change : ℕ → StatusNotification → ℕ → Option ConnectorState → List (Effect fl)
  on_real_change cp_id r ts prev =
      let from : Status = elim prev [ none ↦ unknown | some p ↦ p.status ] in
      let hook = plug_event_hook cp_id r.connector_id from r.status in
      let effects : List (Effect fl) = elim r.status [
        | preparing ↦ marker plug ts ∷ hook ∷ []
        | available ↦
            if not (same_status from unknown) && not (same_status from available)
            then marker unplug ts ∷ hook ∷ []
            else []
        | suspended_ev ↦ hook ∷ []
        | _ ↦ []
      ] in
      status_changed cp_id r.connector_id from r.status r.error_code ∷ effects

  -- The state that OnStatusNotification persists.
  pub notified_state : ℕ → ℕ → StatusNotification → ℕ → Option ConnectorState → ConnectorState
  notified_state now cp_id r ts prev = record {
    charge_box = cp_id;
    connector_id = r.connector_id;
    status = r.status;
    status_at = ts;
    error_code = r.error_code;
    transaction_id = elim prev [ none ↦ 0 | some p ↦ p.transaction_id ];
    id_tag = elim prev [ none ↦ 0 | some p ↦ p.id_tag ];
    last_status_notification = now;
  }

  -- The part of OnStatusNotification that compares with the persisted state and writes it.
  pub persist_status : ℕ → ℕ → StatusNotification → ℕ → State fl text nano → Outcome fl text nano
  unfolding on_real_change notified_state
  persist_status now cp_id r ts s =
      let prev = get_connector_state nano cp_id r.connector_id s.connector_states in
      let same : Bool = elim prev [ none ↦ false | some p ↦ same_status p.status r.status ] in
      if ltb 0 r.connector_id
      then (
        record s {
          connector_states =
              upsert_connector_state nano (notified_state now cp_id r ts prev) s.connector_states;
        },
        if same then [] else on_real_change cp_id r ts prev,
      )
      else (s, [])

  -- OnStatusNotification.
  pub on_status_notification :
      World fl text nano → ℕ → StatusNotification → State fl text nano → Outcome fl text nano
  unfolding persist_status
  on_status_notification w cp_id r s =
      let ts = or_now w.now r.timestamp in
      let s1 : State fl text nano = record s {
        points =
            on_point fl cp_id
              (on_connector fl r.connector_id (update_status fl r.status r.error_code ts)) s.points;
      } in
      let (s2, changes) = persist_status w.now cp_id r ts s1 in
      let (s3, closing) =
        if is_stop_status r.status
        then finalize_session_on_stop fl text nano w cp_id r.connector_id ts s2
        else (s2, []) in
      (
        s3,
        changes
            ++ (closing ++ status_hook ∷ connector_status_hook cp_id r.connector_id r.status ∷ []),
      )

  -- OnMeterValues.
  pub on_meter_values :
      World fl text nano → ℕ → ℕ → List MeterValue → State fl text nano → Outcome fl text nano
  on_meter_values w cp_id conn_id values s = (
    record s {
      points =
          on_point fl cp_id
            (on_connector fl conn_id (update_meter_values fl w.parse_float w.now values)) s.points;
    },
    status_hook ∷ [],
  )

  -- The persisted state with another transaction; the other columns are kept, or have Go's zero values.
  pub with_transaction : ℕ → ℕ → ℕ → ℕ → Option ConnectorState → ConnectorState
  with_transaction cp_id conn_id txn id_tag (some p) = record {
    charge_box = cp_id;
    connector_id = conn_id;
    status = p.status;
    status_at = p.status_at;
    error_code = p.error_code;
    transaction_id = txn;
    id_tag = id_tag;
    last_status_notification = p.last_status_notification;
  }
  with_transaction cp_id conn_id txn id_tag none = record {
    charge_box = cp_id;
    connector_id = conn_id;
    status = unknown;
    status_at = 0;
    error_code = 0;
    transaction_id = txn;
    id_tag = id_tag;
    last_status_notification = 0;
  }

  -- GetConnectorState and UpsertConnectorState around it.
  pub set_transaction : ℕ → ℕ → ℕ → ℕ → List (StateRow nano) → List (StateRow nano)
  unfolding with_transaction
  set_transaction cp_id conn_id txn id_tag rows =
      upsert_connector_state nano
        (with_transaction cp_id conn_id txn id_tag (get_connector_state nano cp_id conn_id rows))
        rows

  -- The session that OnStartTransaction stores; StartSession does not read the other fields.
  pub new_session : ℕ → ℕ → ℕ → StartTransaction → Session fl text
  new_session now cp_id txn r = record {
    id = 0;
    charge_box = cp_id;
    connector_id = r.connector_id;
    transaction_id = txn;
    id_tag = r.id_tag;
    start_time = or_now now r.timestamp;
    stop_time = none;
    meter_start = div (num (pos r.meter_start)) (num (pos 1000));
    meter_stop = num (pos 0);
    energy = num (pos 0);
    cost = num (pos 0);
    status = active;
    distance = num (pos 0);
    kwh_per_100km = num (pos 0);
  }

  -- OnStartTransaction: the transaction that the charger is told, and the outcome.
  pub on_start_transaction :
      World fl text nano → ℕ → StartTransaction → State fl text nano → ℕ × Outcome fl text nano
  unfolding allocate_txn_id new_session set_transaction
  on_start_transaction w cp_id r s0 =
      let (txn, s) = allocate_txn_id fl text nano s0 in
      (
        txn,
        (
          record s {
            points =
                on_point fl cp_id
                  (on_connector fl r.connector_id (start_transaction fl txn r.id_tag)) s.points;
            sessions = (start_session fl text (new_session w.now cp_id txn r) s.sessions).0;
            connector_states = set_transaction cp_id r.connector_id txn r.id_tag s.connector_states;
          },
          status_hook ∷ [],
        ),
      )

  -- The connector that the loop of OnStopTransaction finds. Go ranges over a map in any order.
  pub connector_with : World fl text nano → ℕ → ChargePoint fl → Option (Connector fl)
  connector_with w txn cp =
      find_by (λ c. c.transaction_id == txn)
        (w.order_by.sort (Connector fl) (λ a b. false) cp.connectors)

  -- The energy and the cost of a session that a StopTransaction ends, 0 unless it is the active one.
  pub energy_and_cost : World fl text nano → ℕ → ℕ → Float → State fl text nano → Float × Float
  energy_and_cost w txn stop_time meter_stop_kwh s =
      elim (active_session fl text w.order_by s.sessions) [
        | none ↦ (num (pos 0), num (pos 0))
        | some session ↦
            let energy = sub meter_stop_kwh session.meter_start in
            if session.transaction_id == txn
            then (
              energy,
              calculate_session_cost fl text w.order_by session.start_time stop_time energy w.rates,
            )
            else (num (pos 0), num (pos 0))
      ]

  -- The part of OnStopTransaction that finds and clears the connector, in memory and in the store;
  -- stoppedConnID, 0 if there is none.
  pub clear_connector : World fl text nano → ℕ → ℕ → State fl text nano → ℕ × State fl text nano
  unfolding connector_with set_transaction
  clear_connector w cp_id txn s = elim (charge_point fl cp_id s.points) [
    | none ↦ (0, s)
    | some cp ↦ elim (connector_with w txn cp) [
      | none ↦ (0, s)
      | some c ↦ (
        c.id,
        record s {
          points = on_point fl cp_id (on_connector fl c.id (stop_transaction fl)) s.points;
          connector_states =
              if ltb 0 c.id
              then set_transaction cp_id c.id 0 0 s.connector_states
              else s.connector_states;
        },
      )
    ]
  ]

  -- The marker, only if this stop closed the session.
  abbrev pub marker_of_stop : {A : Type 0} → ℕ → Result A → List (Effect fl)
  marker_of_stop stop_time (ok _) = marker stop stop_time ∷ []
  marker_of_stop stop_time (err _) = []

  -- The part of OnStopTransaction that completes the session.
  pub complete_session :
      World fl text nano → StopTransaction → State fl text nano → Outcome fl text nano
  unfolding energy_and_cost
  complete_session w r s =
      let stop_time = or_now w.now r.timestamp in
      let meter_stop_kwh = kwh_of fl text nano (num (pos r.meter_stop)) in
      let (energy, cost) = energy_and_cost w r.transaction_id stop_time meter_stop_kwh s in
      let stopped =
        stop_session fl text w.sums w.odometer r.transaction_id stop_time meter_stop_kwh energy cost
          s.sessions in
      (
        record s { sessions = stopped.0 },
        marker_of_stop stop_time stopped.1
            ++ (if lt (num (pos 0)) energy then soc_update energy ∷ [] else []),
      )

  -- OnStopTransaction.
  pub on_stop_transaction :
      World fl text nano → ℕ → StopTransaction → State fl text nano → Outcome fl text nano
  unfolding clear_connector complete_session
  on_stop_transaction w cp_id r s0 =
      let (conn_id, s1) = clear_connector w cp_id r.transaction_id s0 in
      let (s2, effects) = complete_session w r s1 in
      (s2, effects ++ status_hook ∷ transaction_ended_hook cp_id conn_id r.transaction_id ∷ [])

  -- A message of a charge point, or a change of its connection. The other messages are only answered.
  pub data Message : Type 0 where
    connected disconnected heartbeat authorize data_transfer : Message
    boot_notification : BootInfo → Message
    status_notification : StatusNotification → Message
    meter_values : ℕ → List MeterValue → Message
    start_transaction_request : StartTransaction → Message
    stop_transaction_request : StopTransaction → Message

  pub handle : World fl text nano → ℕ → Message → State fl text nano → Outcome fl text nano
  unfolding on_boot_notification on_status_notification on_meter_values on_start_transaction
      on_stop_transaction
  handle w cp_id connected s = (on_connected fl text nano w.now cp_id s, status_hook ∷ [])
  handle w cp_id disconnected s = (on_disconnected fl text nano w.now cp_id s, status_hook ∷ [])
  handle w cp_id heartbeat s = (s, [])
  handle w cp_id authorize s = (s, [])
  handle w cp_id data_transfer s = (s, [])
  handle w cp_id (boot_notification info) s = on_boot_notification w cp_id info s
  handle w cp_id (status_notification r) s = on_status_notification w cp_id r s
  handle w cp_id (meter_values conn_id values) s = on_meter_values w cp_id conn_id values s
  handle w cp_id (start_transaction_request r) s = (on_start_transaction w cp_id r s).1
  handle w cp_id (stop_transaction_request r) s = on_stop_transaction w cp_id r s

  -- Messages one after the other, each with what its handler reads.
  unfoldable pub run :
      List (World fl text nano × ℕ × Message) → State fl text nano → Outcome fl text nano
  unfolding handle
  run [] s = (s, [])
  run ((w, cp_id, m) ∷ ms) s =
      let (s1, effects) = handle w cp_id m s in let (s2, rest) = run ms s1 in (s2, effects ++ rest)
