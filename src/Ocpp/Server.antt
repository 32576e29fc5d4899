-- ===== src/Ocpp/Server.antt =====
-- internal/ocpp/chargepoint.go and internal/ocpp/server.go: what the server keeps in memory, how it is
-- loaded from the store at the start, and what a connection changes. Ids of charge points and the
-- texts of a boot notification, which are only compared, are numbers. The 64-bit counter of
-- transactions does not wrap around within the life of a charger.
use grosz.Prelude.{
  ℕ, suc, Bool, true, false, Option, none, some, List, [], ◌∷◌, ltb, ◌==◌, if◌then◌else◌, find_by,
  put_by,
}
use grosz.Std.{TimeText, Float64}
use grosz.Store.Sessions.{Row, Table}
use grosz.Store.ConnectorState.{NanoText, ConnectorState, StateRow, all_connector_states}
use grosz.Ocpp.Connector.{Connector, new_connector, update_status, start_transaction}

pub record BootInfo : Type 0 where
  pub vendor : ℕ
  pub model : ℕ
  pub serial_number : ℕ
  pub firmware_version : ℕ
  pub meter_type : ℕ

module _ (fl : Float64) where
  pub record ChargePoint : Type 0 where
    pub id : ℕ
    pub connected : Bool
    pub connected_at : ℕ
    pub boot_info : Option BootInfo
    pub connectors : List (Connector fl)

  pub new_charge_point : ℕ → ℕ → ChargePoint
  new_charge_point id now = record {
    id = id;
    connected = true;
    connected_at = now;
    boot_info = none;
    connectors = [];
  }

  pub set_connected : Bool → ℕ → ChargePoint → ChargePoint
  set_connected connected now cp =
      if connected
      then record cp { connected = true; connected_at = now }
      else record cp { connected = false }

  pub set_boot_info : BootInfo → ChargePoint → ChargePoint
  set_boot_info info cp = record cp { boot_info = some info }

  abbrev pub is_connector : ℕ → Connector fl → Bool
  is_connector id c = c.id == id

  -- GetConnector: the connector, which is made if there is none.
  pub get_connector : ℕ → ChargePoint → Connector fl
  get_connector id cp = elim (find_by (is_connector id) cp.connectors) [
    | none ↦ new_connector fl id
    | some c ↦ c
  ]

  -- A change of the connector that GetConnector returns.
  pub on_connector : ℕ → (Connector fl → Connector fl) → ChargePoint → ChargePoint
  unfolding get_connector
  on_connector id f cp = record cp {
    connectors = put_by (is_connector id) (f (get_connector id cp)) cp.connectors;
  }

  abbrev pub is_point : ℕ → ChargePoint → Bool
  is_point id cp = cp.id == id

  -- Server.ChargePoint.
  abbrev pub charge_point : ℕ → List ChargePoint → Option ChargePoint
  charge_point id points = find_by (is_point id) points

  -- A change of a charge point that is known.
  pub on_point : ℕ → (ChargePoint → ChargePoint) → List ChargePoint → List ChargePoint
  on_point id f points = elim (charge_point id points) [
    | none ↦ points
    | some cp ↦ put_by (is_point id) (f cp) points
  ]

  -- applyConnectorState.
  pub apply_connector_state : ConnectorState → ChargePoint → ChargePoint
  unfolding on_connector
  apply_connector_state cs cp =
      on_connector cs.connector_id
        (λ c.
          let c' = update_status fl cs.status cs.error_code cs.status_at c in
          if cs.transaction_id == 0
          then c'
          else start_transaction fl cs.transaction_id cs.id_tag c')
        cp

  -- The loop of hydrateAllFromStore.
  pub hydrate_points : ℕ → List ConnectorState → List ChargePoint → List ChargePoint
  unfolding apply_connector_state
  hydrate_points now [] points = points
  hydrate_points now (cs ∷ states) points =
      let cp : ChargePoint = elim (charge_point cs.charge_box points) [
        | none ↦ set_connected false now (new_charge_point cs.charge_box now)
        | some cp ↦ cp
      ] in
      hydrate_points now states
        (put_by (is_point cs.charge_box) (apply_connector_state cs cp) points)

  -- The loop of hydrateChargePointFromStore.
  pub hydrate_point : List ConnectorState → ChargePoint → ChargePoint
  unfolding apply_connector_state
  hydrate_point [] cp = cp
  hydrate_point (cs ∷ states) cp =
      hydrate_point states (if cs.charge_box == cp.id then apply_connector_state cs cp else cp)

  module _ (text : TimeText) (nano : NanoText) where
    -- What the server keeps in memory, and the tables of the store that it writes.
    pub record State : Type 0 where
      pub points : List ChargePoint
      pub next_txn_id : ℕ
      pub sessions : Table fl text
      pub connector_states : List (StateRow nano)

    -- COALESCE(MAX(transaction_id), 0).
    unfoldable pub max_txn : List (Row fl text) → ℕ
    max_txn [] = 0
    max_txn (r ∷ rs) =
        let rest = max_txn rs in if ltb rest r.transaction_id then r.transaction_id else rest

    -- NewServer.
    unfoldable pub new_server : ℕ → Table fl text → List (StateRow nano) → State
    unfolding hydrate_points max_txn
    new_server now sessions connector_states = record {
      points = hydrate_points now (all_connector_states nano connector_states) [];
      next_txn_id = suc (max_txn sessions.rows);
      sessions = sessions;
      connector_states = connector_states;
    }

    -- allocateTxnID.
    unfoldable pub allocate_txn_id : State → ℕ × State
    allocate_txn_id s = (s.next_txn_id, record s { next_txn_id = suc s.next_txn_id })

    -- The handler of SetNewChargePointHandler.
    unfoldable pub on_connected : ℕ → ℕ → State → State
    unfolding hydrate_point
    on_connected now id s = elim (charge_point id s.points) [
      | some cp ↦ record s { points = put_by (is_point id) (set_connected true now cp) s.points }
      | none ↦ record s {
        points =
            put_by (is_point id)
              (hydrate_point (all_connector_states nano s.connector_states)
                (new_charge_point id now))
              s.points;
      }
    ]

    -- The handler of SetChargePointDisconnectedHandler.
    unfoldable pub on_disconnected : ℕ → ℕ → State → State
    unfolding on_point
    on_disconnected now id s = record s { points = on_point id (set_connected false now) s.points }
