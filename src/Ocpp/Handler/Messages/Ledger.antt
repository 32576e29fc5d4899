-- ===== src/Ocpp/Handler/Messages/Ledger.antt =====
-- Runs of the handlers of internal/ocpp/handler.go: the "stop" markers of the chart, and the sessions
-- of the store.
use grosz.Prelude.{
  ℕ, suc, ◌+◌, ◌≡◌, refl, ◌∙◌, Bool, true, false, Option, List, [], ◌∷◌, ◌++◌, arith, ltb,
  if◌then◌else◌, inl, inr, Bool-cases, Option-cases, if_case,
}
use grosz.Prelude.Int.{pos}
use grosz.Std.{TimeText, Float64}
use grosz.Store.Overrides.{Result, ok, err}
use grosz.Store.Sessions.{stop_session}
use grosz.Store.Sessions.Invariant.{IsValid, stop-IsValid, start-IsValid}
use grosz.Store.Sessions.Count.{oks, completed, completed-stop_session, completed-start_session}
use grosz.Store.ConnectorState.{NanoText, ConnectorState, get_connector_state}
use grosz.Ocpp.Connector.{update_status}
use grosz.Ocpp.Server.{State, charge_point, on_point, on_connector, on_connected, on_disconnected}
use grosz.Ocpp.Handler.{
  stop, Effect, marker, soc_update, status_hook, connector_status_hook, transaction_ended_hook,
  after_finalize, World, Outcome, StatusNotification, StartTransaction, StopTransaction,
  is_stop_status, finalize_session_on_stop, or_now, kwh_of,
}
use grosz.Ocpp.Handler.Finalize.{finalize_case}
use grosz.Ocpp.Handler.Messages.{
  Message, new_session, connected, connector_with, status_notification, start_transaction_request,
  stop_transaction_request, on_status_notification, on_stop_transaction, on_start_transaction,
  on_boot_notification, on_meter_values, handle, run, on_real_change, persist_status,
  marker_of_stop, energy_and_cost, complete_session, clear_connector,
}

module _ (fl : Float64) where
  -- The "stop" markers among effects.
  unfoldable pub stop_markers : List (Effect fl) → ℕ
  stop_markers [] = 0
  stop_markers (marker stop t ∷ es) = suc (stop_markers es)
  stop_markers (_ ∷ es) = stop_markers es

  pub stop_markers-append :
      (es fs : List (Effect fl)) → stop_markers (es ++ fs) ≡ stop_markers es + stop_markers fs
  unfolding stop_markers
  stop_markers-append [] fs = omega arith
  stop_markers-append (marker stop t ∷ es) fs = ground (arith, stop_markers-append es fs)
  stop_markers-append (_ ∷ es) fs = stop_markers-append es fs

module _ (fl : Float64) (text : TimeText) (nano : NanoText) where
  open fl use {Float, num, le, lt, sub}

  -- A valid sessions table stays valid, and as many sessions are completed as "stop" markers are set.
  abbrev pub Balances : State fl text nano → Outcome fl text nano → Type 0
  Balances s (s', effects) =
      IsValid fl text s'.sessions
      × (completed fl text s'.sessions.rows
          ≡ stop_markers fl effects + completed fl text s.sessions.rows)

  on_real_change_lem :
      (cp_id ts : ℕ) (r : StatusNotification) (prev : Option ConnectorState)
      → stop_markers fl (on_real_change fl text nano cp_id r ts prev) ≡ 0
  unfolding on_real_change stop_markers
  on_real_change_lem cp_id ts r prev = ground arith

  quiet-Balances :
      (s s' : State fl text nano) (es : List (Effect fl))
      → IsValid fl text s.sessions
      → s'.sessions ≡ s.sessions
      → stop_markers fl es ≡ 0
      → Balances s (s', es)
  quiet-Balances s s' es v same quiet = rw (same, quiet) (v, omega arith)

  persist_status-Balances :
      (now cp_id ts : ℕ) (r : StatusNotification) (s : State fl text nano)
      → IsValid fl text s.sessions
      → Balances s (persist_status fl text nano now cp_id r ts s)
  unfolding persist_status stop_markers
  persist_status-Balances now cp_id ts r s v = elim (Bool-cases (ltb 0 r.connector_id)) [
    | inr h ↦ rw h (v, omega arith)
    | inl h ↦ rw h (
      v,
      ground (
        arith,
        on_real_change_lem cp_id ts r
            (get_connector_state nano cp_id r.connector_id s.connector_states),
      ),
    )
  ]

  -- A stop of the store, with the marker that is set if it was told no error.
  stop-Balances :
      (w : World fl text nano) (txn stop_time : ℕ) (m e c : Float) (s : State fl text nano)
      (effects : Result (Unit {0}) → List (Effect fl))
      → IsValid fl text s.sessions
      → ((r : Result (Unit {0})) → stop_markers fl (effects r) ≡ oks r)
      → let stopped = stop_session fl text w.sums w.odometer txn stop_time m e c s.sessions in
        Balances s (record s { sessions = stopped.0 }, effects stopped.1)
  stop-Balances w txn stop_time m e c s effects v h = (
    stop-IsValid fl text w.sums w.odometer txn stop_time m e c s.sessions v,
    completed-stop_session fl text txn stop_time m e c w.sums w.odometer s.sessions v ∙ rw (h _),
  )

  after_finalize_markers :
      {A : Type 0} (txn stop_time : ℕ) (e : Float) (r : Result A)
      → stop_markers fl (after_finalize fl text nano txn stop_time e r) ≡ oks r
  unfolding stop_markers
  after_finalize_markers txn stop_time e (ok _) = refl
  after_finalize_markers txn stop_time e (err _) = refl

  marker_of_stop_markers :
      {A : Type 0} (stop_time : ℕ) (b : Bool) (e : Float) (r : Result A)
      → stop_markers fl
          (marker_of_stop fl text nano stop_time r ++ (if b then soc_update e ∷ [] else []))
        ≡ oks r
  unfolding stop_markers
  marker_of_stop_markers stop_time true e (ok _) = refl
  marker_of_stop_markers stop_time true e (err _) = refl
  marker_of_stop_markers stop_time false e (ok _) = refl
  marker_of_stop_markers stop_time false e (err _) = refl

  finalize-Balances :
      (w : World fl text nano) (cp_id conn_id stop_time : ℕ) (s : State fl text nano)
      → IsValid fl text s.sessions
      → Balances s (finalize_session_on_stop fl text nano w cp_id conn_id stop_time s)
  unfolding stop_markers
  finalize-Balances w cp_id conn_id stop_time s v =
      finalize_case fl text nano w s (Balances s) (v, omega arith) (λ txn reason. (v, omega arith))
        (λ txn at m e c.
          stop-Balances w txn at m e c s (after_finalize fl text nano txn at e) v
            (after_finalize_markers txn at e))
        cp_id conn_id stop_time

  complete_session-Balances :
      (w : World fl text nano) (r : StopTransaction) (s : State fl text nano)
      → IsValid fl text s.sessions
      → Balances s (complete_session fl text nano w r s)
  unfolding complete_session
  complete_session-Balances w r s v =
      let stop_time = or_now w.now r.timestamp in
      let energy =
        (energy_and_cost fl text nano w r.transaction_id stop_time
          (kwh_of fl text nano (num (pos r.meter_stop))) s).0 in
      stop-Balances w r.transaction_id stop_time _ _ _ s
        (λ a.
          marker_of_stop fl text nano stop_time a
          ++ (if lt (num (pos 0)) energy then soc_update energy ∷ [] else []))
        v (marker_of_stop_markers stop_time (lt (num (pos 0)) energy) energy)

  compose-Balances :
      (s s1 s2 : State fl text nano) (es fs : List (Effect fl))
      → Balances s (s1, es)
      → (IsValid fl text s1.sessions → Balances s1 (s2, fs))
      → Balances s (s2, es ++ fs)
  compose-Balances s s1 s2 es fs b c =
      ((c b.0).0, omega (arith, b.1, (c b.0).1, stop_markers-append fl es fs))

  then_quiet :
      (s s1 : State fl text nano) (es fs : List (Effect fl))
      → stop_markers fl fs ≡ 0
      → Balances s (s1, es)
      → Balances s (s1, es ++ fs)
  then_quiet s s1 es fs quiet b = (b.0, omega (arith, b.1, stop_markers-append fl es fs))

  status-Balances :
      (w : World fl text nano) (cp_id : ℕ) (r : StatusNotification) (s : State fl text nano)
      → IsValid fl text s.sessions
      → Balances s (on_status_notification fl text nano w cp_id r s)
  unfolding on_status_notification stop_markers
  status-Balances w cp_id r s v =
      let ts = or_now w.now r.timestamp in
      let s1 : State fl text nano = record s {
        points =
            on_point fl cp_id
              (on_connector fl r.connector_id (update_status fl r.status r.error_code ts)) s.points;
      } in
      let (s2, changes) = persist_status fl text nano w.now cp_id r ts s1 in
      let closing : Outcome fl text nano =
        if is_stop_status r.status
        then finalize_session_on_stop fl text nano w cp_id r.connector_id ts s2
        else (s2, []) in
      let hooks : List (Effect fl) =
        status_hook ∷ connector_status_hook cp_id r.connector_id r.status ∷ [] in
      compose-Balances s s2 closing.0 changes (closing.1 ++ hooks)
        (persist_status-Balances w.now cp_id ts r s1 v)
        (λ v2. then_quiet s2 closing.0 closing.1 hooks refl (
          if_case (Balances s2) (is_stop_status r.status) _ _
            (finalize-Balances w cp_id r.connector_id ts s2 v2) (v2, omega arith)))

  clear_connector-sessions :
      (w : World fl text nano) (cp_id txn : ℕ) (s : State fl text nano)
      → (clear_connector fl text nano w cp_id txn s).1.sessions ≡ s.sessions
  unfolding clear_connector
  clear_connector-sessions w cp_id txn s = elim (Option-cases (charge_point fl cp_id s.points)) [
    | inl e ↦ rw (e, clear_connector)
    | inr (cp, e) ↦ elim (Option-cases (connector_with fl text nano w txn cp)) [
      | inl f ↦ rw (e, clear_connector, f)
      | inr (c, f) ↦ rw (e, clear_connector, f)
    ]
  ]

  stop_transaction-Balances :
      (w : World fl text nano) (cp_id : ℕ) (r : StopTransaction) (s : State fl text nano)
      → IsValid fl text s.sessions
      → Balances s (on_stop_transaction fl text nano w cp_id r s)
  unfolding on_stop_transaction stop_markers
  stop_transaction-Balances w cp_id r s v =
      let s1 = (clear_connector fl text nano w cp_id r.transaction_id s).1 in
      let (s2, effects) = complete_session fl text nano w r s1 in
      let hooks : List (Effect fl) =
        status_hook
        ∷ transaction_ended_hook cp_id (clear_connector fl text nano w cp_id r.transaction_id s).0
            r.transaction_id
        ∷ [] in
      compose-Balances s s1 s2 [] (effects ++ hooks)
        (quiet-Balances s s1 [] v (clear_connector-sessions w cp_id r.transaction_id s) refl)
        (λ v1. then_quiet s1 s2 effects hooks refl (complete_session-Balances w r s1 v1))

  start-Balances :
      (w : World fl text nano) (cp_id : ℕ) (r : StartTransaction) (s : State fl text nano)
      → IsValid fl text s.sessions
      → Balances s (on_start_transaction fl text nano w cp_id r s).1
  unfolding on_start_transaction stop_markers
  start-Balances w cp_id r s v = (
    start-IsValid fl text w.sums (new_session fl text nano w.now cp_id s.next_txn_id r) s.sessions
        v,
    completed-start_session fl text (new_session fl text nano w.now cp_id s.next_txn_id r)
          s.sessions
        ∙ omega arith,
  )

  handle-Balances :
      (w : World fl text nano) (cp_id : ℕ) (m : Message fl text nano) (s : State fl text nano)
      → IsValid fl text s.sessions
      → Balances s (handle fl text nano w cp_id m s)
  unfolding handle stop_markers on_boot_notification on_meter_values on_connected on_disconnected
  handle-Balances w cp_id (status_notification r) s v = status-Balances w cp_id r s v
  handle-Balances w cp_id (start_transaction_request r) s v = start-Balances w cp_id r s v
  handle-Balances w cp_id (stop_transaction_request r) s v = stop_transaction-Balances w cp_id r s v
  handle-Balances w cp_id connected s v = elim (Option-cases (charge_point fl cp_id s.points)) [
    | inl e ↦ rw (e, on_connected) (v, omega arith)
    | inr (cp, e) ↦ rw (e, on_connected) (v, omega arith)
  ]
  handle-Balances w cp_id _ s v = (v, omega arith)

  -- Over a valid sessions table, any run of messages, connections and disconnections of any charge
  -- points keeps the table valid and completes exactly as many sessions as it sets "stop" markers: no
  -- session is closed without a marker, and none is marked twice, whether a status or a
  -- StopTransaction closes it.
  pub run-Balances :
      (ms : List (World fl text nano × ℕ × Message fl text nano)) (s : State fl text nano)
      → IsValid fl text s.sessions
      → Balances s (run fl text nano ms s)
  unfolding run stop_markers
  run-Balances [] s v = (v, omega arith)
  run-Balances ((w, cp_id, m) ∷ ms) s v =
      let (s1, effects) = handle fl text nano w cp_id m s in
      let (s2, rest) = run fl text nano ms s1 in
      compose-Balances s s1 s2 effects rest (handle-Balances w cp_id m s v)
        (λ v1. run-Balances ms s1 v1)
