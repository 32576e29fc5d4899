-- ===== src/Ocpp/Handler/Finalize.antt =====
-- finalizeSessionOnStop of internal/ocpp/handler.go, by the ways in which it ends.
use grosz.Prelude.{ℕ, not, [], ◌∷◌, ◌==◌, inl, inr, Option-cases, if_case}
use grosz.Prelude.Int.{pos}
use grosz.Std.{TimeText, Float64}
use grosz.Store.Sessions.{Session, stop_session, active_session}
use grosz.Store.ConnectorState.{NanoText, ConnectorState, get_connector_state}
use grosz.Ocpp.Server.{State}
use grosz.Ocpp.Handler.{
  SkipReason, finalize_skipped, no_energy_reading, nonpositive_energy, World, Outcome,
  after_finalize, finalize_at, finalize_reading, finalize_session_on_stop, current_energy_kwh,
}

module _ {ℓ} (fl : Float64) (text : TimeText) (nano : NanoText) where
  open fl use {Float, num, le, sub}

  module _ (w : World fl text nano) (s : State fl text nano)
      (P : Outcome fl text nano → Type ℓ) where
    -- What holds of a call that does nothing, that only warns, and that stops a session, with a stop
    -- that succeeds or not, holds of every call.
    module _ (idle : P (s, []))
        (skips : (txn : ℕ) (reason : SkipReason) → P (s, finalize_skipped txn reason ∷ []))
        (stops : (txn stop_time : ℕ) (m e c : Float)
          → let stopped = stop_session fl text w.sums w.odometer txn stop_time m e c s.sessions in
            P (
              record s { sessions = stopped.0 },
              after_finalize fl text nano txn stop_time e stopped.1,
            )) where
      reading_case :
          (cp_id conn_id stop_time : ℕ) (cs : ConnectorState) (session : Session fl text)
          → P (finalize_reading fl text nano w cp_id conn_id stop_time cs session s)
      unfolding finalize_reading finalize_at
      reading_case cp_id conn_id stop_time cs session =
          elim (Option-cases
            (current_energy_kwh fl text nano w cp_id conn_id cs.transaction_id s)) [
              | inl e ↦ rw (e, finalize_reading) (skips cs.transaction_id no_energy_reading)
              | inr (kwh, e) ↦
                  rw (e, finalize_reading)
                    (if_case P (le (sub kwh session.meter_start) (num (pos 0))) _ _
                      (skips cs.transaction_id nonpositive_energy)
                      (stops cs.transaction_id stop_time kwh (sub kwh session.meter_start) _))
            ]

      pub finalize_case :
          (cp_id conn_id stop_time : ℕ)
          → P (finalize_session_on_stop fl text nano w cp_id conn_id stop_time s)
      unfolding finalize_session_on_stop
      finalize_case cp_id conn_id stop_time =
          elim (Option-cases (get_connector_state nano cp_id conn_id s.connector_states)) [
            | inl e ↦ rw (e, finalize_session_on_stop) idle
            | inr (cs, e) ↦ elim (Option-cases (active_session fl text w.order_by s.sessions)) [
              | inl f ↦ rw (e, finalize_session_on_stop, f) idle
              | inr (session, f) ↦
                  rw (e, finalize_session_on_stop, f)
                    (if_case P (cs.transaction_id == 0) _ _ idle (
                      if_case P (not (session.transaction_id == cs.transaction_id)) _ _ idle
                        (reading_case cp_id conn_id stop_time cs session)))
            ]
          ]
