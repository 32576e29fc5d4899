-- ===== src/Store/Sessions/Closed.antt =====
-- StopSession of internal/store/sessions.go on a session that is stopped already.
use grosz.Prelude.{
  ℕ, ◌≡◌, refl, ◌∙◌, false, not, ◌&&◌, Option, List, [], ◌∷◌, map, arith, ◌==◌, any, any-map, inl,
  inr, Bool-cases, Option-cases,
}
use grosz.Std.{TimeText, Float64}
use grosz.Store.Overrides.{err, no_rows}
use grosz.Store.Odometer.{OdometerTable}
use grosz.Store.Sessions.{
  is_active, Sums, Row, Table, is_open, stopped, with_metrics, first_row, measured, stop_session,
}

module _ (fl : Float64) (text : TimeText) (sums : Sums fl) (odometer : OdometerTable fl text) where
  open fl use {Float}
  open text use {parse}

  -- What holds of a table with and without metrics holds when they are measured.
  pub measured_case {ℓ} :
      (P : Table fl text → Type ℓ) (txn stop_time : ℕ) (t : Table fl text)
      → P t
      → ((id : ℕ) (d : Float) (k : Option Float)
          → P (record t { rows = map (with_metrics fl text id d k) t.rows }))
      → P (measured fl text sums odometer txn stop_time t)
  unfolding measured
  measured_case P txn stop_time t same changed =
      elim (Option-cases
        (first_row fl text (λ r. r.transaction_id == txn && not (is_active r.status)) t.rows)) [
          | inl e ↦ rw (e, measured) same
          | inr (r, e) ↦ elim (Option-cases (parse r.start_time)) [
            | inl n ↦ rw (e, measured, n) same
            | inr (x, n) ↦ rw (e, measured, n) (changed r.id _ _)
          ]
        ]

  is_open-with_metrics :
      (txn id : ℕ) (d : Float) (k : Option Float) (r : Row fl text)
      → is_open fl text txn (with_metrics fl text id d k r) ≡ is_open fl text txn r
  unfolding with_metrics
  is_open-with_metrics txn id d k r = ground arith

  is_open-stopped :
      (txn stop_time : ℕ) (m e c : Float) (r : Row fl text)
      → is_open fl text txn (stopped fl text txn stop_time m e c r) ≡ false
  unfolding stopped
  is_open-stopped txn stop_time m e c r = elim (Bool-cases (is_open fl text txn r)) [
    | inl h ↦ rw h (ground arith)
    | inr h ↦ rw h h
  ]

  any-false : (rs : List (Row fl text)) → any (λ (r : Row fl text). false) rs ≡ false
  any-false [] = refl
  any-false (r ∷ rs) = any-false rs

  -- After a stop, whatever it answered, no row of that transaction is active.
  pub any-is_open-stop_session :
      (txn stop_time : ℕ) (m e c : Float) (t : Table fl text)
      → any (is_open fl text txn) (stop_session fl text sums odometer txn stop_time m e c t).0.rows
        ≡ false
  unfolding stop_session
  any-is_open-stop_session txn stop_time m e c t =
      elim (Bool-cases (any (is_open fl text txn) t.rows)) [
        | inr h ↦ rw h h
        | inl h ↦
            let closed =
              any-map (stopped fl text txn stop_time m e c) (is_open fl text txn) (λ r. false)
                (is_open-stopped txn stop_time m e c) t.rows
              ∙ any-false t.rows in
            rw h (
              measured_case (λ q. any (is_open fl text txn) q.rows ≡ false) txn stop_time _ closed
                (λ id d k.
                  any-map (with_metrics fl text id d k) (is_open fl text txn) (is_open fl text txn)
                    (is_open-with_metrics txn id d k) _
                  ∙ closed))
      ]

  -- After a transaction was stopped, a second stop of it, with whatever meter reading and time, is an
  -- error and changes nothing, metrics included.
  pub stop_session-stop_session :
      (odometer' : OdometerTable fl text) (txn stop_time stop_time' : ℕ) (m e c m' e' c' : Float)
      (t : Table fl text)
      → let stopped = (stop_session fl text sums odometer txn stop_time m e c t).0 in
        stop_session fl text sums odometer' txn stop_time' m' e' c' stopped ≡ (stopped, err no_rows)
  unfolding stop_session
  stop_session-stop_session odometer' txn stop_time stop_time' m e c m' e' c' t =
      rw (any-is_open-stop_session txn stop_time m e c t)
