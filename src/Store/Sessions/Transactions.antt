-- ===== src/Store/Sessions/Transactions.antt =====
-- The numbers of the transactions in the table of internal/store/sessions.go.
use grosz.Prelude.{
  ℕ, suc, ◌<◌, ◌≡◌, refl, true, false, List, [], ◌∷◌, ◌++◌, map, arith, ◌==◌, any, All, All-map,
  All-append, All-of_map, if_case,
}
use grosz.Std.{TimeText, Float64}
use grosz.Store.Overrides.{Result}
use grosz.Store.Odometer.{OdometerTable}
use grosz.Store.Sessions.{
  Sums, Row, Table, Session, started, start_session, is_open, stopped, with_metrics, stop_session,
}
use grosz.Store.Sessions.Closed.{measured_case}

module _ (fl : Float64) (text : TimeText) where
  open fl use {Float}

  -- Every transaction of the table is below a bound.
  abbrev pub Below : ℕ → Table fl text → Type 0
  Below n t = All (λ r. r.transaction_id < n) t.rows

  pub stop-Below :
      (sums : Sums fl) (odometer : OdometerTable fl text) (txn stop_time : ℕ) (m e c : Float)
      (n : ℕ) (t : Table fl text)
      → Below n t
      → Below n (stop_session fl text sums odometer txn stop_time m e c t).0
  unfolding stop_session stopped with_metrics
  stop-Below sums odometer txn stop_time m e c n t b =
      let b' =
        All-of_map (stopped fl text txn stop_time m e c) (λ r. r.transaction_id < n)
          (λ r. r.transaction_id < n) (λ r h. ground arith) t.rows b in
      if_case (λ (o : Table fl text × Result (Unit {0})). Below n o.0)
        (any (is_open fl text txn) t.rows) _ _
        (measured_case fl text sums odometer (Below n) txn stop_time
          (record t { rows = map (stopped fl text txn stop_time m e c) t.rows }) b'
          (λ id d k.
            All-of_map (with_metrics fl text id d k) (λ r. r.transaction_id < n)
              (λ r. r.transaction_id < n) (λ r h. ground arith) _ b'))
        b

  pub none_has :
      (n : ℕ) (rs : List (Row fl text))
      → All (λ r. r.transaction_id < n) rs
      → any (λ (r : Row fl text). r.transaction_id == n) rs ≡ false
  none_has n [] b = refl
  none_has n (r ∷ rs) b = ground (arith, b.0, none_has n rs b.1)

  has_added :
      (txn : ℕ) (rs : List (Row fl text)) (r : Row fl text)
      → r.transaction_id ≡ txn
      → any (λ (q : Row fl text). q.transaction_id == txn) (rs ++ r ∷ []) ≡ true
  has_added txn [] r h = ground (arith, h)
  has_added txn (q ∷ rs) r h = ground (arith, has_added txn rs r h)

  -- A session with the bound itself as its transaction is in the table once it has been started.
  pub start_session-has :
      (s : Session fl text) (t : Table fl text)
      → Below s.transaction_id t
      → any
          (λ (r : Row fl text). r.transaction_id == s.transaction_id)
          (start_session fl text s t).0.rows
        ≡ true
  unfolding start_session started
  start_session-has s t b =
      rw (none_has s.transaction_id t.rows b) (has_added s.transaction_id t.rows _ refl)

  pub start-Below :
      (s : Session fl text) (t : Table fl text)
      → Below s.transaction_id t
      → Below (suc s.transaction_id) (start_session fl text s t).0
  unfolding start_session started
  start-Below s t b =
      let b' : Below (suc s.transaction_id) t =
        All-map (λ r (h : r.transaction_id < s.transaction_id). omega arith) t.rows b in
      if_case (λ (o : Table fl text × Result (Unit {0})). Below (suc s.transaction_id) o.0)
        (any (λ r. r.transaction_id == s.transaction_id) t.rows) _ _ b'
        (All-append (λ r. r.transaction_id < suc s.transaction_id) t.rows _ b' (omega arith, tt))
