-- ===== src/Store/Sessions/Count.antt =====
-- How many sessions of internal/store/sessions.go are completed.
use grosz.Prelude.{
  ℕ, suc, ◌+◌, ◌≡◌, ◌≢◌, refl, ap, sym, ◌∙◌, true, false, Option, List, [], ◌∷◌, ◌++◌, map, arith,
  ◌==◌, if◌then◌else◌, any, All, Ordered, inl, inr, Bool-cases,
}
use grosz.Std.{TimeText, Float64}
use grosz.Store.Overrides.{Result, ok, err}
use grosz.Store.Odometer.{OdometerTable}
use grosz.Store.Sessions.{
  is_active, Sums, Row, Table, Session, started, start_session, is_open, stopped, with_metrics,
  stop_session,
}
use grosz.Store.Sessions.Closed.{measured_case}
use grosz.Store.Sessions.Invariant.{IsValid}

-- 1 for a success.
abbrev pub oks {ℓ} : {A : Type ℓ} → Result A → ℕ
oks (ok _) = 1
oks (err _) = 0

module _ (fl : Float64) (text : TimeText) where
  open fl use {Float}

  unfoldable pub completed : List (Row fl text) → ℕ
  completed [] = 0
  completed (r ∷ rs) = if is_active r.status then completed rs else suc (completed rs)

  completed-append :
      (rs ss : List (Row fl text)) → completed (rs ++ ss) ≡ completed rs + completed ss
  unfolding completed
  completed-append [] ss = omega arith
  completed-append (r ∷ rs) ss = ground (arith, completed-append rs ss)

  completed-with_metrics :
      (id : ℕ) (d : Float) (k : Option Float) (rs : List (Row fl text))
      → completed (map (with_metrics fl text id d k) rs) ≡ completed rs
  unfolding completed with_metrics
  completed-with_metrics id d k [] = refl
  completed-with_metrics id d k (r ∷ rs) = ground (arith, completed-with_metrics id d k rs)

  module _ (txn stop_time : ℕ) (m e c : Float) where
    stopped_other :
        (r : Row fl text)
        → is_open fl text txn r ≡ false
        → stopped fl text txn stop_time m e c r ≡ r
    unfolding stopped
    stopped_other r h = rw h

    map-stopped_other :
        (rs : List (Row fl text))
        → All (λ r. txn ≢ r.transaction_id) rs
        → map (stopped fl text txn stop_time m e c) rs ≡ rs
    map-stopped_other [] h = refl
    map-stopped_other (r ∷ rs) h =
        rw (stopped_other r (ground (arith, h.0)), map-stopped_other rs h.1)

    open_parts :
        (r : Row fl text)
        → is_open fl text txn r ≡ true
        → (txn ≡ r.transaction_id) × (is_active r.status ≡ true)
    open_parts r h = (ground arith, ground arith)

    is_active-stopped :
        (r : Row fl text)
        → is_open fl text txn r ≡ true
        → is_active (stopped fl text txn stop_time m e c r).status ≡ false
    unfolding stopped
    is_active-stopped r h = rw h refl

    completed-stopped :
        (rs : List (Row fl text))
        → Ordered (λ a b. a.transaction_id ≢ b.transaction_id) rs
        → any (is_open fl text txn) rs ≡ true
        → completed (map (stopped fl text txn stop_time m e c) rs) ≡ suc (completed rs)
    unfolding completed
    completed-stopped [] d h = ground arith
    completed-stopped (r ∷ rs) d h = elim (Bool-cases (is_open fl text txn r)) [
      | inl o ↦
          let (same, was_active) = open_parts r o in
          rw (is_active-stopped r o, was_active)
            (ap (λ xs. suc (completed xs)) (map-stopped_other rs (rw (sym same) at d.0)))
      | inr o ↦ rw (stopped_other r o) (ground (arith, completed-stopped rs d.1 (rw o at h)))
    ]

    pub completed-stop_session :
        (sums : Sums fl) (odometer : OdometerTable fl text) (t : Table fl text)
        → IsValid fl text t
        → completed (stop_session fl text sums odometer txn stop_time m e c t).0.rows
          ≡ oks (stop_session fl text sums odometer txn stop_time m e c t).1 + completed t.rows
    unfolding stop_session
    completed-stop_session sums odometer t v =
        elim (Bool-cases (any (is_open fl text txn) t.rows)) [
          | inr h ↦ rw h (omega arith)
          | inl h ↦ rw h (
              measured_case fl text sums odometer (λ q. completed q.rows ≡ 1 + completed t.rows) txn
                stop_time (record t { rows = map (stopped fl text txn stop_time m e c) t.rows })
                (omega (arith, completed-stopped t.rows v.distinct h))
                (λ id d k.
                  completed-with_metrics id d k (map (stopped fl text txn stop_time m e c) t.rows)
                  ∙ omega (arith, completed-stopped t.rows v.distinct h)))
        ]

  pub completed-start_session :
      (s : Session fl text) (t : Table fl text)
      → completed (start_session fl text s t).0.rows ≡ completed t.rows
  unfolding start_session started completed
  completed-start_session s t =
      elim (Bool-cases (any (λ r. r.transaction_id == s.transaction_id) t.rows)) [
        | inl h ↦ rw h
        | inr h ↦ rw h (completed-append t.rows _ ∙ omega arith)
      ]
