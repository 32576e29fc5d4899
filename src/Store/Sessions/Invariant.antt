-- ===== src/Store/Sessions/Invariant.antt =====
-- Runs of calls on the charging_sessions table, and the query of the non-charging windows over it.
use grosz.Prelude.{
  ℕ, suc, ◌*◌, ◌/◌, ◌≤◌, ◌<◌, ◌≡◌, ◌≢◌, ◌⊎◌, refl, true, false, not, ◌&&◌, Option, none, some, List,
  [], ◌∷◌, map, arith, ltb, leb, ◌==◌, any, All, Ordered, All-append, All-map, All-any-false,
  All-of_map, Ordered-of_map, Ordered-snoc, inl, inr, Bool-cases,
}
use grosz.Std.{TimeText, Float64, Sorting, second}
use grosz.Window.{covered}
use grosz.Store.Idle.{SessionRow, non_charging_windows}
use grosz.Store.Idle.Exact.{IsStored, under_way, covered-non_charging_windows}
use grosz.Store.Odometer.{OdometerTable}
use grosz.Store.Sessions.{
  is_active, Sums, Row, Table, Session, started, start_session, is_open, stopped, with_metrics,
  measured, stop_session,
}
use grosz.Store.Sessions.Closed.{measured_case}

module _ (fl : Float64) (text : TimeText) where
  open fl use {Float}
  open text use {format}

  -- The columns hold what the program wrote, and a row is active as long as it has no stop time.
  pub record IsWritten (r : Row fl text) : Type 0 where
    pub start_written : (a : ℕ) × (r.start_time ≡ format a)
    pub stop_written :
        ((r.stop_time ≡ none) × (is_active r.status ≡ true))
        ⊎ ((b : ℕ) × (r.stop_time ≡ some (format b)) × (is_active r.status ≡ false))

  pub record IsValid (t : Table fl text) : Type 0 where
    pub written : All IsWritten t.rows
    pub ids_grow : Ordered (λ a b. a.id < b.id) t.rows
    pub ids_used : All (λ r. r.id < t.next_id) t.rows
    pub distinct : Ordered (λ a b. a.transaction_id ≢ b.transaction_id) t.rows

  -- A change of the rows that keeps their ids and transactions, and what is written in them.
  record Keeps (f : Row fl text → Row fl text) : Type 0 where
    keeps_id : (r : Row fl text) → (f r).id ≡ r.id
    keeps_txn : (r : Row fl text) → (f r).transaction_id ≡ r.transaction_id
    keeps_written : (r : Row fl text) → IsWritten r → IsWritten (f r)

  map-IsValid :
      (f : Row fl text → Row fl text) (t : Table fl text)
      → Keeps f
      → IsValid t
      → IsValid (record t { rows = map f t.rows })
  map-IsValid f t k v = record {
    written = All-of_map f IsWritten IsWritten k.keeps_written t.rows v.written;
    ids_grow = Ordered-of_map f _ _ (λ a b h. rw (k.keeps_id a, k.keeps_id b) h) t.rows v.ids_grow;
    ids_used = All-of_map f _ _ (λ a h. rw (k.keeps_id a) h) t.rows v.ids_used;
    distinct =
        Ordered-of_map f _ _ (λ a b h. rw (k.keeps_txn a, k.keeps_txn b) h) t.rows v.distinct;
  }

  stopped-Keeps : (txn stop_time : ℕ) (m e c : Float) → Keeps (stopped fl text txn stop_time m e c)
  unfolding stopped
  stopped-Keeps txn stop_time m e c = record {
    keeps_id = λ r. ground arith;
    keeps_txn = λ r. ground arith;
    keeps_written = λ r w. elim (Bool-cases (is_open fl text txn r)) [
      | inl h ↦
          rw h
            (record { start_written = w.start_written; stop_written = inr (stop_time, refl, refl) })
      | inr h ↦ rw h w
    ];
  }

  with_metrics-Keeps : (id : ℕ) (d : Float) (k : Option Float) → Keeps (with_metrics fl text id d k)
  unfolding with_metrics
  with_metrics-Keeps id d k = record {
    keeps_id = λ r. ground arith;
    keeps_txn = λ r. ground arith;
    keeps_written = λ r w. elim (Bool-cases (r.id == id)) [
      | inl h ↦ rw h (record { start_written = w.start_written; stop_written = w.stop_written })
      | inr h ↦ rw h w
    ];
  }

  module _ (sums : Sums fl) where
    measured-IsValid :
        (odometer : OdometerTable fl text) (txn stop_time : ℕ) (t : Table fl text)
        → IsValid t
        → IsValid (measured fl text sums odometer txn stop_time t)
    measured-IsValid odometer txn stop_time t v =
        measured_case fl text sums odometer IsValid txn stop_time t v
          (λ id d k. map-IsValid (with_metrics fl text id d k) t (with_metrics-Keeps id d k) v)

    pub stop-IsValid :
        (odometer : OdometerTable fl text) (txn stop_time : ℕ) (m e c : Float) (t : Table fl text)
        → IsValid t
        → IsValid (stop_session fl text sums odometer txn stop_time m e c t).0
    unfolding stop_session
    stop-IsValid odometer txn stop_time m e c t v =
        elim (Bool-cases (any (is_open fl text txn) t.rows)) [
          | inr h ↦ rw h v
          | inl h ↦ rw h (
              measured-IsValid odometer txn stop_time _ (
                map-IsValid (stopped fl text txn stop_time m e c) t
                  (stopped-Keeps txn stop_time m e c) v))
        ]

    pub start-IsValid :
        (s : Session fl text) (t : Table fl text)
        → IsValid t
        → IsValid (start_session fl text s t).0
    unfolding start_session started
    start-IsValid s t v =
        elim (Bool-cases (any (λ r. r.transaction_id == s.transaction_id) t.rows)) [
          | inl h ↦ rw h v
          | inr h ↦ rw h (record {
            written = All-append IsWritten t.rows _ v.written (
              record { start_written = (s.start_time, refl); stop_written = inl (refl, refl) },
              tt,
            );
            ids_grow = Ordered-snoc (λ a b. a.id < b.id) t.rows _ v.ids_grow v.ids_used;
            ids_used =
                All-append (λ r. r.id < suc t.next_id) t.rows _
                  (All-map (λ r (k : r.id < t.next_id). omega arith) t.rows v.ids_used)
                  (omega arith, tt);
            distinct =
                Ordered-snoc (λ a b. a.transaction_id ≢ b.transaction_id) t.rows _ v.distinct
                  (All-map (λ r k. ground arith) t.rows (All-any-false _ t.rows h));
          })
        ]

    -- A call on the table; a stop comes with the odometer's table.
    pub data Call : Type 0 where
      start : Session fl text → Call
      stop : OdometerTable fl text → ℕ → ℕ → Float → Float → Float → Call

    unfoldable pub apply_calls : List Call → Table fl text → Table fl text
    apply_calls [] t = t
    apply_calls (start s ∷ cs) t = apply_calls cs (start_session fl text s t).0
    apply_calls (stop odometer txn stop_time m e c ∷ cs) t =
        apply_calls cs (stop_session fl text sums odometer txn stop_time m e c t).0

    -- From a valid table, starts and stops in any order, of any transactions, keep the ids growing,
    -- the transactions distinct, the columns in the form that queries read, and a row active exactly
    -- as long as it has no stop time.
    pub apply_calls-IsValid :
        (cs : List Call) (t : Table fl text) → IsValid t → IsValid (apply_calls cs t)
    unfolding apply_calls
    apply_calls-IsValid [] t v = v
    apply_calls-IsValid (start s ∷ cs) t v = apply_calls-IsValid cs _ (start-IsValid s t v)
    apply_calls-IsValid (stop odometer txn stop_time m e c ∷ cs) t v =
        apply_calls-IsValid cs _ (stop-IsValid odometer txn stop_time m e c t v)

  -- The columns that nonChargingWindows reads.
  abbrev pub columns : Row fl text → SessionRow text
  columns r = record { start_time = r.start_time; stop_time = r.stop_time }

  columns-IsStored : (r : Row fl text) → IsWritten r → IsStored text (columns r)
  columns-IsStored r w = record {
    start_written = w.start_written;
    stop_written = elim w.stop_written [ inl (n, a) ↦ inl n | inr (b, e, a) ↦ inr (b, e) ];
  }

  -- Over a table that the program wrote, the non-charging windows of a day cover exactly the instants
  -- of the day at which no session is under way, except within the last second of a day that ends in
  -- the middle of a second.
  pub covered-non_charging_windows_written :
      (order_by : Sorting) (day_start day_end x : ℕ) (t : Table fl text)
      → IsValid t
      → (x < day_end / second * second) ⊎ (day_end ≤ x)
      → covered (non_charging_windows text order_by day_start day_end (map columns t.rows)) x ≡ (
          leb day_start x
          && ltb x day_end
          && not (any (under_way text day_end x) (map columns t.rows)))
  covered-non_charging_windows_written order_by a b x t v =
      covered-non_charging_windows text order_by a b x (map columns t.rows)
        (All-of_map columns IsWritten (IsStored text) columns-IsStored t.rows v.written)
