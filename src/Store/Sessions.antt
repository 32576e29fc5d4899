-- ===== src/Store/Sessions.antt =====
-- internal/store/sessions.go, with the charging_sessions table of internal/store/store.go. Texts that
-- are only compared (charge boxes, tags) are numbers.
pub mod Invariant
pub mod Closed
pub mod Count
pub mod Transactions
use grosz.Prelude.{
  ℕ, ◌-◌, ◌*◌, suc, ◌≡◌, Bool, true, false, not, ◌&&◌, ◌||◌, Option, none, some, List, [], ◌∷◌,
  ◌++◌, map, ltb, ◌==◌, if◌then◌else◌, select, any, length,
}
use grosz.Prelude.Int.{pos}
use grosz.Std.{Sorting, TimeText, Float64, hour}
use grosz.Store.Idle
use grosz.Store.Overrides.{Result, ok, err, StoreError, no_rows, insert_failed}
use grosz.Store.Odometer.{OdometerRow, OdometerTable, odometer_delta, spread, not_below_0}

-- ConsumptionWindowDays.
abbrev pub consumption_window_days : ℕ
consumption_window_days = 30

-- The status column; no code writes another text.
pub data SessionStatus : Type 0 where
  active completed : SessionStatus

abbrev pub is_active : SessionStatus → Bool
is_active active = true
is_active completed = false

-- SQLite's COALESCE(SUM(column), 0) of floats, whose order of adding is not documented.
pub record Sums (fl : Float64) : Type 0 where
  pub sum : List fl.Float → fl.Float
  pub sum-nil : sum [] ≡ fl.num (pos 0)

module _ (fl : Float64) (text : TimeText) where
  open fl use {Float, num, mul, div, lt}
  open text use {Text, before, format, parse}

  -- A column that is not set is NULL, `none`.
  pub record Row : Type 0 where
    pub id : ℕ
    pub charge_box : ℕ
    pub connector_id : ℕ
    pub transaction_id : ℕ
    pub id_tag : ℕ
    pub start_time : Text
    pub stop_time : Option Text
    pub meter_start : Float
    pub meter_stop : Option Float
    pub energy : Option Float
    pub cost : Option Float
    pub status : SessionStatus
    pub distance_km : Option Float
    pub kwh_per_100km : Option Float

  -- The table, and the next value of its AUTOINCREMENT key.
  pub record Table : Type 0 where
    pub rows : List Row
    pub next_id : ℕ

  -- Session; a stop time that is absent is `none`.
  pub record Session : Type 0 where
    pub id : ℕ
    pub charge_box : ℕ
    pub connector_id : ℕ
    pub transaction_id : ℕ
    pub id_tag : ℕ
    pub start_time : ℕ
    pub stop_time : Option ℕ
    pub meter_start : Float
    pub meter_stop : Float
    pub energy : Float
    pub cost : Float
    pub status : SessionStatus
    pub distance : Float
    pub kwh_per_100km : Float

  -- The row that StartSession inserts.
  pub started : ℕ → Session → Row
  started id s = record {
    id = id;
    charge_box = s.charge_box;
    connector_id = s.connector_id;
    transaction_id = s.transaction_id;
    id_tag = s.id_tag;
    start_time = format s.start_time;
    stop_time = none;
    meter_start = s.meter_start;
    meter_stop = none;
    energy = none;
    cost = none;
    status = active;
    distance_km = none;
    kwh_per_100km = none;
  }

  -- StartSession, with the table's UNIQUE constraint on the transaction.
  pub start_session : Session → Table → Table × Result (Unit {0})
  unfolding started
  start_session s t =
      if any (λ r. r.transaction_id == s.transaction_id) t.rows
      then (t, err insert_failed)
      else (record { rows = t.rows ++ started t.next_id s ∷ []; next_id = suc t.next_id }, ok tt)

  -- The WHERE clause of the UPDATE of StopSession.
  abbrev pub is_open : ℕ → Row → Bool
  is_open txn r = r.transaction_id == txn && is_active r.status

  pub stopped : ℕ → ℕ → Float → Float → Float → Row → Row
  stopped txn stop_time meter_stop energy cost r =
      if is_open txn r
      then record r {
        stop_time = some (format stop_time);
        meter_stop = some meter_stop;
        energy = some energy;
        cost = some cost;
        status = completed;
      }
      else r

  abbrev float_or_0 : Option Float → Float
  float_or_0 none = num (pos 0)
  float_or_0 (some x) = x

  -- A NULL energy plays no part in SUM.
  pub energies : List Row → List Float
  energies [] = []
  energies (r ∷ rs) = let rest = energies rs in elim r.energy [ none ↦ rest | some e ↦ e ∷ rest ]

  -- ConsumptionWindow: energy and distance if both are positive.
  pub consumption_window : Sums fl → ℕ → Table → OdometerTable fl text → Option (Float × Float)
  unfolding energies
  consumption_window sums anchor t odometer =
      let from = format (anchor - consumption_window_days * 24 * hour) in
      let to = format anchor in
      let in_window = λ (at : Text). before from at && not (before to at) in
      let energy =
        sums.sum
          (energies (select (λ r. in_window r.start_time && not (is_active r.status)) t.rows)) in
      let distance = not_below_0 fl (
        spread fl (
          map (λ (r : OdometerRow fl text). r.mileage)
            (select (λ r. in_window r.timestamp) odometer.rows))) in
      if lt (num (pos 0)) energy && lt (num (pos 0)) distance then some (energy, distance) else none

  -- SQL's MAX of a column of texts.
  pub latest_text : List (Option Text) → Option Text
  latest_text [] = none
  latest_text (none ∷ ts) = latest_text ts
  latest_text (some a ∷ ts) = elim (latest_text ts) [
    | none ↦ some a
    | some b ↦ some (if before a b then b else a)
  ]

  -- The stop before a session that starts at a text: of another completed row, and earlier.
  pub previous_stop : ℕ → Text → Table → Option Text
  unfolding latest_text
  previous_stop id start t = latest_text (
      map (λ (r : Row). r.stop_time)
        (select
          (λ r.
            not (is_active r.status)
            && not (r.id == id)
            && elim r.stop_time [ none ↦ false | some s ↦ before s start ])
          t.rows))

  -- The second UPDATE of StopSession.
  pub with_metrics : ℕ → Float → Option Float → Row → Row
  with_metrics id distance kwh r =
      if r.id == id then record r { distance_km = some distance; kwh_per_100km = kwh } else r

  pub first_row : (Row → Bool) → List Row → Option Row
  first_row p [] = none
  first_row p (r ∷ rs) = let rest = first_row p rs in if p r then some r else rest

  -- What StopSession adds to the row that it has just stopped.
  pub measured : Sums fl → OdometerTable fl text → ℕ → ℕ → Table → Table
  unfolding with_metrics previous_stop consumption_window first_row
  measured sums odometer txn stop_time t =
      elim (first_row (λ r. r.transaction_id == txn && not (is_active r.status)) t.rows) [
        | none ↦ t
        | some r ↦ elim (parse r.start_time) [
          | none ↦ t
          | some start_time ↦
              let distance : Float = elim (previous_stop r.id (format start_time) t) [
                | none ↦ num (pos 0)
                | some s ↦ elim (parse s) [
                  | none ↦ num (pos 0)
                  | some prev ↦ odometer_delta fl text prev start_time odometer
                ]
              ] in
              let kwh : Option Float = elim (consumption_window sums stop_time t odometer) [
                | none ↦ none
                | some (e, d) ↦ some (mul (div e d) (num (pos 100)))
              ] in
              record t { rows = map (with_metrics r.id distance kwh) t.rows }
        ]
      ]

  -- StopSession.
  pub stop_session :
      Sums fl
      → OdometerTable fl text
      → ℕ
      → ℕ
      → Float
      → Float
      → Float
      → Table
      → Table × Result (Unit {0})
  unfolding measured stopped
  stop_session sums odometer txn stop_time meter_stop energy cost t =
      if any (is_open txn) t.rows
      then (
        measured sums odometer txn stop_time
            (record t { rows = map (stopped txn stop_time meter_stop energy cost) t.rows }),
        ok tt,
      )
      else (t, err no_rows)

  -- SessionsOverlapping.
  pub sessions_overlapping : ℕ → ℕ → Table → Bool
  sessions_overlapping start stop t = ltb 0 (
      length (
        select
          (λ r.
            before r.start_time (format stop)
            && elim r.stop_time [ none ↦ true | some s ↦ before (format start) s ])
          t.rows))

  -- A text that does not parse gives the zero time.
  abbrev pub time_or_0 : Text → ℕ
  time_or_0 s = elim (parse s) [ none ↦ 0 | some t ↦ t ]

  -- scanSession and scanSessionFromScanner.
  pub scan_session : Row → Session
  scan_session r = record {
    id = r.id;
    charge_box = r.charge_box;
    connector_id = r.connector_id;
    transaction_id = r.transaction_id;
    id_tag = r.id_tag;
    start_time = time_or_0 r.start_time;
    stop_time = elim r.stop_time [ none ↦ none | some s ↦ some (time_or_0 s) ];
    meter_start = r.meter_start;
    meter_stop = float_or_0 r.meter_stop;
    energy = float_or_0 r.energy;
    cost = float_or_0 r.cost;
    status = r.status;
    distance = float_or_0 r.distance_km;
    kwh_per_100km = float_or_0 r.kwh_per_100km;
  }

  -- ActiveSession: LIMIT 1 without ORDER BY is the first of the active rows in some order.
  pub active_session : Sorting → Table → Option Session
  unfolding scan_session
  active_session order_by t =
      elim (order_by.sort Row (λ a b. false) (select (λ r. is_active r.status) t.rows)) [
        | [] ↦ none
        | r ∷ _ ↦ some (scan_session r)
      ]
