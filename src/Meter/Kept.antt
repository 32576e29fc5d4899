-- ===== src/Meter/Kept.antt =====
-- What one poll of internal/meter/meter.go, or a restart, keeps true of the poller and of its readings.
use grosz.Prelude.{
  All-both, ℕ, ◌+◌, ◌*◌, ◌≤◌, ◌≡◌, sym, ap₂, subst, refl, inl, inr, Bool, true, none, some, List,
  arith, leb, Bool-cases, if-elim, All, All-map, All-append, All-select, Ordered-select,
  Ordered-snoc,
}
use grosz.Prelude.Int.{pos}
use grosz.Std.{Float64, TimeText, Calendar, minute, hour}
use grosz.Store.Meter.{
  MeterRow, latest, insert_phase_reading, insert_meter_reading, purge_meter_readings,
  latest_meter_reading,
}
use grosz.Meter.{
  Sensor, sensor_val, Energy, adjust_energy, Poller, init_energy_state, snapshot_idle,
  store_reading, poll, restarted,
}
use grosz.Meter.Monotonic.{
  whole_limit, IsExact, IsWhole, IsWholeOption, IsWhole-grows, IsAdjusted, adjust_energy-IsAdjusted,
}
use grosz.Meter.Rows.{
  IsNotBelow, IsSeries, IsNotBelow-refl, IsNotBelow-grown, stored_offset-IsWhole, initial_last,
}

module _ (fl : Float64) (exact : IsExact fl) (text : TimeText) (cal : Calendar) where
  open fl use {Float, num, lt}

  abbrev Row : Type 0
  Row = MeterRow fl text

  -- What the poller keeps, and has stored, is whole, at most so much, and in order; what it keeps is
  -- not below what it has stored.
  pub record IsKeptIn (most : ℕ) (energy : Energy fl) (inited : Bool) (readings : List Row)
      : Type 0 where
    pub stored : IsWholeOption fl exact most energy.stored_offset
    pub offset : IsWhole fl exact most energy.offset
    pub last : IsWhole fl exact most energy.last
    pub rows : All (λ (r : Row). IsWhole fl exact most r.energy_wh) readings
    pub series : IsSeries fl exact text readings
    pub above :
        inited ≡ true → All (λ (r : Row). IsNotBelow fl exact text r.energy_wh energy.last) readings

  abbrev pub IsKept : ℕ → Poller fl text cal → Type 0
  IsKept most p = IsKeptIn most p.energy p.energy_inited p.readings

  -- After initEnergyState: the same, with the energy state there.
  init_energy_state-IsKept :
      (most : ℕ) (p : Poller fl text cal)
      → most ≤ whole_limit
      → IsKept most p
      → IsKept most (init_energy_state fl text cal p)
        × ((init_energy_state fl text cal p).energy_inited ≡ true)
  unfolding init_energy_state latest_meter_reading
  init_energy_state-IsKept most p h k =
      if-elim (λ (x : Poller fl text cal). IsKept most x × (x.energy_inited ≡ true)) p.energy_inited
        _ _ (λ e. (k, e))
        (λ e.
          let (w, n) =
            initial_last fl exact text most p.energy.last h k.last p.readings k.rows k.series
              (latest p.readings) refl in
          (
            record {
              stored = k.stored;
              offset = stored_offset-IsWhole fl exact text most p.energy.stored_offset k.stored;
              last = w;
              rows = k.rows;
              series = k.series;
              above = λ f. n;
            },
            refl,
          ))

  adjust_energy-whole :
      (most step : ℕ) (raw : Float) (e : Energy fl) (w : IsWhole fl exact step raw)
      (o : IsWhole fl exact most e.offset) (l : IsWhole fl exact most e.last)
      → IsWholeOption fl exact most e.stored_offset
      → most + step + 1000 ≤ whole_limit
      → IsAdjusted fl exact (most + step) l.value (adjust_energy fl raw e)
  adjust_energy-whole most step raw e w o l s h =
      let same =
        ap₂
          (λ (a b : Float).
            let x : Energy fl = record { offset = a; last = b; stored_offset = e.stored_offset } in
            x)
          o.same l.same in
      let fine =
        adjust_energy-IsAdjusted fl exact w.value o.value l.value most step e.stored_offset w.few
          o.few l.few h s in
      subst (λ x. IsAdjusted fl exact (most + step) l.value (adjust_energy fl x e)) (sym w.same)
        (subst
          (λ x. IsAdjusted fl exact (most + step) l.value (adjust_energy fl (num (pos w.value)) x))
          (sym same) fine)

  -- What a poller has when a reading is stored: it is not below any of those that are.
  IsReady : ℕ → Poller fl text cal → Type 0
  IsReady most p =
      IsKept most p
      × All (λ (r : Row). IsNotBelow fl exact text r.energy_wh p.energy.last) p.readings

  purged-IsKept :
      (most now max_age : ℕ) (p : Poller fl text cal) (rows : List Row)
      → IsKept most (record p { readings = rows })
      → IsKept most (record p { readings = purge_meter_readings fl text now max_age rows })
  unfolding purge_meter_readings
  purged-IsKept most now max_age p rows k = record {
    stored = k.stored;
    offset = k.offset;
    last = k.last;
    rows = All-select _ _ rows k.rows;
    series = Ordered-select _ _ rows k.series;
    above = λ e. All-select _ _ rows (k.above e);
  }

  inserted-IsKept :
      (most now : ℕ) (power : Float) (p : Poller fl text cal)
      → most ≤ whole_limit
      → IsReady most p
      → IsKept most
          (record p { readings = insert_meter_reading fl text now power p.energy.last p.readings })
  unfolding insert_meter_reading IsReady
  inserted-IsKept most now power p h (k, n) =
      let here = IsNotBelow-refl fl exact text most p.energy.last h k.last in
      record {
        stored = k.stored;
        offset = k.offset;
        last = k.last;
        rows = All-append _ p.readings _ k.rows (k.last, tt);
        series = Ordered-snoc _ p.readings _ k.series n;
        above = λ e. All-append _ p.readings _ n (here, tt);
      }

  snapshot_idle-same :
      (now : ℕ) (p : Poller fl text cal)
      → let q = (snapshot_idle fl text cal now p).0 in
        (q.energy ≡ p.energy) × (q.energy_inited ≡ p.energy_inited) × (q.readings ≡ p.readings)
  unfolding snapshot_idle
  snapshot_idle-same now p = ground arith

  snapshot_idle-IsKept :
      (most now : ℕ) (p : Poller fl text cal)
      → IsKept most p
      → IsKept most (snapshot_idle fl text cal now p).0
  snapshot_idle-IsKept most now p k =
      let (energy, inited, readings) = snapshot_idle-same now p in rw (energy, inited, readings) k

  store_reading-IsKept :
      (most now : ℕ) (sensors : List (Sensor fl)) (p : Poller fl text cal)
      → most ≤ whole_limit
      → IsReady most p
      → IsKept most (store_reading fl text cal now sensors p).0
  unfolding store_reading IsReady
  store_reading-IsKept most now sensors p h (k, n) =
      let power = sensor_val fl sensors 0 "activePower" in
      let inserted = inserted-IsKept most now power p h (k, n) in
      let power_of = λ (phase : ℕ). sensor_val fl sensors phase "activePower" in
      let stored : Poller fl text cal = record p {
        readings = insert_meter_reading fl text now power p.energy.last p.readings;
        phases = insert_phase_reading fl text now (power_of 1) (power_of 2) (power_of 3) p.phases;
        last_store = now;
      } in
      let q = (snapshot_idle fl text cal now stored).0 in
      let kept = snapshot_idle-IsKept most now stored inserted in
      elim (Bool-cases (leb (p.last_store + minute) now)) [
        | inl e ↦ rw e (purged-IsKept most now (48 * hour) q q.readings kept)
        | inr e ↦ rw e k
      ]

  pub poll-IsKept :
      (most step now : ℕ) (sensors : List (Sensor fl)) (p : Poller fl text cal)
      → most + step + 1000 ≤ whole_limit
      → IsWhole fl exact step (sensor_val fl sensors 0 "forwardActiveEnergy")
      → IsKept most p
      → IsKept (most + step) (poll fl text cal now (some sensors) p).0
  unfolding poll IsReady
  poll-IsKept most step now sensors p h w k =
      let inited = init_energy_state fl text cal p in
      let (k1, there) = init_energy_state-IsKept most p (omega arith) k in
      let raw = sensor_val fl sensors 0 "forwardActiveEnergy" in
      let good = adjust_energy-whole most step raw inited.energy w k1.offset k1.last k1.stored h in
      let energy = adjust_energy fl raw inited.energy in
      let few = k1.last.few in
      let last : IsWhole fl exact (most + step) inited.energy.last = record {
        value = k1.last.value;
        same = k1.last.same;
        few = omega arith;
      } in
      let rows =
        All-map
          (λ (r : Row) (v : IsWhole fl exact most r.energy_wh).
            IsWhole-grows fl exact most (most + step) r.energy_wh (omega arith) v)
          inited.readings k1.rows in
      let above : All (λ (r : Row). IsNotBelow fl exact text r.energy_wh energy.last)
          inited.readings =
        All-both
          (λ (r : Row) (v : IsWhole fl exact (most + step) r.energy_wh)
              (n : IsNotBelow fl exact text r.energy_wh inited.energy.last).
            IsNotBelow-grown fl exact text (most + step) r.energy_wh inited.energy.last energy.last
              (omega arith) v last good.last good.grown n)
          inited.readings rows (k1.above there) in
      store_reading-IsKept (most + step) now sensors _ (omega arith) (
        record {
          stored = good.stored;
          offset = good.offset;
          last = good.last;
          rows = rows;
          series = k1.series;
          above = λ e. above;
        },
        above,
      )

  pub unanswered-IsKept :
      (most now : ℕ) (p : Poller fl text cal)
      → IsKept most p
      → IsKept most (poll fl text cal now none p).0
  unfolding poll
  unanswered-IsKept most now p k = k

  pub restarted-IsKept :
      (most : ℕ) (p : Poller fl text cal) → IsKept most p → IsKept most (restarted fl text cal p)
  unfolding restarted
  restarted-IsKept most p k = record {
    stored = k.stored;
    offset = record { value = 0; same = refl; few = omega arith };
    last = record { value = 0; same = refl; few = omega arith };
    rows = k.rows;
    series = k.series;
    above = λ e. absurd (cc e);
  }
