-- ===== src/Meter.antt =====
-- internal/meter/meter.go: the poller of the energy meter, without its HTTP request, whose answer a
-- poll is told, and without the callback, the events and the log.
pub mod Monotonic
pub mod Rows
pub mod Kept
pub mod Series
use Prim.Native.String.{String}
use text.Mathlib.Text.{◌==◌ as same}
use grosz.Prelude.{
  ℕ, ◌+◌, ◌-◌, ◌*◌, Bool, true, false, not, ◌&&◌, Option, none, some, List, [], ◌∷◌, leb, ◌==◌,
  if◌then◌else◌,
}
use grosz.Prelude.Int.{pos}
use grosz.Std.{TimeText, Float64, Calendar, minute, hour}
use grosz.Store.Meter.{
  MeterRow, PhaseRow, insert_meter_reading, purge_meter_readings, insert_phase_reading,
  purge_phase_readings, latest_meter_reading,
}

module _ (fl : Float64) where
  open fl use {Float, num, add, sub, div, lt}

  pub record Sensor : Type 0 where
    pub id : ℕ
    pub typ : String
    pub value : Float

  -- sensorVal.
  unfoldable pub sensor_val : List Sensor → ℕ → String → Float
  sensor_val [] id typ = num (pos 0)
  sensor_val (s ∷ more) id typ =
      let rest = sensor_val more id typ in if (s.id == id) && same s.typ typ then s.value else rest

  pub record Phase : Type 0 where
    pub power : Float
    pub current : Float
    pub voltage : Float

  pub record LiveState : Type 0 where
    pub total_power : Float
    pub frequency : Float
    pub phases : List Phase
    pub timestamp : ℕ

  abbrev phase_of : List Sensor → ℕ → Phase
  phase_of sensors phase = record {
    power = sensor_val sensors phase "activePower";
    current = div (sensor_val sensors phase "current") (num (pos 1000));
    voltage = div (sensor_val sensors phase "voltage") (num (pos 10));
  }

  pub live_of : List Sensor → ℕ → LiveState
  unfolding sensor_val
  live_of sensors now = record {
    total_power = sensor_val sensors 0 "activePower";
    frequency = div (sensor_val sensors 0 "frequency") (num (pos 1000));
    phases = phase_of sensors 1 ∷ phase_of sensors 2 ∷ phase_of sensors 3 ∷ [];
    timestamp = now;
  }

  -- meterResetThresholdWh.
  abbrev pub meter_reset_threshold_wh : Float
  meter_reset_threshold_wh = num (pos 1000)

  -- What adjustEnergy keeps, and the setting meter.energy_offset_wh.
  pub record Energy : Type 0 where
    pub offset : Float
    pub last : Float
    pub stored_offset : Option Float

  -- adjustEnergy: what it keeps, whose `last` is its result.
  pub adjust_energy : Float → Energy → Energy
  adjust_energy raw_wh e =
      let effective = add raw_wh e.offset in
      let offset = add e.offset (sub e.last effective) in
      if lt (num (pos 0)) e.last && lt effective (sub e.last meter_reset_threshold_wh)
      then record { offset = offset; last = add raw_wh offset; stored_offset = some offset }
      else if lt effective e.last
      then e
      else record e { last = effective }

  module _ (text : TimeText) (cal : Calendar) where
    open cal use {date}

    pub record Poller : Type 0 where
      pub energy : Energy
      pub energy_inited : Bool
      pub last_power : Float
      pub live : Option LiveState
      pub last_store : ℕ
      pub last_snapshot_date : Option ℕ
      pub last_snapshot_time : ℕ
      -- The tables.
      pub readings : List (MeterRow fl text)
      pub phases : List (PhaseRow fl text)

    -- initEnergyState.
    pub init_energy_state : Poller → Poller
    init_energy_state p =
        let offset : Float = elim p.energy.stored_offset [ none ↦ num (pos 0) | some o ↦ o ] in
        let last : Float = elim (latest_meter_reading fl text p.readings) [
          | none ↦ p.energy.last
          | some r ↦ r.energy_wh
        ] in
        if p.energy_inited then p else record p {
          energy = record p.energy { offset = offset; last = last };
          energy_inited = true;
        }

    -- snapshotIdle: the days whose idle energy is computed, as instants.
    pub snapshot_idle : ℕ → Poller → Poller × List ℕ
    snapshot_idle now p =
        let is_same_day : Bool = elim p.last_snapshot_date [
          | none ↦ false
          | some d ↦ d == date now
        ] in
        if not is_same_day
        then (
          record p { last_snapshot_date = some (date now); last_snapshot_time = now },
          (now - 24 * hour) ∷ now ∷ [],
        )
        else if leb (p.last_snapshot_time + hour) now
        then (record p { last_snapshot_time = now }, now ∷ [])
        else (p, [])

    -- The part of poll that stores a reading, at most once in a minute.
    pub store_reading : ℕ → List Sensor → Poller → Poller × List ℕ
    unfolding snapshot_idle sensor_val
    store_reading now sensors p =
        let power = λ (phase : ℕ). sensor_val sensors phase "activePower" in
        let stored : Poller = record p {
          readings =
              insert_meter_reading fl text now (sensor_val sensors 0 "activePower") p.energy.last
                p.readings;
          phases = insert_phase_reading fl text now (power 1) (power 2) (power 3) p.phases;
          last_store = now;
        } in
        let (snapped, days) = snapshot_idle now stored in
        if leb (p.last_store + minute) now
        then (
          record snapped {
            readings = purge_meter_readings fl text now (48 * hour) snapped.readings;
            phases = purge_phase_readings fl text now (48 * hour) snapped.phases;
          },
          days,
        )
        else (p, [])

    -- poll, with the sensors of an answer that could be read, or none.
    unfoldable pub poll : ℕ → Option (List Sensor) → Poller → Poller × List ℕ
    unfolding init_energy_state adjust_energy live_of store_reading sensor_val
    poll now none p = (p, [])
    poll now (some sensors) p =
        let inited = init_energy_state p in
        let adjusted : Poller = record inited {
          energy = adjust_energy (sensor_val sensors 0 "forwardActiveEnergy") inited.energy;
          last_power = sensor_val sensors 0 "activePower";
          live = some (live_of sensors now);
        } in
        store_reading now sensors adjusted

    -- A new poller on the same store.
    unfoldable pub restarted : Poller → Poller
    restarted p = record p {
      energy = record {
        offset = num (pos 0);
        last = num (pos 0);
        stored_offset = p.energy.stored_offset;
      };
      energy_inited = false;
      last_power = num (pos 0);
      live = none;
      last_store = 0;
      last_snapshot_date = none;
      last_snapshot_time = 0;
    }
