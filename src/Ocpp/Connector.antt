-- ===== src/Ocpp/Connector.antt =====
-- internal/ocpp/connector.go: what the server keeps of a connector. Error codes and tags, which are
-- only compared, are numbers, and 0 is the empty text; the keys of the measurements are texts.
pub mod Stopped
use Prim.Native.String.{String}
use text.Mathlib.Text.{◌==◌ as same}
use grosz.Prelude.{
  ℕ, suc, ◌==◌, Bool, true, false, Option, none, some, List, [], ◌∷◌, ◌++◌, if◌then◌else◌, any,
  find_by, put_by,
}
use grosz.Prelude.Int.{pos}
use grosz.Std.{Float64}
use grosz.Ocpp.Status.{Status, available}

-- Go's + on texts.
abbrev pub concat : String → String → String
concat String.[] t = t
concat (String.◌∷◌ c s) t = String.◌∷◌ c (concat s t)

-- The mode of aggregatePhases.
pub data Aggregate : Type 0 where
  sum avg : Aggregate

-- The phase suffixes.
abbrev pub phases : List String
phases = ".L1" ∷ ".L2" ∷ ".L3" ∷ []

pub record SampledValue : Type 0 where
  pub value : String
  pub measurand : String
  pub phase : String
  pub unit : String

pub record MeterValue : Type 0 where
  pub timestamp : Option ℕ
  pub sampled_value : List SampledValue

-- The key of a sample without its phase.
pub base_of : SampledValue → String
base_of sv = if same sv.measurand "" then "Energy.Active.Import.Register" else sv.measurand

pub key_of : SampledValue → String
unfolding base_of
key_of sv = if same sv.phase "" then base_of sv else concat (base_of sv) (concat "." sv.phase)

module _ (fl : Float64) where
  open fl use {Float, num, add, div}

  pub record Measurement : Type 0 where
    pub value : Float
    pub unit : String
    pub timestamp : ℕ

  -- An entry of the map of measurements.
  pub record Entry : Type 0 where
    pub key : String
    pub measurement : Measurement

  abbrev pub has_key : String → Entry → Bool
  has_key k e = same e.key k

  abbrev pub measurement_of : Option Entry → Option Measurement
  measurement_of none = none
  measurement_of (some e) = some e.measurement

  abbrev pub lookup : String → List Entry → Option Measurement
  lookup k m = measurement_of (find_by (has_key k) m)

  abbrev pub insert : String → Measurement → List Entry → List Entry
  insert k v m = put_by (has_key k) (record { key = k; measurement = v }) m

  pub record Connector : Type 0 where
    pub id : ℕ
    pub status : Status
    pub status_at : ℕ
    pub error_code : ℕ
    pub transaction_id : ℕ
    pub id_tag : ℕ
    pub measurements : List Entry

  pub new_connector : ℕ → Connector
  new_connector id = record {
    id = id;
    status = available;
    status_at = 0;
    error_code = 0;
    transaction_id = 0;
    id_tag = 0;
    measurements = [];
  }

  pub update_status : Status → ℕ → ℕ → Connector → Connector
  update_status status error_code ts c = record c {
    status = status;
    error_code = error_code;
    status_at = ts;
  }

  -- The loop of aggregatePhases: the total, the count and the unit.
  pub phase_totals : List Entry → String → List String → Float × ℕ × String → Float × ℕ × String
  phase_totals m base [] acc = acc
  phase_totals m base (suffix ∷ ss) (total, count, unit) =
      phase_totals m base ss (elim (lookup (concat base suffix) m) [
        | none ↦ (total, count, unit)
        | some meas ↦ (add total meas.value, suc count, if same unit "" then meas.unit else unit)
      ])

  -- aggregatePhases.
  pub aggregate_phases : String → Aggregate → ℕ → List String → List Entry → List Entry
  unfolding phase_totals
  aggregate_phases base mode ts direct_base m =
      let (total, count, unit) = phase_totals m base phases (num (pos 0), 0, "") in
      let value : Float = elim mode [ sum ↦ total | avg ↦ div total (num (pos count)) ] in
      if any (λ k. same k base) direct_base
      then m
      else if count == 0
      then m
      else insert base (record { value = value; unit = unit; timestamp = ts }) m

  -- `parse_float` is strconv.ParseFloat(_, 64).
  module _ (parse_float : String → Option Float) where
    -- The loop over the samples: the measurements and directBase.
    pub take_samples : ℕ → List SampledValue → List Entry × List String → List Entry × List String
    unfolding key_of
    take_samples ts [] acc = acc
    take_samples ts (sv ∷ svs) (m, direct_base) = take_samples ts svs (
      elim (parse_float sv.value) [
        | none ↦ m
        | some val ↦ insert (key_of sv) (record { value = val; unit = sv.unit; timestamp = ts }) m
      ],
      if same sv.phase "" then base_of sv ∷ direct_base else direct_base,
    )

    -- One round of the loop of UpdateMeterValues.
    pub take_meter_value : ℕ → MeterValue → List Entry → List Entry
    unfolding take_samples aggregate_phases
    take_meter_value now mv m =
        let ts : ℕ = elim mv.timestamp [ some t ↦ t | none ↦ now ] in
        let (m1, direct_base) = take_samples ts mv.sampled_value (m, []) in
        let m2 = aggregate_phases "Power.Active.Import" sum ts direct_base m1 in
        let m3 = aggregate_phases "Current.Import" sum ts direct_base m2 in
        let m4 = aggregate_phases "Voltage" avg ts direct_base m3 in
        aggregate_phases "Energy.Active.Import.Register" sum ts direct_base m4

    pub take_meter_values : ℕ → List MeterValue → List Entry → List Entry
    unfolding take_meter_value
    take_meter_values now [] m = m
    take_meter_values now (mv ∷ mvs) m = take_meter_values now mvs (take_meter_value now mv m)

    -- UpdateMeterValues.
    pub update_meter_values : ℕ → List MeterValue → Connector → Connector
    unfolding take_meter_values
    update_meter_values now mvs c = record c {
      measurements = take_meter_values now mvs c.measurements;
    }

  -- StartTransaction and RestoreTransaction.
  pub start_transaction : ℕ → ℕ → Connector → Connector
  start_transaction txn_id id_tag c = record c { transaction_id = txn_id; id_tag = id_tag }

  -- One round of the loops of StopTransaction.
  abbrev pub with_zero : String → Option Measurement → List Entry → List Entry
  with_zero key none m = m
  with_zero key (some meas) m = insert key (record meas { value = num (pos 0) }) m

  pub zero_key : String → List Entry → List Entry
  zero_key key m = with_zero key (lookup key m) m

  pub zero_keys : List String → List Entry → List Entry
  unfolding zero_key
  zero_keys [] m = m
  zero_keys (k ∷ ks) m = zero_keys ks (zero_key k m)

  pub zero_base : String → List Entry → List Entry
  unfolding zero_keys
  zero_base base m =
      zero_keys (concat base "" ∷ concat base ".L1" ∷ concat base ".L2" ∷ concat base ".L3" ∷ []) m

  pub stop_transaction : Connector → Connector
  unfolding zero_base
  stop_transaction c = record c {
    transaction_id = 0;
    id_tag = 0;
    measurements =
        zero_base "Current.Offered"
          (zero_base "Current.Import" (zero_base "Power.Active.Import" c.measurements));
  }
