-- ===== src/Vehicle/Poll/Frame.antt =====
-- buildABRPTelemetry of internal/vehicle/renault.go, with the Telemetry of internal/abrp/abrp.go.
use grosz.Prelude.{ℕ, ◌/◌, Bool, false, not, ◌||◌, Option, none, some, ◌==◌, if◌then◌else◌}
use grosz.Prelude.Int.{ℤ, pos, negsuc, sub_ℕ}
use grosz.Std.{TimeText, Float64, second}
use grosz.Vehicle.Renault.{BatteryStatus, is_positive}

abbrev pub is_one : ℤ → Bool
is_one (pos n) = n == 1
is_one (negsuc n) = false

-- Time.Unix: the seconds since 1970.
abbrev unix : ℕ → ℤ
unix t = sub_ℕ (t / second) 62_135_596_800

module _ (fl : Float64) where
  open fl use {Float, num, mul, div, lt, le, eq}

  pub record HvacStatus : Type 0 where
    pub external_temperature : Option Float

  pub record LocationStatus : Type 0 where
    pub gps_latitude : Float
    pub gps_longitude : Float

  pub record Telemetry : Type 0 where
    pub utc : ℤ
    pub soc : Float
    pub is_charging : ℕ
    pub is_parked : Option ℕ
    pub power : Option Float
    pub est_range : Option Float
    pub capacity : Option Float
    pub batt_temp : Option Float
    pub ext_temp : Option Float
    pub lat : Option Float
    pub lon : Option Float
    pub odometer : Option Float

  -- The power in kW, below 0 for charging: -p is p times -1.
  abbrev charging_power : Float → Float
  charging_power p =
      mul (num (negsuc 0)) (if le (num (pos 1000)) p then div p (num (pos 1000)) else p)

  abbrev is_somewhere : LocationStatus → Bool
  is_somewhere l = not (eq l.gps_latitude (num (pos 0))) || not (eq l.gps_longitude (num (pos 0)))

  abbrev if_positive : Float → Option Float
  if_positive x = if lt (num (pos 0)) x then some x else none

  module _ (text : TimeText) where
    pub build_abrp_telemetry :
        ℕ
        → BatteryStatus fl text
        → Option HvacStatus
        → Option LocationStatus
        → Float
        → Float
        → Telemetry
    build_abrp_telemetry now status hvac loc capacity odometer_km =
        let is_charging = eq status.charging_status (num (pos 1)) in
        record {
          utc = unix now;
          soc = num status.level;
          is_charging = if is_charging then 1 else 0;
          is_parked = if is_one status.plug_status || is_charging then some 1 else none;
          power =
              if is_charging
              then elim status.charging_instantaneous_power [
                | none ↦ none
                | some p ↦ some (charging_power p)
              ]
              else none;
          est_range = if is_positive status.autonomy then some (num status.autonomy) else none;
          capacity = if_positive capacity;
          batt_temp = status.battery_temperature;
          ext_temp = elim hvac [ none ↦ none | some h ↦ h.external_temperature ];
          lat = elim loc [
            | none ↦ none
            | some l ↦ if is_somewhere l then some l.gps_latitude else none
          ];
          lon = elim loc [
            | none ↦ none
            | some l ↦ if is_somewhere l then some l.gps_longitude else none
          ];
          odometer = if_positive odometer_km;
        }
