-- ===== src/Vehicle/Poll.antt =====
-- One poll of internal/vehicle/renault.go: pollOnce and pollTierB, and the telemetry frame for ABRP.
-- The name and the image of the car, the events and the log are left out.
pub mod Frame
pub mod Tiers
use grosz.Prelude.{ℕ, Bool, true, false, Option, none, some, List, leb, ◌==◌, if◌then◌else◌}
use grosz.Prelude.Int.{ℤ, pos, negsuc}
use grosz.Std.{TimeText, Float64}
use grosz.Store.Odometer.{insert_odometer_reading}
use grosz.Vehicle.Renault.{State, BatteryStatus, AuthAnswers, AuthError, ensure_auth}
use grosz.Vehicle.SocLevel.{EndPoint, LevelAnswer, poll_soc_level}
use grosz.Vehicle.Poll.Frame.{HvacStatus, LocationStatus, Telemetry, build_abrp_telemetry, is_one}

abbrev pub is_percentage : ℤ → Bool
is_percentage (pos n) = leb n 100
is_percentage (negsuc n) = false

module _ (fl : Float64) (text : TimeText) where
  open fl use {Float, num, lt}

  -- abrpCache.
  pub record AbrpCache : Type 0 where
    pub hvac : Option (HvacStatus fl)
    pub loc : Option (LocationStatus fl)
    pub odometer_km : Float

  -- What the API answers during one poll, and the clock readings that it makes.
  pub record PollAnswers : Type 0 where
    pub now : ℕ
    pub auth : AuthAnswers
    pub battery : Option (BatteryStatus fl text)
    pub later : ℕ
    pub re_auth : AuthAnswers
    pub battery_again : Option (BatteryStatus fl text)
    pub level_at : ℕ
    pub level : EndPoint → LevelAnswer
    pub mileage : Option Float
    pub mileage_at : ℕ
    pub is_abrp_enabled : Bool
    pub hvac : Option (HvacStatus fl)
    pub location : Option (LocationStatus fl)
    pub capacity : Float
    pub sent_at : ℕ

  -- Which of two reads of the battery status counts, with an authentication before each of them.
  pub chosen_read :
      Option AuthError
      → Option (BatteryStatus fl text)
      → Option AuthError
      → Option (BatteryStatus fl text)
      → State fl text
      → State fl text
      → State fl text × Option (BatteryStatus fl text)
  chosen_read (some e) battery failed_again again s1 s2 = (s1, none)
  chosen_read none (some status) failed_again again s1 s2 = (s1, some status)
  chosen_read none none (some e) again s1 s2 = (s2, none)
  chosen_read none none none again s1 s2 = (s2, again)

  -- The battery status, with one more attempt after a new authentication; `none` is a failure.
  pub read_battery : PollAnswers → State fl text → State fl text × Option (BatteryStatus fl text)
  unfolding chosen_read
  read_battery answers s =
      let (s1, failed) = ensure_auth fl text answers.now answers.auth s in
      let dropped : State fl text = record s1 { jwt = 0 } in
      let (s2, failed_again) = ensure_auth fl text answers.later answers.re_auth dropped in
      chosen_read failed answers.battery failed_again answers.battery_again s1 s2

  -- What a battery status stores.
  unfoldable pub stored_battery : BatteryStatus fl text → State fl text → State fl text
  stored_battery status s = record s {
    last = some status;
    battery = record {
      plug_status = some status.plug_status;
      battery_autonomy = some status.autonomy;
      charging_status = some status.charging_status;
      charging_remaining_time = some status.remaining_time;
      battery_timestamp = some status.timestamp;
      current_soc = if is_percentage status.level then some status.level else s.battery.current_soc;
    };
  }

  -- pollTierB.
  unfoldable pub poll_tier_b : PollAnswers → State fl text × AbrpCache → State fl text × AbrpCache
  poll_tier_b answers (s, cache) =
      let s1 = (poll_soc_level fl text answers.level_at answers.level s).0 in
      let (s2, cache2) : State fl text × AbrpCache = elim answers.mileage [
        | none ↦ (s1, cache)
        | some km ↦
            if lt (num (pos 0)) km
            then (
              record s1 {
                odometer = insert_odometer_reading fl text answers.mileage_at km s1.odometer;
              },
              record cache { odometer_km = km },
            )
            else (s1, cache)
      ] in
      if answers.is_abrp_enabled
      then (
        s2,
        record cache2 {
          hvac = elim answers.hvac [ none ↦ cache2.hvac | some h ↦ some h ];
          loc = elim answers.location [ none ↦ cache2.loc | some l ↦ some l ];
        },
      )
      else (s2, cache2)

  -- The outcome of a poll: whether the car is plugged in, unless it has failed; the level that the
  -- callback is told; and the frame that is sent.
  pub record PollOutcome : Type 0 where
    pub state : State fl text
    pub cache : AbrpCache
    pub plugged : Option Bool
    pub update : Option ℤ
    pub telemetry : Option (Telemetry fl)

  -- The rest of a poll that has a battery status.
  unfoldable pub finish_poll :
      PollAnswers → Bool → BatteryStatus fl text → State fl text × AbrpCache → PollOutcome
  unfolding stored_battery poll_tier_b
  finish_poll answers include_tier_b status (s, cache) =
      let stored = stored_battery status s in
      let slow = poll_tier_b answers (stored, cache) in
      let (s1, cache1) : State fl text × AbrpCache =
        if include_tier_b then slow else (stored, cache) in
      record {
        state = if s1.tfa_required then record s1 { tfa_required = false } else s1;
        cache = cache1;
        plugged = some (is_one status.plug_status);
        update = some status.level;
        telemetry =
            if answers.is_abrp_enabled
            then some (
                build_abrp_telemetry fl text answers.sent_at status cache1.hvac cache1.loc
                  answers.capacity cache1.odometer_km)
            else none;
      }

  -- A poll once the battery has been read, or not.
  unfoldable pub poll_with :
      PollAnswers → Bool → AbrpCache → State fl text × Option (BatteryStatus fl text) → PollOutcome
  unfolding finish_poll
  poll_with answers include_tier_b cache (s, none) = record {
    state = s;
    cache = cache;
    plugged = none;
    update = none;
    telemetry = none;
  }
  poll_with answers include_tier_b cache (s, some status) =
      finish_poll answers include_tier_b status (s, cache)

  -- pollOnce.
  unfoldable pub poll_once : PollAnswers → Bool → State fl text × AbrpCache → PollOutcome
  unfolding read_battery poll_with
  poll_once answers include_tier_b (s, cache) =
      poll_with answers include_tier_b cache (read_battery answers s)
