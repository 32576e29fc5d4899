-- ===== src/Vehicle/Renault.antt =====
-- internal/vehicle/renault.go: what Renault keeps in memory and in the settings, and its
-- authentication. Tokens and ids, which are only compared with the empty text, are numbers, and 0 is
-- the empty text. A setting that is not there is `none`; a number in the settings is read as it was
-- written. What the API answers is told to each operation.
pub mod Auth
use grosz.Prelude.{
  ℕ, ◌+◌, ◌*◌, Bool, true, false, not, ◌&&◌, Option, none, some, ltb, ◌==◌, if◌then◌else◌,
}
use grosz.Prelude.Int.{ℤ, pos, negsuc, ltb_ℤ}
use grosz.Std.{TimeText, Float64, minute}
use grosz.Store.Odometer.{OdometerTable}

-- gigyaErrPendingTFA.
abbrev gigya_err_pending_tfa : ℕ
gigya_err_pending_tfa = 403101

abbrev pub is_positive : ℤ → Bool
is_positive n = ltb_ℤ (pos 0) n

-- An answer, a gigyaError with its code, or any other error.
pub data Answer {ℓ} (A : Type ℓ) : Type ℓ where
  answered : A → Answer A
  rejected : ℕ → Answer A
  unreached : Answer A

pub data AuthError : Type 0 where
  login_failed person_failed jwt_failed account_failed : AuthError

-- What gigyaLogin, gigyaGetPersonID, gigyaGetJWT and getAccountID give.
pub record AuthAnswers : Type 0 where
  pub login : Answer ℕ
  pub person : Answer ℕ
  pub jwt : Answer ℕ
  pub account : Answer ℕ

module _ (fl : Float64) (text : TimeText) where
  open fl use {Float}
  open text use {Text}

  pub record BatteryStatus : Type 0 where
    pub level : ℤ
    pub autonomy : ℤ
    pub plug_status : ℤ
    pub charging_status : Float
    pub remaining_time : ℤ
    pub timestamp : ℕ
    pub battery_temperature : Option Float
    pub charging_instantaneous_power : Option Float

  -- The settings of a poll of the battery.
  pub record BatteryKeys : Type 0 where
    pub plug_status : Option ℤ
    pub battery_autonomy : Option ℤ
    pub charging_status : Option Float
    pub charging_remaining_time : Option ℤ
    pub battery_timestamp : Option ℕ
    pub current_soc : Option ℤ

  pub record State : Type 0 where
    pub session : ℕ
    pub jwt : ℕ
    pub jwt_expiry : ℕ
    pub person_id : ℕ
    pub account_id : ℕ
    pub last : Option BatteryStatus
    pub soc_min : ℤ
    pub soc_target : ℤ
    pub soc_level_known : Bool
    -- The settings: vehicle.renault_session, vehicle.renault_tfa_required, those of the battery, and
    -- vehicle.soc_min, soc_target, soc_level_read_at and soc_level_backoff_until.
    pub stored_session : Option ℕ
    pub tfa_required : Bool
    pub battery : BatteryKeys
    pub stored_soc_min : Option ℤ
    pub stored_soc_target : Option ℤ
    pub soc_level_read_at : Option Text
    pub soc_level_backoff_until : Option Text
    pub odometer : OdometerTable fl text

  -- Step 1 of ensureAuth: the login, unless there is a session.
  unfoldable pub login_step : Answer ℕ → State → State × Option AuthError
  login_step answer s =
      if s.session == 0
      then elim answer [
        | answered t ↦ (record s { session = t; stored_session = some t }, none)
        | rejected code ↦ (
          if code == gigya_err_pending_tfa then record s { tfa_required = true } else s,
          some login_failed,
        )
        | unreached ↦ (s, some login_failed)
      ]
      else (s, none)

  -- Step 2.
  unfoldable pub person_step : Answer ℕ → State → State × Option AuthError
  person_step answer s =
      if s.person_id == 0
      then elim answer [
        | answered p ↦ (record s { person_id = p }, none)
        | _ ↦ (s, some person_failed)
      ]
      else (s, none)

  -- Step 3: a JWT serves for 50 minutes; a session that is rejected is dropped, from the settings only
  -- if Gigya itself has rejected it.
  unfoldable pub jwt_step : ℕ → Bool → Answer ℕ → State → State × Option AuthError
  jwt_step now has_jwt answer s = if has_jwt then (s, none) else elim answer [
    | answered t ↦ (record s { jwt = t; jwt_expiry = now + 50 * minute }, none)
    | rejected code ↦ (record s { session = 0; stored_session = none }, some jwt_failed)
    | unreached ↦ (record s { session = 0 }, some jwt_failed)
  ]

  -- Step 4.
  unfoldable pub account_step : Answer ℕ → State → State × Option AuthError
  account_step answer s =
      if s.account_id == 0
      then elim answer [
        | answered a ↦ (record s { account_id = a }, none)
        | _ ↦ (s, some account_failed)
      ]
      else (s, none)

  -- A step after one that has not failed.
  abbrev pub and_then :
      State × Option AuthError → (State → State × Option AuthError) → State × Option AuthError
  and_then (s, none) f = f s
  and_then (s, some e) f = (s, some e)

  -- The JWT is there and has not run out.
  abbrev pub has_jwt : ℕ → State → Bool
  has_jwt now s = not (s.jwt == 0) && ltb now s.jwt_expiry

  -- ensureAuth.
  unfoldable pub ensure_auth : ℕ → AuthAnswers → State → State × Option AuthError
  unfolding login_step person_step jwt_step account_step
  ensure_auth now answers s =
      if has_jwt now s && not (s.account_id == 0)
      then (s, none)
      else and_then
          (and_then (and_then (login_step answers.login s) (λ s1. person_step answers.person s1))
            (λ s2. jwt_step now (has_jwt now s) answers.jwt s2))
          (λ s3. account_step answers.account s3)
