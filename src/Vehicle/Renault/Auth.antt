-- ===== src/Vehicle/Renault/Auth.antt =====
-- ensureAuth of internal/vehicle/renault.go: what it leaves alone, and when it succeeds.
use grosz.Prelude.{
  ℕ, ◌≡◌, ◌∙◌, refl, inl, inr, Bool, not, ◌&&◌, ◌==◌, Option, none, some, arith, Bool-cases,
}
use grosz.Prelude.Int.{ℤ}
use grosz.Std.{TimeText, Float64}
use grosz.Store.Odometer.{OdometerTable}
use grosz.Vehicle.Renault.{
  State, BatteryStatus, BatteryKeys, Answer, AuthAnswers, AuthError, ensure_auth, and_then, has_jwt,
  login_step, person_step, jwt_step, account_step,
}

module _ (fl : Float64) (text : TimeText) where
  open text use {Text}

  -- What is known of the car: all of the state but the authentication.
  pub record Car : Type 0 where
    pub last : Option (BatteryStatus fl text)
    pub soc_min : ℤ
    pub soc_target : ℤ
    pub soc_level_known : Bool
    pub battery : BatteryKeys fl text
    pub stored_soc_min : Option ℤ
    pub stored_soc_target : Option ℤ
    pub soc_level_read_at : Option Text
    pub soc_level_backoff_until : Option Text
    pub odometer : OdometerTable fl text

  abbrev pub car : State fl text → Car
  car s = record {
    last = s.last;
    soc_min = s.soc_min;
    soc_target = s.soc_target;
    soc_level_known = s.soc_level_known;
    battery = s.battery;
    stored_soc_min = s.stored_soc_min;
    stored_soc_target = s.stored_soc_target;
    soc_level_read_at = s.soc_level_read_at;
    soc_level_backoff_until = s.soc_level_backoff_until;
    odometer = s.odometer;
  }

  login_step-car :
      (answer : Answer ℕ) (s : State fl text) → car (login_step fl text answer s).0 ≡ car s
  unfolding login_step
  login_step-car answer s = ground arith

  person_step-car :
      (answer : Answer ℕ) (s : State fl text) → car (person_step fl text answer s).0 ≡ car s
  unfolding person_step
  person_step-car answer s = ground arith

  jwt_step-car :
      (now : ℕ) (has_jwt : Bool) (answer : Answer ℕ) (s : State fl text)
      → car (jwt_step fl text now has_jwt answer s).0 ≡ car s
  unfolding jwt_step
  jwt_step-car now has_jwt answer s = ground arith

  account_step-car :
      (answer : Answer ℕ) (s : State fl text) → car (account_step fl text answer s).0 ≡ car s
  unfolding account_step
  account_step-car answer s = ground arith

  and_then-car :
      (s : State fl text) (r : State fl text × Option AuthError)
      (f : State fl text → State fl text × Option AuthError)
      → car r.0 ≡ car s
      → ((x : State fl text) → car (f x).0 ≡ car x)
      → car (and_then fl text r f).0 ≡ car s
  and_then-car s (r, none) f h k = k r ∙ h
  and_then-car s (r, some e) f h k = h

  -- An authentication changes nothing of what is known of the car.
  pub ensure_auth-car :
      (now : ℕ) (answers : AuthAnswers) (s : State fl text)
      → car (ensure_auth fl text now answers s).0 ≡ car s
  unfolding ensure_auth
  ensure_auth-car now answers s =
      elim (Bool-cases (has_jwt fl text now s && not (s.account_id == 0))) [
        | inl e ↦ rw e refl
        | inr e ↦
            let person = λ (x : State fl text). person_step fl text answers.person x in
            let jwt =
              λ (x : State fl text). jwt_step fl text now (has_jwt fl text now s) answers.jwt x in
            let account = λ (x : State fl text). account_step fl text answers.account x in
            let r1 = login_step fl text answers.login s in
            let r2 = and_then fl text r1 person in
            let r3 = and_then fl text r2 jwt in
            let k1 = login_step-car answers.login s in
            let k2 = and_then-car s r1 person k1 (person_step-car answers.person) in
            let k3 =
              and_then-car s r2 jwt k2 (jwt_step-car now (has_jwt fl text now s) answers.jwt) in
            rw e (and_then-car s r3 account k3 (account_step-car answers.account))
      ]
