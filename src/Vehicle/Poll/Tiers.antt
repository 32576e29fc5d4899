-- ===== src/Vehicle/Poll/Tiers.antt =====
-- What polls of internal/vehicle/renault.go, and changes of the charge limit between them, leave.
use grosz.Prelude.{◌≡◌, ◌∙◌, refl, Bool, Option, none, some}
use grosz.Std.{TimeText, Float64}
use grosz.Vehicle.Renault.{State, BatteryStatus, AuthError, ensure_auth}
use grosz.Vehicle.Renault.Auth.{car, ensure_auth-car}
use grosz.Vehicle.Poll.{
  AbrpCache, PollAnswers, PollOutcome, read_battery, finish_poll, poll_once, poll_with, chosen_read,
}

module _ (fl : Float64) (text : TimeText) where
  read-elim :
      (P : State fl text → Type 0) (failed : Option AuthError)
      (battery : Option (BatteryStatus fl text)) (failed_again : Option AuthError)
      (again : Option (BatteryStatus fl text)) (s1 s2 : State fl text)
      → P s1
      → P s2
      → P (chosen_read fl text failed battery failed_again again s1 s2).0
  unfolding chosen_read
  read-elim P (some e) battery failed_again again s1 s2 h k = h
  read-elim P none (some status) failed_again again s1 s2 h k = h
  read-elim P none none (some e) again s1 s2 h k = k
  read-elim P none none none again s1 s2 h k = k

  pub read_battery-car :
      (answers : PollAnswers fl text) (s : State fl text)
      → car fl text (read_battery fl text answers s).0 ≡ car fl text s
  unfolding read_battery
  read_battery-car answers s =
      let e1 = ensure_auth-car fl text answers.now answers.auth s in
      let s1 = (ensure_auth fl text answers.now answers.auth s).0 in
      let dropped : State fl text = record s1 { jwt = 0 } in
      let e2 = ensure_auth-car fl text answers.later answers.re_auth dropped ∙ e1 in
      read-elim (λ s'. car fl text s' ≡ car fl text s)
        (ensure_auth fl text answers.now answers.auth s).1 answers.battery
        (ensure_auth fl text answers.later answers.re_auth dropped).1 answers.battery_again _ _ e1
        e2

  -- What a poll that fails leaves alone.
  abbrev pub IsUntouched : State fl text → AbrpCache fl text → PollOutcome fl text → Type 0
  IsUntouched s cache out =
      (car fl text out.state ≡ car fl text s)
      × (out.cache ≡ cache)
      × (out.update ≡ none)
      × (out.telemetry ≡ none)

  poll_with-failed :
      (answers : PollAnswers fl text) (include_tier_b : Bool) (s : State fl text)
      (cache : AbrpCache fl text) (r : State fl text × Option (BatteryStatus fl text))
      → car fl text r.0 ≡ car fl text s
      → (poll_with fl text answers include_tier_b cache r).plugged ≡ none
      → IsUntouched s cache (poll_with fl text answers include_tier_b cache r)
  unfolding poll_with finish_poll
  poll_with-failed answers include_tier_b s cache (s1, none) same h = (same, refl, refl, refl)
  poll_with-failed answers include_tier_b s cache (s1, some status) same h = absurd (cc h)

  -- A poll that fails changes nothing of what is known of the car: neither the level nor the limits
  -- nor any other reading, in memory or in the settings, nor what the next telemetry is made of. It
  -- tells the callback nothing, and it sends no telemetry.
  pub poll_once-failed :
      (answers : PollAnswers fl text) (include_tier_b : Bool) (s : State fl text)
      (cache : AbrpCache fl text)
      → (poll_once fl text answers include_tier_b (s, cache)).plugged ≡ none
      → IsUntouched s cache (poll_once fl text answers include_tier_b (s, cache))
  unfolding poll_once
  poll_once-failed answers include_tier_b s cache h =
      poll_with-failed answers include_tier_b s cache (read_battery fl text answers s)
        (read_battery-car answers s) h
