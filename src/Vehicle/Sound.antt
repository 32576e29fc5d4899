-- ===== src/Vehicle/Sound.antt =====
-- internal/vehicle/renault.go: what stays true of the car's level and limits in every run of polls and
-- of changes of the charge limit.
use grosz.Prelude.{
  if_case, ℕ, ◌≡◌, ◌∙◌, ap, Bool, true, false, not, ◌||◌, Option, none, some, List, [], ◌∷◌, arith,
}
use grosz.Prelude.Int.{ℤ}
use grosz.Std.{TimeText, Float64}
use grosz.Vehicle.Renault.{State, BatteryStatus, ensure_auth, is_positive}
use grosz.Vehicle.Renault.Auth.{Car, car, ensure_auth-car}
use grosz.Vehicle.SocLevel.{
  Request, SocLevel, EndPoint, LevelAnswer, LevelResult, level, rate_limited, unavailable,
  poll_soc_level, stored_level, set_soc_level_cache, set_cached_soc_target, put_soc_level,
  get_soc_level, should_fetch_soc_level, soc_level_backed_off,
}
use grosz.Vehicle.SocTarget.{
  TargetAnswers, TargetOutcome, set_soc_target, with_min, write_target, minimum, read_min, written,
}
use grosz.Vehicle.SocTarget.Writes.{outcome-elim, unless_failed-elim}
use grosz.Vehicle.Poll.{
  AbrpCache, PollAnswers, read_battery, stored_battery, poll_tier_b, finish_poll, poll_with,
  poll_once, is_percentage,
}
use grosz.Vehicle.Poll.Tiers.{read_battery-car}

-- A number that is not there, or that passes a test.
abbrev pub is_ok : (ℤ → Bool) → Option ℤ → Bool
is_ok p none = true
is_ok p (some n) = p n

module _ (fl : Float64) (text : TimeText) where
  -- The stored level is between 0 and 100, and the minimum that is stored, or that is taken for
  -- known, is above 0.
  abbrev pub IsSound : State fl text → Type 0
  IsSound s =
      (is_ok is_percentage s.battery.current_soc ≡ true)
      × (is_ok is_positive s.stored_soc_min ≡ true)
      × (not s.soc_level_known || is_positive s.soc_min ≡ true)

  IsSound-car : (s s' : State fl text) → car fl text s' ≡ car fl text s → IsSound s → IsSound s'
  IsSound-car s s' e h = (
    ap (λ (c : Car fl text). is_ok is_percentage c.battery.current_soc) e ∙ h.0,
    ap (λ (c : Car fl text). is_ok is_positive c.stored_soc_min) e ∙ h.1,
    ap (λ (c : Car fl text). not c.soc_level_known || is_positive c.soc_min) e ∙ h.2,
  )

  stored_battery-IsSound :
      (status : BatteryStatus fl text) (s : State fl text)
      → IsSound s
      → IsSound (stored_battery fl text status s)
  unfolding stored_battery
  stored_battery-IsSound status s h = ground (arith, h)

  set_soc_level_cache-IsSound :
      (l : SocLevel) (s : State fl text) → IsSound s → IsSound (set_soc_level_cache fl text l s)
  unfolding set_soc_level_cache
  set_soc_level_cache-IsSound l s h = ground (arith, h)

  stored_level-IsSound :
      (now : ℕ) (l : SocLevel) (s : State fl text)
      → IsSound s
      → IsSound (stored_level fl text now l s)
  unfolding stored_level set_soc_level_cache
  stored_level-IsSound now l s h = ground (arith, h)

  level-elim :
      (P : State fl text → Type 0) (r : LevelResult) (a c : State fl text)
      (b : SocLevel → State fl text)
      → P a
      → ((l : SocLevel) → P (b l))
      → P c
      → P (elim r [ rate_limited ↦ a | unavailable ↦ c | level l ↦ b l ])
  level-elim P (level l) a c b h k m = k l
  level-elim P rate_limited a c b h k m = h
  level-elim P unavailable a c b h k m = m

  poll_soc_level-IsSound :
      (now : ℕ) (answer : EndPoint → LevelAnswer) (s : State fl text)
      → IsSound s
      → IsSound (poll_soc_level fl text now answer s).0
  unfolding poll_soc_level
  poll_soc_level-IsSound now answer s h =
      if_case (λ (r : State fl text × List Request). IsSound r.0)
        (not (should_fetch_soc_level fl text now s)) _ _ h
        (if_case (λ (r : State fl text × List Request). IsSound r.0)
          (soc_level_backed_off fl text now s) _ _ h
          (level-elim IsSound (get_soc_level answer).0 _ _ _ h (λ l. stored_level-IsSound now l s h)
            h))

  poll_tier_b-IsSound :
      (answers : PollAnswers fl text) (s : State fl text) (cache : AbrpCache fl text)
      → IsSound s
      → IsSound (poll_tier_b fl text answers (s, cache)).0
  unfolding poll_tier_b
  poll_tier_b-IsSound answers s cache h =
      let k = poll_soc_level-IsSound answers.level_at answers.level s h in ground (arith, k)

  poll_with-IsSound :
      (answers : PollAnswers fl text) (include_tier_b : Bool) (cache : AbrpCache fl text)
      (r : State fl text × Option (BatteryStatus fl text))
      → IsSound r.0
      → IsSound (poll_with fl text answers include_tier_b cache r).state
  unfolding poll_with finish_poll
  poll_with-IsSound answers include_tier_b cache (s, none) h = h
  poll_with-IsSound answers include_tier_b cache (s, some status) h =
      let k = stored_battery-IsSound status s h in
      let l = poll_tier_b-IsSound answers (stored_battery fl text status s) cache k in
      ground (arith, k, l)

  poll_once-IsSound :
      (answers : PollAnswers fl text) (include_tier_b : Bool) (s : State fl text)
      (cache : AbrpCache fl text)
      → IsSound s
      → IsSound (poll_once fl text answers include_tier_b (s, cache)).state
  unfolding poll_once
  poll_once-IsSound answers include_tier_b s cache h =
      poll_with-IsSound answers include_tier_b cache (read_battery fl text answers s)
        (IsSound-car s (read_battery fl text answers s).0 (read_battery-car fl text answers s) h)

  minimum-IsSound :
      (answer : EndPoint → LevelAnswer) (s : State fl text)
      → IsSound s
      → IsSound (minimum fl text answer s).0.1
  unfolding minimum read_min set_soc_level_cache
  minimum-IsSound answer s h = ground (arith, h)

  written-IsSound :
      (soc_min target : ℤ) (s : State fl text)
      → IsSound s
      → IsSound (written fl text soc_min target s)
  unfolding written set_cached_soc_target
  written-IsSound soc_min target s h = ground (arith, h)

  write_target-IsSound :
      (answers : TargetAnswers) (soc_min target : ℤ) (s : State fl text)
      → IsSound s
      → IsSound (write_target fl text answers soc_min target s).state
  unfolding write_target
  write_target-IsSound answers soc_min target s h =
      let dropped : State fl text = record s { jwt = 0 } in
      let (s1, failed) = ensure_auth fl text answers.later answers.re_auth dropped in
      let k = IsSound-car s s1 (ensure_auth-car fl text answers.later answers.re_auth dropped) h in
      outcome-elim (λ (out : TargetOutcome fl text). IsSound out.state)
        (put_soc_level answers.put soc_min target).0 failed
        (put_soc_level answers.put_again soc_min target).0 _ _ _ _
        (written-IsSound soc_min target s h) (λ e. k) (written-IsSound soc_min target s1 k) k

  with_min-IsSound :
      (answers : TargetAnswers) (target : ℤ) (m : (Option ℤ × State fl text) × List Request)
      → IsSound m.0.1
      → IsSound (with_min fl text answers target m).state
  unfolding with_min
  with_min-IsSound answers target ((none, s), sent) h = h
  with_min-IsSound answers target ((some soc_min, s), sent) h =
      if_case (λ (out : TargetOutcome fl text). IsSound out.state) (is_positive soc_min) _ _
        (write_target-IsSound answers soc_min target s h) h

  set_soc_target-IsSound :
      (is_configured : Bool) (answers : TargetAnswers) (target : ℤ) (s : State fl text)
      → IsSound s
      → IsSound (set_soc_target fl text is_configured answers target s).state
  unfolding set_soc_target
  set_soc_target-IsSound false answers target s h = h
  set_soc_target-IsSound true answers target s h =
      let (s1, failed) = ensure_auth fl text answers.now answers.auth s in
      let k = IsSound-car s s1 (ensure_auth-car fl text answers.now answers.auth s) h in
      unless_failed-elim (λ (out : TargetOutcome fl text). IsSound out.state) failed _ _ (λ e. k)
        (with_min-IsSound answers target (minimum fl text answers.read s1)
          (minimum-IsSound answers.read s1 k))

  -- What is done to the car: a poll, or a change of its charge limit.
  pub data Action : Type 0 where
    poll : PollAnswers fl text → Bool → Action
    set_target : Bool → TargetAnswers → ℤ → Action

  abbrev pub act : Action → State fl text × AbrpCache fl text → State fl text × AbrpCache fl text
  act (poll answers include_tier_b) (s, cache) =
      let out = poll_once fl text answers include_tier_b (s, cache) in (out.state, out.cache)
  act (set_target is_configured answers target) (s, cache) =
      ((set_soc_target fl text is_configured answers target s).state, cache)

  pub act_all : List Action → State fl text × AbrpCache fl text → State fl text × AbrpCache fl text
  act_all [] s = s
  act_all (a ∷ more) s = act_all more (act a s)

  act-IsSound :
      (a : Action) (s : State fl text) (cache : AbrpCache fl text)
      → IsSound s
      → IsSound (act a (s, cache)).0
  act-IsSound (poll answers include_tier_b) s cache h =
      poll_once-IsSound answers include_tier_b s cache h
  act-IsSound (set_target is_configured answers target) s cache h =
      set_soc_target-IsSound is_configured answers target s h

  -- In every run of polls and of changes of the charge limit, whatever the API answers, the stored
  -- level stays between 0 and 100, and the minimum that is stored, or that is taken for known, stays
  -- above 0.
  pub act_all-IsSound :
      (actions : List Action) (s : State fl text) (cache : AbrpCache fl text)
      → IsSound s
      → IsSound (act_all actions (s, cache)).0
  unfolding act_all
  act_all-IsSound [] s cache h = h
  act_all-IsSound (a ∷ more) s cache h =
      let next = act a (s, cache) in act_all-IsSound more next.0 next.1 (act-IsSound a s cache h)
