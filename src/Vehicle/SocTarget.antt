-- ===== src/Vehicle/SocTarget.antt =====
-- SetSocTarget of internal/vehicle/renault.go: a change of the car's charge limit. The events and the
-- log are left out; the settings of the account are read as one test, whether all of them are there.
pub mod Writes
use grosz.Prelude.{ℕ, Bool, true, false, not, Option, none, some, List, [], ◌++◌, if◌then◌else◌}
use grosz.Prelude.Int.{ℤ, pos}
use grosz.Std.{TimeText, Float64}
use grosz.Vehicle.Renault.{State, AuthAnswers, AuthError, ensure_auth, is_positive}
use grosz.Vehicle.SocLevel.{
  Request, EndPoint, LevelAnswer, LevelResult, level, get_soc_level, put_soc_level,
  set_soc_level_cache, set_cached_soc_target,
}

pub data TargetError : Type 0 where
  not_configured unknown_min : TargetError
  auth_failed re_auth_failed : AuthError → TargetError
  put_failed : TargetError

-- What Renault answers during one call, and when the two authentications happen.
pub record TargetAnswers : Type 0 where
  pub now : ℕ
  pub auth : AuthAnswers
  pub read : EndPoint → LevelAnswer
  pub put : EndPoint → Option ℕ
  pub later : ℕ
  pub re_auth : AuthAnswers
  pub put_again : EndPoint → Option ℕ

module _ (fl : Float64) (text : TimeText) where
  -- The outcome of a call: the state, its error, and the requests for the limits that it has sent.
  pub record TargetOutcome : Type 0 where
    pub state : State fl text
    pub error : Option TargetError
    pub requests : List Request

  -- GetInt of vehicle.soc_min, 0 when it is not there.
  abbrev pub stored_min : State fl text → ℤ
  stored_min s = elim s.stored_soc_min [ none ↦ pos 0 | some m ↦ m ]

  -- The minimum that a live read teaches.
  unfoldable pub read_min :
      (EndPoint → LevelAnswer) → State fl text → (Option ℤ × State fl text) × List Request
  unfolding get_soc_level set_soc_level_cache
  read_min answer s =
      let (result, requests) = get_soc_level answer in
      let learned : Option ℤ × State fl text = elim result [
        | level l ↦
            (if is_positive l.soc_min
              then (some l.soc_min, set_soc_level_cache fl text l s)
              else (none, s))
        | _ ↦ (none, s)
      ] in
      (learned, requests)

  -- socMin: the cached one, the stored one, or one that is read now; `none` is not known.
  unfoldable pub minimum :
      (EndPoint → LevelAnswer) → State fl text → (Option ℤ × State fl text) × List Request
  unfolding read_min
  minimum answer s =
      if s.soc_level_known
      then ((some s.soc_min, s), [])
      else if is_positive (stored_min s)
      then ((some (stored_min s), s), [])
      else read_min answer s

  -- What a write that succeeded leaves.
  unfoldable pub written : ℤ → ℤ → State fl text → State fl text
  unfolding set_cached_soc_target
  written soc_min target s = set_cached_soc_target fl text target (record s {
    stored_soc_target = some target;
    stored_soc_min = if is_positive soc_min then some soc_min else s.stored_soc_min;
  })

  -- The write, and the one that follows a new authentication when the first has failed.
  unfoldable pub write_target : TargetAnswers → ℤ → ℤ → State fl text → TargetOutcome
  unfolding put_soc_level written ensure_auth
  write_target answers soc_min target s =
      let (done, sent) = put_soc_level answers.put soc_min target in
      let dropped : State fl text = record s { jwt = 0 } in
      let (s1, failed) = ensure_auth fl text answers.later answers.re_auth dropped in
      let (done_again, sent_again) = put_soc_level answers.put_again soc_min target in
      if done
      then record { state = written soc_min target s; error = none; requests = sent }
      else elim failed [
        | some e ↦ record { state = s1; error = some (re_auth_failed e); requests = sent }
        | none ↦
            if done_again
            then record {
              state = written soc_min target s1;
              error = none;
              requests = sent ++ sent_again;
            }
            else record { state = s1; error = some put_failed; requests = sent ++ sent_again }
      ]

  -- The rest of the call, once the minimum has been looked for.
  unfoldable pub with_min :
      TargetAnswers → ℤ → (Option ℤ × State fl text) × List Request → TargetOutcome
  unfolding write_target
  with_min answers target ((none, s), sent) = record {
    state = s;
    error = some unknown_min;
    requests = sent;
  }
  with_min answers target ((some soc_min, s), sent) =
      let out = write_target answers soc_min target s in
      if is_positive soc_min
      then record { state = out.state; error = out.error; requests = sent ++ out.requests }
      else record { state = s; error = some unknown_min; requests = sent }

  -- SetSocTarget.
  unfoldable pub set_soc_target : Bool → TargetAnswers → ℤ → State fl text → TargetOutcome
  unfolding ensure_auth minimum with_min
  set_soc_target is_configured answers target s =
      let (s1, failed) = ensure_auth fl text answers.now answers.auth s in
      if not is_configured
      then record { state = s; error = some not_configured; requests = [] }
      else elim failed [
        | some e ↦ record { state = s1; error = some (auth_failed e); requests = [] }
        | none ↦ with_min answers target (minimum answers.read s1)
      ]
