-- ===== src/Vehicle/SocTarget/Writes.antt =====
-- What SetSocTarget of internal/vehicle/renault.go sends and stores.
use grosz.Prelude.{
  if-elim, ℕ, ◌≡◌, ◌∙◌, ap, refl, Bool, true, false, Option, none, some, List, [], ◌∷◌, ◌++◌, arith,
  All, All-append, if◌then◌else◌,
}
use grosz.Prelude.Int.{ℤ}
use grosz.Std.{TimeText, Float64}
use grosz.Vehicle.Renault.{State, AuthAnswers, AuthError, ensure_auth, is_positive}
use grosz.Vehicle.Renault.Auth.{Car, ensure_auth-car}
use grosz.Vehicle.SocLevel.{
  Request, read_level, write_level, EndPoint, LevelAnswer, paths, read_levels, write_levels,
  get_soc_level, put_soc_level, set_soc_level_cache, set_cached_soc_target,
}
use grosz.Vehicle.SocTarget.{
  TargetAnswers, TargetOutcome, TargetError, read_min, minimum, written, write_target, with_min,
  set_soc_target,
}

-- A write carries this target, and a minimum that is above 0.
abbrev pub IsSafeWrite : ℤ → Request → Type 0
IsSafeWrite target (read_level p) = Unit
IsSafeWrite target (write_level p m t) = (is_positive m ≡ true) × (t ≡ target)

read_levels-IsSafeWrite :
    (target : ℤ) (answer : EndPoint → LevelAnswer) (ps : List EndPoint)
    → All (IsSafeWrite target) (read_levels answer ps).1
unfolding read_levels
read_levels-IsSafeWrite target answer [] = tt
read_levels-IsSafeWrite target answer (p ∷ ps) =
    let rest = read_levels-IsSafeWrite target answer ps in ground (arith, rest)

write_levels-IsSafeWrite :
    (target soc_min : ℤ) (answer : EndPoint → Option ℕ)
    → is_positive soc_min ≡ true
    → (ps : List EndPoint) → All (IsSafeWrite target) (write_levels answer soc_min target ps).1
unfolding write_levels
write_levels-IsSafeWrite target soc_min answer h [] = tt
write_levels-IsSafeWrite target soc_min answer h (p ∷ ps) =
    let rest = write_levels-IsSafeWrite target soc_min answer h ps in ground (arith, rest)

-- What holds of each outcome of two writes with an authentication between them.
pub outcome-elim :
    {A : Type 0} (P : A → Type 0) (done : Bool) (failed : Option AuthError) (done_again : Bool)
    (a : A) (b : AuthError → A) (c d : A)
    → P a
    → ((e : AuthError) → P (b e))
    → P c
    → P d
    → P (if done then a else elim failed [ some e ↦ b e | none ↦ if done_again then c else d ])
outcome-elim P true failed done_again a b c d h k l m = h
outcome-elim P false (some e) done_again a b c d h k l m = k e
outcome-elim P false none true a b c d h k l m = l
outcome-elim P false none false a b c d h k l m = m

pub unless_failed-elim :
    {A : Type 0} (P : A → Type 0) (failed : Option AuthError) (b : AuthError → A) (c : A)
    → ((e : AuthError) → P (b e))
    → P c
    → P (elim failed [ some e ↦ b e | none ↦ c ])
unless_failed-elim P none b c h k = k
unless_failed-elim P (some e) b c h k = h e

module _ (fl : Float64) (text : TimeText) where
  -- The settings of the limits are the same in both states.
  abbrev pub IsSameLimits : State fl text → State fl text → Type 0
  IsSameLimits s s' =
      (s'.stored_soc_target ≡ s.stored_soc_target) × (s'.stored_soc_min ≡ s.stored_soc_min)

  ensure_auth-IsSameLimits :
      (now : ℕ) (answers : AuthAnswers) (s : State fl text)
      → IsSameLimits s (ensure_auth fl text now answers s).0
  ensure_auth-IsSameLimits now answers s =
      let same = ensure_auth-car fl text now answers s in
      (
        ap (λ (c : Car fl text). c.stored_soc_target) same,
        ap (λ (c : Car fl text). c.stored_soc_min) same,
      )

  minimum-IsSafe :
      (target : ℤ) (answer : EndPoint → LevelAnswer) (s : State fl text)
      → IsSameLimits s (minimum fl text answer s).0.1
        × All (IsSafeWrite target) (minimum fl text answer s).1
  unfolding minimum read_min set_soc_level_cache get_soc_level
  minimum-IsSafe target answer s =
      let sent = read_levels-IsSafeWrite target answer paths in ground (arith, sent)

  -- What a call has stored: the limits are those of before if it has failed, and the target and a
  -- minimum above 0 if it has not.
  abbrev pub IsOutcome : ℤ → State fl text → TargetOutcome fl text → Type 0
  IsOutcome target s out = elim out.error [
    | some e ↦ IsSameLimits s out.state
    | none ↦
        (out.state.stored_soc_target ≡ some target)
        × (m : ℤ) × (out.state.stored_soc_min ≡ some m)
        × (is_positive m ≡ true)
  ]

  written-IsOutcome :
      (soc_min target : ℤ) (s : State fl text)
      → is_positive soc_min ≡ true
      → ((written fl text soc_min target s).stored_soc_target ≡ some target)
        × ((written fl text soc_min target s).stored_soc_min ≡ some soc_min)
  unfolding written set_cached_soc_target
  written-IsOutcome soc_min target s h = ground (arith, h)

  write_target-IsSafe :
      (answers : TargetAnswers) (soc_min target : ℤ) (s : State fl text)
      → is_positive soc_min ≡ true
      → IsOutcome target s (write_target fl text answers soc_min target s)
        × All (IsSafeWrite target) (write_target fl text answers soc_min target s).requests
  unfolding write_target written set_cached_soc_target put_soc_level
  write_target-IsSafe answers soc_min target s h =
      let sent = write_levels-IsSafeWrite target soc_min answers.put h paths in
      let sent_again = write_levels-IsSafeWrite target soc_min answers.put_again h paths in
      let dropped : State fl text = record s { jwt = 0 } in
      let same = ensure_auth-IsSameLimits answers.later answers.re_auth dropped in
      let (s1, failed) = ensure_auth fl text answers.later answers.re_auth dropped in
      let stored = written-IsOutcome soc_min target s h in
      let stored_again = written-IsOutcome soc_min target s1 h in
      let both = All-append (IsSafeWrite target) _ _ sent sent_again in
      outcome-elim
        (λ (out : TargetOutcome fl text).
          IsOutcome target s out × All (IsSafeWrite target) out.requests)
        (put_soc_level answers.put soc_min target).0 failed
        (put_soc_level answers.put_again soc_min target).0 _ _ _ _
        ((stored.0, soc_min, stored.1, h), sent) (λ e. (same, sent))
        ((stored_again.0, soc_min, stored_again.1, h), both) (same, both)

  -- The outcome of a call, and its writes.
  abbrev pub IsSafe : ℤ → State fl text → TargetOutcome fl text → Type 0
  IsSafe target s out = IsOutcome target s out × All (IsSafeWrite target) out.requests

  IsOutcome-after :
      (target : ℤ) (s s1 : State fl text)
      → IsSameLimits s s1
      → (state : State fl text) (error : Option TargetError) (requests : List Request)
      → IsOutcome target s1 (record { state = state; error = error; requests = requests })
      → IsOutcome target s (record { state = state; error = error; requests = requests })
  IsOutcome-after target s s1 h state none requests k = k
  IsOutcome-after target s s1 h state (some e) requests k = (k.0 ∙ h.0, k.1 ∙ h.1)

  with_min-IsSafe :
      (answers : TargetAnswers) (target : ℤ) (s : State fl text)
      (m : (Option ℤ × State fl text) × List Request)
      → IsSameLimits s m.0.1
      → All (IsSafeWrite target) m.1
      → IsSafe target s (with_min fl text answers target m)
  unfolding with_min
  with_min-IsSafe answers target s ((none, s1), sent) same k = (same, k)
  with_min-IsSafe answers target s ((some soc_min, s1), sent) same k =
      if-elim (IsSafe target s) (is_positive soc_min) _ _
        (λ e.
          let ih = write_target-IsSafe answers soc_min target s1 e in
          let out = write_target fl text answers soc_min target s1 in
          (
            IsOutcome-after target s s1 same out.state out.error (sent ++ out.requests) ih.0,
            All-append (IsSafeWrite target) sent out.requests k ih.1,
          ))
        (λ e. (same, k))

  -- SetSocTarget never sends a write that does not carry the target it is told and a minimum above 0.
  -- When it succeeds, the settings hold the target and a minimum above 0; when it fails, in whatever
  -- step, the limits in the settings are those of before.
  pub set_soc_target-IsSafe :
      (is_configured : Bool) (answers : TargetAnswers) (target : ℤ) (s : State fl text)
      → IsSafe target s (set_soc_target fl text is_configured answers target s)
  unfolding set_soc_target
  set_soc_target-IsSafe false answers target s = ((refl, refl), tt)
  set_soc_target-IsSafe true answers target s =
      let (s1, failed) = ensure_auth fl text answers.now answers.auth s in
      let same = ensure_auth-IsSameLimits answers.now answers.auth s in
      let found = minimum-IsSafe target answers.read s1 in
      let rest =
        with_min-IsSafe answers target s (minimum fl text answers.read s1)
          (found.0.0 ∙ same.0, found.0.1 ∙ same.1) found.1 in
      unless_failed-elim (IsSafe target s) failed _ _ (λ e. (same, tt)) rest
