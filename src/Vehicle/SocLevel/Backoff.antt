-- ===== src/Vehicle/SocLevel/Backoff.antt =====
-- pollTierB of internal/vehicle/renault.go after the server has answered 429: the quiet hour.
use grosz.Prelude.{
  ℕ, ◌+◌, ◌*◌, ◌/◌, ◌<◌, ◌≡◌, refl, true, false, some, List, [], ◌∷◌, ◌++◌, arith, All, inl, inr,
  Bool-cases,
}
use grosz.Std.{TimeText, Float64, second}
use grosz.Vehicle.Renault.{State}
use grosz.Vehicle.SocLevel.{
  EndPoint, LevelAnswer, rate_limited, Request, get_soc_level, soc_level_backed_off,
  should_fetch_soc_level, soc_level_backoff, poll_soc_level,
}

-- A poll: when it happens, and what the API would answer.
abbrev pub Poll : Type 0
Poll = ℕ × (EndPoint → LevelAnswer)

module _ (fl : Float64) (text : TimeText) where
  open text use {format, parse, parse-format}

  -- The requests of polls that follow each other.
  pub requests_of : List Poll → State fl text → List Request
  unfolding poll_soc_level
  requests_of [] s = []
  requests_of (p ∷ ps) s =
      let next = poll_soc_level fl text p.0 p.1 s in next.1 ++ requests_of ps next.0

  is_backed_off :
      (until now : ℕ) (s : State fl text)
      → s.soc_level_backoff_until ≡ some (format until)
      → now < until / second * second
      → soc_level_backed_off fl text now s ≡ true
  unfolding soc_level_backed_off
  is_backed_off until now s h k =
      rw (soc_level_backed_off, h, parse-format until) (ground (arith, k))

  backed_off-quiet :
      (until : ℕ) (s : State fl text)
      → s.soc_level_backoff_until ≡ some (format until)
      → (p : Poll) → p.0 < until / second * second
      → poll_soc_level fl text p.0 p.1 s ≡ (s, [])
  unfolding poll_soc_level
  backed_off-quiet until s h p k =
      let e = is_backed_off until p.0 s h k in
      elim (Bool-cases (should_fetch_soc_level fl text p.0 s)) [
        | inl f ↦ rw (f, e) refl
        | inr f ↦ rw f refl
      ]

  requests_of-quiet :
      (until : ℕ) (s : State fl text)
      → s.soc_level_backoff_until ≡ some (format until)
      → (ps : List Poll) → All (λ (p : Poll). p.0 < until / second * second) ps
      → requests_of ps s ≡ []
  unfolding requests_of
  requests_of-quiet until s h [] k = refl
  requests_of-quiet until s h (p ∷ ps) k =
      rw (backed_off-quiet until s h p k.0) (requests_of-quiet until s h ps k.1)

  -- Once a poll has asked for the limits and was answered 429, no later poll sends a request for
  -- them, as long as it happens before the end of the hour that follows, cut to a whole second.
  pub poll_soc_level-backoff :
      (now : ℕ) (answer : EndPoint → LevelAnswer) (s : State fl text)
      → should_fetch_soc_level fl text now s ≡ true
      → soc_level_backed_off fl text now s ≡ false
      → (get_soc_level answer).0 ≡ rate_limited
      → (ps : List Poll) → All (λ (p : Poll). p.0 < (now + soc_level_backoff) / second * second) ps
      → requests_of ps (poll_soc_level fl text now answer s).0 ≡ []
  unfolding poll_soc_level
  poll_soc_level-backoff now answer s due free limited ps k =
      requests_of-quiet (now + soc_level_backoff) _ (rw (due, free, limited) refl) ps k
