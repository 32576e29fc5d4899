-- ===== src/Ocpp/Requests/Retry.antt =====
-- withRetry of internal/ocpp/requests.go: how often a request is sent, and what its last answer was.
use Prim.Native.String.{String}
use grosz.Prelude.{
  ℕ, zero, suc, ◌+◌, ◌≤◌, ◌<◌, ◌≡◌, ◌⊎◌, refl, subst, true, false, arith, inl, inr, Bool-cases,
}
use native.Mathlib.Decide.{dec_lt}
use grosz.Ocpp.Connector.{concat}
use grosz.Ocpp.Requests.{
  Exchange, unanswered, Outcome, is_timeout_err, retry, with_retry, exchanged, accepted_or,
  change_configuration,
}

-- A run of calls from an attempt on, of so many at most: all but the last timed out, the error is that
-- of the last, and the last did not time out unless it is the last that is allowed.
pub record IsRetried (fn : ℕ → Outcome) (first most : ℕ) (r : Outcome × ℕ) : Type 0 where
  pub last : ℕ
  pub calls : r.1 ≡ suc last
  pub enough : first ≤ last
  pub few : last ≤ first + most
  pub earlier : (i : ℕ) → first ≤ i → i < last → is_timeout_err (fn i).error ≡ true
  pub result : r.0.error ≡ (fn last).error
  pub settled : (last ≡ first + most) ⊎ (is_timeout_err (fn last).error ≡ false)

from_first :
    (P : ℕ → Type 0) (first last : ℕ)
    → P first
    → ((i : ℕ) → suc first ≤ i → i < last → P i)
    → (i : ℕ) → first ≤ i
    → i < last
    → P i
from_first P first last p rest i h k = elim (dec_lt first i) [
  | yes q ↦ rest i q k
  | no q ↦ let same : first ≡ i = omega arith in subst P same p
]

retry-IsRetried :
    (left : ℕ) (fn : ℕ → Outcome) (attempt : ℕ) → IsRetried fn attempt left (retry left fn attempt)
unfolding retry
retry-IsRetried zero fn attempt = record {
  last = attempt;
  calls = refl;
  enough = omega arith;
  few = omega arith;
  earlier = λ i h k. absurd (omega arith);
  result = refl;
  settled = inl (omega arith);
}
retry-IsRetried (suc left) fn attempt = elim (Bool-cases (is_timeout_err (fn attempt).error)) [
  | inr e ↦ rw e (record {
    last = attempt;
    calls = refl;
    enough = omega arith;
    few = omega arith;
    earlier = λ i h k. absurd (omega arith);
    result = refl;
    settled = inr e;
  })
  | inl e ↦
      let ih = retry-IsRetried left fn (suc attempt) in
      rw e (record {
        last = ih.last;
        calls = ih.calls;
        enough = omega (arith, ih.enough);
        few = omega (arith, ih.few);
        earlier = from_first (λ i. is_timeout_err (fn i).error ≡ true) attempt ih.last e ih.earlier;
        result = ih.result;
        settled = elim ih.settled [ inl p ↦ inl (omega (arith, p)) | inr q ↦ inr q ];
      })
]

-- What one attempt of ChangeConfiguration gives.
abbrev pub attempt_of : String → Exchange String → Outcome
attempt_of key answer =
    exchanged "ChangeConfiguration" (concat "timeout waiting for ChangeConfiguration " key)
      (accepted_or (concat "ChangeConfiguration " (concat key ": "))) answer

-- ChangeConfiguration sends at least one request and at most three. Every one but the last has timed
-- out, its result is that of the last, and the last has not timed out unless it is the third. A
-- request that is not answered in time counts as timed out, whatever the key is.
pub change_configuration-IsRetried :
    (key : String) (answers : ℕ → Exchange String)
    → IsRetried (λ i. attempt_of key (answers i)) 0 2 (change_configuration key answers)
      × (is_timeout_err (attempt_of key unanswered).error ≡ true)
unfolding change_configuration with_retry exchanged is_timeout_err
change_configuration-IsRetried key answers =
    (retry-IsRetried 2 (λ i. attempt_of key (answers i)) 0, refl)
