-- ===== src/Ocpp/Requests.antt =====
-- internal/ocpp/requests.go: the requests that the server sends to a charge point. An error is its
-- text, and `none` is nil. What the transport does with a request, its callback included, is an
-- exchange; the contents of a request, which the exchange depends on, are not modelled.
pub mod Retry
use Prim.Native.String.{String}
use text.Mathlib.Text.{◌==◌ as same}
use Prim.Native.Char.{code}
use grosz.Prelude.{
  ℕ, zero, suc, ◌==◌, Bool, true, false, not, ◌||◌, Option, none, some, List, [], ◌∷◌, ◌++◌, ltb,
  if◌then◌else◌, put_by,
}
use grosz.Ocpp.Connector.{concat}

-- The library refused to send, or the answer was an error, was in time, or was not there in 30 s.
pub data Exchange {ℓ} (A : Type ℓ) : Type ℓ where
  not_sent : String → Exchange A
  failed : String → Exchange A
  confirmed : A → Exchange A
  unanswered : Exchange A

-- The events: the copy of a request that was sent, and the result of a request.
pub data RequestEvent : Type 0 where
  recorded : String → RequestEvent
  outbound : String → Option String → RequestEvent

pub record Outcome : Type 0 where
  pub error : Option String
  pub events : List RequestEvent

-- strings.Contains, by the prefixes of the tails.
abbrev pub has_prefix : String → String → Bool
has_prefix String.[] t = true
has_prefix (String.◌∷◌ c s) String.[] = false
has_prefix (String.◌∷◌ c s) (String.◌∷◌ d t) =
    let rest = has_prefix s t in if code c == code d then rest else false

abbrev pub contains : String → String → Bool
contains String.[] s = has_prefix s String.[]
contains (String.◌∷◌ c t) s = let rest = contains t s in has_prefix s (String.◌∷◌ c t) || rest

-- isTimeoutErr.
pub is_timeout_err : Option String → Bool
is_timeout_err none = false
is_timeout_err (some s) = contains s "timeout" || contains s "timed out"

-- maxRetries.
abbrev pub max_retries : ℕ
max_retries = 2

-- The loop of withRetry, with the retries that are left; `fn` is told the number of the attempt. It
-- returns what the last call gave, with the events of all, and the number of calls.
pub retry : ℕ → (ℕ → Outcome) → ℕ → Outcome × ℕ
retry zero fn attempt = (fn attempt, suc attempt)
retry (suc left) fn attempt =
    let next = retry left fn (suc attempt) in
    let again : Outcome × ℕ =
      (record { error = next.0.error; events = (fn attempt).events ++ next.0.events }, next.1) in
    if is_timeout_err (fn attempt).error then again else (fn attempt, suc attempt)

-- withRetry.
pub with_retry : (ℕ → Outcome) → Outcome × ℕ
unfolding retry
with_retry fn = retry max_retries fn 0

-- What every request does with its exchange: `action` is recorded once the request is sent, `check`
-- is what is made of the answer, and `waiting` is the text of the timeout.
pub exchanged {ℓ} : {A : Type ℓ} → String → String → (A → Option String) → Exchange A → Outcome
exchanged action waiting check (not_sent e) = record {
  error = some (concat "send " (concat action (concat ": " e)));
  events = [];
}
exchanged action waiting check (failed e) = record { error = some e; events = recorded action ∷ [] }
exchanged action waiting check (confirmed a) = record {
  error = check a;
  events = recorded action ∷ [];
}
exchanged action waiting check unanswered = record {
  error = some waiting;
  events = recorded action ∷ [];
}

-- emitOutboundResult, deferred.
pub with_result : String → Outcome → Outcome
with_result action o = record o { events = o.events ++ outbound action o.error ∷ [] }

-- An answer whose status is not "Accepted" is an error, with the text before the status.
pub accepted_or : String → String → Option String
accepted_or text status = if same status "Accepted" then none else some (concat text status)

-- A request that is an error only if it is answered "Rejected".
pub unless_rejected : String → String → Option String
unless_rejected text status = if same status "Rejected" then some text else none

-- ChangeConfiguration; `answers` has an exchange for each attempt.
pub change_configuration : String → (ℕ → Exchange String) → Outcome × ℕ
unfolding with_retry exchanged accepted_or is_timeout_err
change_configuration key answers = with_retry (λ attempt.
    exchanged "ChangeConfiguration" (concat "timeout waiting for ChangeConfiguration " key)
      (accepted_or (concat "ChangeConfiguration " (concat key ": "))) (answers attempt))

-- The map of GetConfiguration: a key without a value is left out, and a later value wins.
pub configuration_map :
    List (String × Option String) → List (String × String) → List (String × String)
configuration_map [] m = m
configuration_map ((k, none) ∷ kvs) m = configuration_map kvs m
configuration_map ((k, some v) ∷ kvs) m =
    configuration_map kvs (put_by (λ (e : String × String). same e.0 k) (k, v) m)

-- GetConfiguration: the map, empty on an error, and the outcome.
pub get_configuration : Exchange (List (String × Option String)) → List (String × String) × Outcome
unfolding configuration_map exchanged
get_configuration answer = (
  elim answer [ confirmed kvs ↦ configuration_map kvs [] | _ ↦ [] ],
  exchanged "GetConfiguration" "timeout waiting for GetConfiguration" (λ kvs. none) answer,
)

pub remote_start_transaction : Exchange String → Outcome
unfolding with_result exchanged accepted_or
remote_start_transaction answer = with_result "remoteStartRequested" (
    exchanged "RemoteStartTransaction" "timeout waiting for RemoteStartTransaction"
      (accepted_or "RemoteStartTransaction: ") answer)

pub remote_stop_transaction : Exchange String → Outcome
unfolding with_result exchanged accepted_or
remote_stop_transaction answer = with_result "remoteStopRequested" (
    exchanged "RemoteStopTransaction" "timeout waiting for RemoteStopTransaction"
      (accepted_or "RemoteStopTransaction: ") answer)

pub set_charging_profile : Exchange String → Outcome
unfolding with_result exchanged accepted_or
set_charging_profile answer = with_result "chargingProfileApplied" (
    exchanged "SetChargingProfile" "timeout waiting for SetChargingProfile"
      (accepted_or "SetChargingProfile: ") answer)

-- Any status is fine, also "Unknown".
pub clear_charging_profile : Exchange String → Outcome
unfolding with_result exchanged
clear_charging_profile answer = with_result "chargingProfileCleared" (
    exchanged "ClearChargingProfile" "timeout waiting for ClearChargingProfile" (λ status. none)
      answer)

pub change_availability : Exchange String → Outcome
unfolding exchanged unless_rejected
change_availability answer =
    exchanged "ChangeAvailability" "timeout waiting for ChangeAvailability"
      (unless_rejected "ChangeAvailability: rejected") answer

pub reset : Exchange String → Outcome
unfolding with_result exchanged accepted_or
reset answer =
    with_result "resetRequested"
      (exchanged "Reset" "timeout waiting for Reset" (accepted_or "Reset: ") answer)

pub clear_cache : Exchange String → Outcome
unfolding exchanged accepted_or
clear_cache answer =
    exchanged "ClearCache" "timeout waiting for ClearCache" (accepted_or "ClearCache: ") answer

-- The answer has no fields.
pub update_firmware : Exchange (Unit {0}) → Outcome
unfolding with_result exchanged
update_firmware answer =
    with_result "firmwareUpdateRequested"
      (exchanged "UpdateFirmware" "timeout waiting for UpdateFirmware" (λ conf. none) answer)

pub trigger_message : String → Exchange String → Outcome
unfolding exchanged unless_rejected
trigger_message message answer =
    exchanged "TriggerMessage" (concat "timeout waiting for TriggerMessage " message)
      (unless_rejected (concat "TriggerMessage " (concat message ": rejected"))) answer
