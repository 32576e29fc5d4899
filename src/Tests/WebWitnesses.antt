-- ===== src/Tests/WebWitnesses.antt =====
-- The theorems about the sessions of internal/web/sessions.go and about the requests of
-- internal/ocpp/requests.go, at concrete inputs.
use Prim.Native.String.{String}
use grosz.Prelude.{
  ℕ, ◌*◌, ◌/◌, ◌≡◌, refl, true, none, some, [], ◌∷◌, ltb, leb, ◌==◌, if◌then◌else◌, arith,
}
use grosz.Prelude.Int.{pos, later}
use grosz.Web.Texts.{Text, before, DayText, day}
use grosz.Web.Sessions.{create_session, lookup_session, session_lifetime}
use grosz.Web.Sessions.Expiry.{lookup_session-create_session}
use grosz.Ocpp.Requests.{Exchange, confirmed, unanswered, is_timeout_err, change_configuration}
use grosz.Ocpp.Requests.Retry.{IsRetried, attempt_of, change_configuration-IsRetried}

-- The text of a day: its number, and nine more bytes.
abbrev day_bytes : ℕ → Text
day_bytes d = d ∷ 0 ∷ 0 ∷ 0 ∷ 0 ∷ 0 ∷ 0 ∷ 0 ∷ 0 ∷ 0 ∷ []

before-day_bytes : (d e : ℕ) → before (day_bytes d) (day_bytes e) ≡ ltb d e
unfolding before
before-day_bytes d e = ground arith

abbrev numbered_days : DayText
numbered_days = record {
  day_text = day_bytes;
  length-day_text = λ d. refl;
  before-day_text = before-day_bytes;
  clock_text = λ c. [];
  parse_rfc3339 = λ t. none;
  parse_datetime = λ t. none;
}

lookup_session-create_session_example :
    (lookup_session numbered_days
      (pos 14)
      (15 * day)
      7
      (create_session numbered_days (pos 14) (day / 2) 7 1 2 []).0).0
    ≡ (if leb (15 * day / day) ((later (day / 2) (session_lifetime (pos 14))) / day)
        then some 1
        else none)
lookup_session-create_session_example =
    lookup_session-create_session numbered_days (pos 14) (pos 14) (day / 2) (15 * day) 7 1 2 []
      (omega arith) refl

-- The first request is not answered, the second one is.
abbrev second_answer : ℕ → Exchange String
second_answer i = if i == 0 then unanswered else confirmed "Accepted"

change_configuration-IsRetried_example :
    IsRetried
      (λ i. attempt_of "HeartbeatInterval" (second_answer i))
      0
      2
      (change_configuration "HeartbeatInterval" second_answer)
    × (is_timeout_err (attempt_of "HeartbeatInterval" unanswered).error ≡ true)
change_configuration-IsRetried_example =
    change_configuration-IsRetried "HeartbeatInterval" second_answer
