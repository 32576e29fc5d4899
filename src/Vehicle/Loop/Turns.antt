-- ===== src/Vehicle/Loop/Turns.antt =====
-- Runs of the poller of internal/vehicle/renault.go, and which of its polls are too early.
use grosz.Prelude.{ℕ, ◌+◌, ◌≤◌, ◌≡◌, ◌⊎◌, Bool, true, false, Option, none, some, List, [], ◌∷◌}
use grosz.Std.{minute}
use grosz.Vehicle.Loop.{
  Turn, LoopState, Signal, trigger, plug, timer, Reason, triggered, socket_event, scheduled,
  PollRequest, turn_step,
}

-- The variables after turns that follow each other.
unfoldable pub run : List Turn → LoopState → LoopState
run [] s = s
run (t ∷ ts) s = run ts (turn_step t s).0

abbrev pub has_poll : Option PollRequest → Bool
has_poll none = false
has_poll (some r) = true

-- No turn makes a poll.
unfoldable pub IsQuiet : List Turn → LoopState → Type 0
IsQuiet [] s = Unit
IsQuiet (t ∷ ts) s = (has_poll (turn_step t s).1 ≡ false) × IsQuiet ts (turn_step t s).0

-- The clock does not run backwards, from an instant on.
abbrev pub IsForward : ℕ → List Turn → Type 0
IsForward now [] = Unit
IsForward now (t ∷ ts) = (now ≤ t.at) × (t.at ≤ t.done) × IsForward t.done ts

abbrev pub is_triggered : Reason → Bool
is_triggered triggered = true
is_triggered socket_event = false
is_triggered scheduled = false

-- A poll that nobody has asked for does not happen before an instant.
abbrev pub IsAllowed : ℕ → Turn → Option PollRequest → Type 0
IsAllowed first t none = Unit
IsAllowed first t (some r) = (is_triggered r.reason ≡ true) ⊎ (first ≤ t.at)

-- The instant before which the next poll is too early: a minute after one that is made.
abbrev pub first_after : ℕ → Turn → Option PollRequest → ℕ
first_after first t none = first
first_after first t (some r) = t.done + minute

-- Every poll that nobody has asked for happens at least a minute after the poll before it.
unfoldable pub IsPaced : ℕ → List Turn → LoopState → Type 0
IsPaced first [] s = Unit
IsPaced first (t ∷ ts) s =
    IsAllowed first t (turn_step t s).1
    × IsPaced (first_after first t (turn_step t s).1) ts (turn_step t s).0

abbrev pub reason_of : Option PollRequest → Option Reason
reason_of none = none
reason_of (some r) = some r.reason

abbrev pub is_plug : Signal → Bool
is_plug trigger = false
is_plug plug = true
is_plug timer = false
