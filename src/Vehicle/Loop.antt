-- ===== src/Vehicle/Loop.antt =====
-- The poller of internal/vehicle/renault.go: loop, and the intervals that it reads. An instant that is
-- 0 is the zero time. What one turn of the loop waits for, the clock readings that it makes and what
-- the poll gives are told to it; the account is one test, whether all of its settings are there.
pub mod Turns
pub mod Cadence
use grosz.Prelude.{
  ℕ, ◌+◌, ◌*◌, Bool, true, false, not, ◌&&◌, ◌||◌, Option, none, some, ltb, ◌==◌, if◌then◌else◌,
}
use grosz.Prelude.Int.{ℤ, pos, negsuc, ltb_ℤ, sub_ℕ, later, wrap_int64}
use grosz.Std.{minute}

-- plugPollDelay.
abbrev pub plug_poll_delay : ℕ
plug_poll_delay = minute

-- The settings vehicle.poll_interval, vehicle.poll_interval_unplugged and vehicle.soc_level_interval,
-- where they are there.
pub record Settings : Type 0 where
  pub plugged : Option ℤ
  pub unplugged : Option ℤ
  pub soc_level : Option ℤ

-- A number of minutes from the settings, at least 1, as a time.Duration, which wraps around.
pub minutes : ℕ → Option ℤ → ℤ
minutes default none = pos (default * minute)
minutes default (some (negsuc n)) = pos minute
minutes default (some (pos m)) = wrap_int64 (pos ((if ltb m 1 then 1 else m) * minute))

abbrev pub poll_interval : Settings → ℤ
poll_interval settings = minutes 15 settings.plugged

abbrev pub poll_interval_unplugged : Settings → ℤ
poll_interval_unplugged settings = minutes 30 settings.unplugged

abbrev pub soc_level_interval : Settings → ℤ
soc_level_interval settings = minutes 30 settings.soc_level

-- nextInterval.
abbrev pub next_interval : Settings → Bool → ℤ
next_interval settings plugged =
    if plugged then poll_interval settings else poll_interval_unplugged settings

-- The variables of loop.
pub record LoopState : Type 0 where
  pub last_tier_b : ℕ
  pub plug_poll_at : ℕ
  pub next_poll_due : ℕ
  pub last_plugged : Bool

-- What the variables are when the loop starts.
abbrev pub started : ℕ → Bool → LoopState
started now plugged = record {
  last_tier_b = 0;
  plug_poll_at = 0;
  next_poll_due = now;
  last_plugged = plugged;
}

-- Which channel the turn has received from.
pub data Signal : Type 0 where
  trigger plug timer : Signal

-- The reason of a poll.
pub data Reason : Type 0 where
  triggered socket_event scheduled : Reason

pub record PollRequest : Type 0 where
  pub reason : Reason
  pub tier_b : Bool

-- One turn of the loop: the settings, the signal, and when it is handled; the reading of the clock
-- that decides about the slow tier; whether the car is plugged in, from a poll that succeeds; and the
-- readings after the poll.
pub record Turn : Type 0 where
  pub is_configured : Bool
  pub settings : Settings
  pub signal : Signal
  pub at : ℕ
  pub decided : ℕ
  pub plugged : Option Bool
  pub tier_b_at : ℕ
  pub done : ℕ

-- The next wake.
unfoldable pub wake : LoopState → ℕ
wake s =
    if not (s.plug_poll_at == 0) && ltb s.plug_poll_at s.next_poll_due
    then s.plug_poll_at
    else s.next_poll_due

-- The poll that a wake by the timer is for.
abbrev pub due_reason : ℕ → LoopState → Option Reason
due_reason now s =
    if not (s.plug_poll_at == 0) && not (ltb now s.plug_poll_at)
    then some socket_event
    else if not (ltb now s.next_poll_due)
    then some scheduled
    else none

-- Whether a poll includes the slow tier.
abbrev pub includes_tier_b : Bool → Turn → LoopState → Bool
includes_tier_b forced turn s =
    forced
    || (s.last_tier_b == 0)
    || not (ltb_ℤ (sub_ℕ turn.decided s.last_tier_b) (soc_level_interval turn.settings))

-- What a poll leaves in the variables.
pub after_poll : Bool → Turn → LoopState → LoopState
after_poll tier_b turn s =
    let plugged : Bool = elim turn.plugged [ none ↦ s.last_plugged | some p ↦ p ] in
    let ok : Bool = elim turn.plugged [ none ↦ false | some p ↦ true ] in
    record {
      last_tier_b = if ok && tier_b then turn.tier_b_at else s.last_tier_b;
      plug_poll_at = 0;
      next_poll_due = later turn.done (next_interval turn.settings plugged);
      last_plugged = plugged;
    }

abbrev pub poll_for : Reason → Bool → Turn → LoopState → LoopState × Option PollRequest
poll_for reason forced turn s =
    let tier_b = includes_tier_b forced turn s in
    (after_poll tier_b turn s, some (record { reason = reason; tier_b = tier_b }))

-- A turn of the loop: its variables, and the poll that it has made.
unfoldable pub turn_step : Turn → LoopState → LoopState × Option PollRequest
turn_step turn s = if not turn.is_configured then (s, none) else elim turn.signal [
  | trigger ↦ poll_for triggered true turn s
  | plug ↦ (record s { plug_poll_at = turn.at + plug_poll_delay }, none)
  | timer ↦ elim (due_reason turn.at s) [
    | none ↦ (s, none)
    | some reason ↦ poll_for reason false turn s
  ]
]
