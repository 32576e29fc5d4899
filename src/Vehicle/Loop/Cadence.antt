-- ===== src/Vehicle/Loop/Cadence.antt =====
-- How often, and how soon, the poller of internal/vehicle/renault.go polls.
use grosz.Prelude.{
  ℕ, ◌+◌, ◌*◌, ◌≤◌, ◌≡◌, ◌⊎◌, refl, ◌∙◌, inl, Bool, true, false, Option, none, some, List, [], ◌∷◌,
  All, arith, ltb, if◌then◌else◌,
}
use grosz.Prelude.Int.{ℤ, pos, negsuc, later, wrap_int64-small}
use grosz.Std.{minute}
use grosz.Vehicle.Loop.{
  Settings, minutes, next_interval, LoopState, started, plug, timer, socket_event, PollRequest,
  Turn, wake, after_poll, turn_step, plug_poll_delay,
}
use grosz.Vehicle.Loop.Turns.{
  run, reason_of, is_plug, has_poll, IsQuiet, IsForward, IsAllowed, first_after, IsPaced,
}

-- A number of minutes whose nanoseconds an int64 holds.
abbrev pub IsMinutes : Option ℤ → Type 0
IsMinutes none = Unit
IsMinutes (some (pos m)) = m ≤ 153_722_867
IsMinutes (some (negsuc n)) = Unit

-- The settings of the two intervals are such numbers.
abbrev pub IsInRange : Settings → Type 0
IsInRange settings = IsMinutes settings.plugged × IsMinutes settings.unplugged

later-minutes :
    (default : ℕ) (m : Option ℤ) (t : ℕ)
    → 1 ≤ default
    → IsMinutes m
    → t + minute ≤ later t (minutes default m)
unfolding minutes
later-minutes default none t h k = omega arith
later-minutes default (some (negsuc n)) t h k = omega arith
later-minutes default (some (pos m)) t h k =
    let n : ℕ = if ltb m 1 then 1 else m in
    let low : 1 ≤ n = ground arith in
    let high : n ≤ 153_722_867 = ground arith in
    rw (wrap_int64-small (n * minute) (omega (arith, high))) (omega (arith, low))

later-next_interval :
    (settings : Settings) (plugged : Bool) (t : ℕ)
    → IsInRange settings
    → t + minute ≤ later t (next_interval settings plugged)
later-next_interval settings true t k = later-minutes 15 settings.plugged t (omega arith) k.0
later-next_interval settings false t k = later-minutes 30 settings.unplugged t (omega arith) k.1

-- Neither the scheduled poll nor the one after a socket event is too early.
abbrev IsSpaced : ℕ → LoopState → Type 0
IsSpaced first s = (first ≤ s.next_poll_due) × ((s.plug_poll_at ≡ 0) ⊎ (first ≤ s.plug_poll_at))

turn_step-IsSpaced :
    (first now : ℕ) (t : Turn) (s : LoopState)
    → first ≤ now + minute
    → now ≤ t.at
    → IsInRange t.settings
    → IsSpaced first s
    → IsSpaced (first_after first t (turn_step t s).1) (turn_step t s).0
unfolding turn_step after_poll
turn_step-IsSpaced first now t s h k range i =
    let on = later-minutes 15 t.settings.plugged t.done (omega arith) range.0 in
    let off = later-minutes 30 t.settings.unplugged t.done (omega arith) range.1 in ground arith

turn_step-IsAllowed :
    (first : ℕ) (t : Turn) (s : LoopState) → IsSpaced first s → IsAllowed first t (turn_step t s).1
unfolding turn_step
turn_step-IsAllowed first t s i = ground arith

first_after-≤ :
    (first now : ℕ) (t : Turn) (r : Option PollRequest)
    → first ≤ now + minute
    → now ≤ t.at
    → t.at ≤ t.done
    → first_after first t r ≤ t.done + minute
first_after-≤ first now t none h k l = omega arith
first_after-≤ first now t (some r) h k l = omega arith

turns-IsPaced :
    (first now : ℕ) (ts : List Turn) (s : LoopState)
    → first ≤ now + minute
    → IsForward now ts
    → All (λ (t : Turn). IsInRange t.settings) ts
    → IsSpaced first s
    → IsPaced first ts s
unfolding IsPaced
turns-IsPaced first now [] s h f range i = tt
turns-IsPaced first now (t ∷ ts) s h f range i = (
  turn_step-IsAllowed first t s i,
  turns-IsPaced (first_after first t (turn_step t s).1) t.done ts (turn_step t s).0
      (first_after-≤ first now t (turn_step t s).1 h f.0 f.1) f.2 range.1
      (turn_step-IsSpaced first now t s h f.0 range.0 i),
)

-- From its start on, the poller makes no poll of its own less than a minute after the end of the poll
-- before it, whichever signals arrive, and whether its polls succeed or fail. The clock does not run
-- backwards, and the settings of the intervals are at most 153722867 minutes, above which their
-- nanoseconds would wrap around.
pub loop-IsPaced :
    (now : ℕ) (plugged : Bool) (ts : List Turn)
    → IsForward now ts
    → All (λ (t : Turn). IsInRange t.settings) ts
    → IsPaced now ts (started now plugged)
loop-IsPaced now plugged ts f range =
    turns-IsPaced now now ts (started now plugged) (omega arith) f range (omega arith, inl refl)

-- A turn without a poll leaves the next scheduled poll where it is.
quiet_step-due :
    (t : Turn) (s : LoopState)
    → has_poll (turn_step t s).1 ≡ false
    → (turn_step t s).0.next_poll_due ≡ s.next_poll_due
unfolding turn_step
quiet_step-due t s h = ground (arith, h)

quiet-due :
    (ts : List Turn) (s : LoopState) → IsQuiet ts s → (run ts s).next_poll_due ≡ s.next_poll_due
unfolding run IsQuiet
quiet-due [] s h = refl
quiet-due (t ∷ ts) s h = quiet-due ts (turn_step t s).0 h.1 ∙ quiet_step-due t s h.0

-- The next wake is no later than the next scheduled poll.
wake-due : (s : LoopState) → wake s ≤ s.next_poll_due
unfolding wake
wake-due s = ground arith

-- A wake of the timer that is due makes a poll.
turn_step-wake :
    (t : Turn) (s : LoopState)
    → t.is_configured ≡ true
    → t.signal ≡ timer
    → wake s ≤ t.at
    → has_poll (turn_step t s).1 ≡ true
unfolding turn_step wake
turn_step-wake t s c e h = ground (arith, c, e, h)

-- After turns that make no poll, the wake that the timer is set for is no later than the poll that was
-- scheduled before them, so no run of socket events puts it off; and when the timer fires at that
-- wake, or later, a poll is made.
pub loop-wakes :
    (ts : List Turn) (s : LoopState)
    → IsQuiet ts s
    → (t : Turn) → t.is_configured ≡ true
    → t.signal ≡ timer
    → wake (run ts s) ≤ t.at
    → (wake (run ts s) ≤ s.next_poll_due) × (has_poll (turn_step t (run ts s)).1 ≡ true)
loop-wakes ts s q t c e h =
    let same = quiet-due ts s q in
    let soon = wake-due (run ts s) in (omega (arith, same, soon), turn_step-wake t (run ts s) c e h)

quiet_step-plug :
    (t : Turn) (s : LoopState)
    → has_poll (turn_step t s).1 ≡ false
    → is_plug t.signal ≡ false
    → (turn_step t s).0.plug_poll_at ≡ s.plug_poll_at
unfolding turn_step
quiet_step-plug t s h k = ground (arith, h, k)

quiet-plug :
    (ts : List Turn) (s : LoopState)
    → IsQuiet ts s
    → All (λ (t : Turn). is_plug t.signal ≡ false) ts
    → (run ts s).plug_poll_at ≡ s.plug_poll_at
unfolding run IsQuiet
quiet-plug [] s h k = refl
quiet-plug (t ∷ ts) s h k = quiet-plug ts (turn_step t s).0 h.1 k.1 ∙ quiet_step-plug t s h.0 k.0

turn_step-plug :
    (p : Turn) (s : LoopState)
    → p.is_configured ≡ true
    → p.signal ≡ plug
    → (turn_step p s).0.plug_poll_at ≡ p.at + plug_poll_delay
unfolding turn_step
turn_step-plug p s c e = rw (c, e) refl

turn_step-socket :
    (t : Turn) (s : LoopState)
    → t.is_configured ≡ true
    → t.signal ≡ timer
    → 1 ≤ s.plug_poll_at
    → s.plug_poll_at ≤ t.at
    → reason_of (turn_step t s).1 ≡ some socket_event
unfolding turn_step
turn_step-socket t s c e h k = ground (arith, c, e)

-- After a socket event, and turns that make no poll and bring no other socket event, a wake of the
-- timer a minute after the event, or later, makes a poll for the reason of that event.
pub loop-socket :
    (p : Turn) (s : LoopState)
    → p.is_configured ≡ true
    → p.signal ≡ plug
    → (ts : List Turn) → IsQuiet ts (turn_step p s).0
    → All (λ (t : Turn). is_plug t.signal ≡ false) ts
    → (t : Turn) → t.is_configured ≡ true
    → t.signal ≡ timer
    → p.at + plug_poll_delay ≤ t.at
    → reason_of (turn_step t (run ts (turn_step p s).0)).1 ≡ some socket_event
loop-socket p s c e ts q n t ct et h =
    let at = quiet-plug ts (turn_step p s).0 q n ∙ turn_step-plug p s c e in
    turn_step-socket t (run ts (turn_step p s).0) ct et (omega (arith, at)) (omega (arith, at, h))
