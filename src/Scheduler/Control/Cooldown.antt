-- ===== src/Scheduler/Control/Cooldown.antt =====
-- Runs of controlCharging of internal/scheduler/scheduler.go, and the time between its starts.
use grosz.Prelude.{
  ℕ, ◌+◌, ◌≤◌, ◌<◌, ◌≡◌, sym, ◌∙◌, Bool, true, false, not, ◌&&◌, Option, List, [], ◌∷◌, arith,
  if◌then◌else◌, any, All, Ordered, All-map, Bool-cases, inl, inr,
}
use grosz.Std.{Float64}
use grosz.Scheduler.Schedule.{Schedule}
use grosz.Scheduler.Control.{
  Mode, off, force, schedule, Sight, Sent, is_plugged_in, is_cooling, is_vehicle_plug_blocked,
  record_plug_check_skip, send_start_forced, send_stop, checked_start, has_transaction, cleared,
  switch_mode, control_charging, remote_cmd_cooldown,
}
use grosz.Scheduler.Control.Commands.{
  is_start, is_reachable, wants_charge, is_blocked, any-control_charging_start,
}

-- `a` is the start that is remembered, and `now` that of the call.
later_same :
    (a b t : ℕ)
    → (0 < a → a + remote_cmd_cooldown ≤ t)
    → a ≡ b
    → 0 < b
    → b + remote_cmd_cooldown ≤ t
later_same a b t l e q = ground arith

later_now :
    (a now t : ℕ)
    → (0 < a → a + remote_cmd_cooldown ≤ t)
    → a ≡ now
    → 0 < now
    → now + remote_cmd_cooldown ≤ t
later_now a now t l e p = ground arith

later :
    (a now b t : ℕ)
    → (0 < a → a + remote_cmd_cooldown ≤ t)
    → a ≡ now
    → 0 < now
    → b + remote_cmd_cooldown ≤ now
    → b + remote_cmd_cooldown ≤ t
later a now b t l e p q = ground arith

module _ (fl : Float64) where
  -- A call of controlCharging, with what it is told.
  pub record Call : Type 0 where
    pub mode : Mode
    pub forced : Bool
    pub current : Option (Schedule fl)
    pub sight : Sight

  -- The times at which a run of calls sends a start.
  unfoldable pub starts : List Call → Sent → List ℕ
  starts [] s = []
  starts (c ∷ cs) s =
      let (s', commands) = control_charging fl c.mode c.forced c.current c.sight s in
      let rest = starts cs s' in if any is_start commands then c.sight.now ∷ rest else rest

  -- Plugged in with no transaction, at an instant after the zero time.
  abbrev pub IsWaiting : Call → Type 0
  IsWaiting c =
      (is_plugged_in c.sight.status ≡ true) × (has_transaction c.sight ≡ false) × (0 < c.sight.now)

  last_start_sent-checked_start :
      (v : Sight) (s : Sent)
      → (checked_start v s).0.last_start_sent
        ≡ (if any is_start (checked_start v s).1 then v.now else s.last_start_sent)
  unfolding checked_start record_plug_check_skip send_start_forced is_vehicle_plug_blocked
  last_start_sent-checked_start v s = ground arith

  -- What a call remembers of its start.
  last_start_sent-control_charging :
      (mode : Mode) (forced : Bool) (sched : Option (Schedule fl)) (v : Sight) (s : Sent)
      → is_plugged_in v.status ≡ true
      → has_transaction v ≡ false
      → (control_charging fl mode forced sched v s).0.last_start_sent ≡ (
          if any is_start (control_charging fl mode forced sched v s).1
          then v.now
          else s.last_start_sent)
  unfolding control_charging switch_mode cleared send_stop
  last_start_sent-control_charging off forced sched v s p n = ground arith
  last_start_sent-control_charging force forced sched v s p n =
      ground (arith, last_start_sent-checked_start v (cleared v s))
  last_start_sent-control_charging schedule forced sched v s p n =
      ground (arith, last_start_sent-checked_start v (cleared v s))

  -- After the start that is remembered, a start waits for the cooldown.
  abbrev IsLate : Sent → ℕ → Type 0
  IsLate s t = 0 < s.last_start_sent → s.last_start_sent + remote_cmd_cooldown ≤ t

  IsLate-start :
      (c : Call) (s : Sent)
      → any is_start (control_charging fl c.mode c.forced c.current c.sight s).1 ≡ true
      → IsLate s c.sight.now
  unfolding is_cooling
  IsLate-start c s h l =
      let e = any-control_charging_start fl c.forced c.current c.sight s c.mode in
      let cooling : is_cooling s.last_start_sent c.sight.now ≡ false =
        last_false (is_reachable c.forced c.sight) (is_plugged_in c.sight.status)
          (not (has_transaction c.sight)) (wants_charge fl c.mode c.current c.sight.now)
          (not (is_blocked c.sight)) (is_cooling s.last_start_sent c.sight.now) (sym h ∙ e) in
      ground arith
    where
      last_false : (a b c d e f : Bool) → true ≡ (a && b && c && d && e && not f) → f ≡ false
      last_false a b c d e f h = ground arith

  -- Of two starts, the later comes by the cooldown after the earlier.
  abbrev pub Spaced : List ℕ → Type 0
  Spaced times = Ordered (λ a b. a + remote_cmd_cooldown ≤ b) times

  starts-IsLate :
      (cs : List Call) (s : Sent)
      → All IsWaiting cs
      → All (IsLate s) (starts cs s) × Spaced (starts cs s)
  unfolding starts
  starts-IsLate [] s h = (tt, tt)
  starts-IsLate (c ∷ cs) s (w, ws) =
      let r = control_charging fl c.mode c.forced c.current c.sight s in
      let k = last_start_sent-control_charging c.mode c.forced c.current c.sight s w.0 w.1 in
      let (late, spaced) = starts-IsLate cs r.0 ws in
      elim (Bool-cases (any is_start r.1)) [
        | inr e ↦
            rw e (All-map (λ t l. later_same _ _ t l (rw e at k)) (starts cs r.0) late, spaced)
        | inl e ↦ rw e (
          (
            IsLate-start c s e,
            All-map (λ t l q. later _ _ _ t l (rw e at k) w.2 (IsLate-start c s e q))
                (starts cs r.0) late,
          ),
          (All-map (λ t l. later_now _ _ t l (rw e at k) w.2) (starts cs r.0) late, spaced),
        )
      ]

  -- While the car is plugged in and no transaction opens, two starts of a run of calls are at least
  -- the cooldown of five minutes apart, whatever modes, schedules and plug checks the calls see. The
  -- clock is past the zero time, and nothing clears the cooldown between the calls, as OnModeChanged
  -- does.
  pub starts-Spaced : (cs : List Call) (s : Sent) → All IsWaiting cs → Spaced (starts cs s)
  starts-Spaced cs s h = (starts-IsLate cs s h).1
