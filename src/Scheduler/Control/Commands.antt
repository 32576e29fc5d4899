-- ===== src/Scheduler/Control/Commands.antt =====
-- The commands that controlCharging of internal/scheduler/scheduler.go sends.
use grosz.Prelude.{ℕ, ◌≡◌, Bool, true, false, not, ◌&&◌, ◌||◌, Option, arith, any}
use grosz.Std.{Float64}
use grosz.Scheduler.Schedule.{Schedule}
use grosz.Scheduler.Profile.{is_charge_time}
use grosz.Scheduler.Control.{
  Mode, off, force, schedule, Sight, Sent, Command, remote_start, remote_stop, is_plugged_in,
  is_suspended_ev, is_cooling, is_vehicle_plug_blocked, record_plug_check_skip, send_start_forced,
  send_stop, checked_start, has_transaction, cleared, switch_mode, control_charging,
}

abbrev pub is_start : Command → Bool
is_start remote_start = true
is_start _ = false

abbrev pub is_stop : Command → Bool
is_stop (remote_stop _) = true
is_stop _ = false

-- The charger can be told something: it is known and connected, and the car has not ended the charge
-- by itself, unless a user asks.
abbrev pub is_reachable : Bool → Sight → Bool
is_reachable forced v =
    v.has_charge_box && v.connected && (forced || not (is_suspended_ev v.status))

-- The mode and the schedule want the car to charge.
abbrev pub wants_charge : (fl : Float64) → Mode → Option (Schedule fl) → ℕ → Bool
wants_charge fl off sched now = false
wants_charge fl force sched now = true
wants_charge fl schedule sched now = is_charge_time fl now sched

-- The mode and the schedule want a running charge to end.
abbrev pub wants_stop : (fl : Float64) → Mode → Option (Schedule fl) → Sight → Bool
wants_stop fl off sched v = true
wants_stop fl force sched v = false
wants_stop fl schedule sched v = is_plugged_in v.status && not (is_charge_time fl v.now sched)

-- The car's report of an unplugged cable is asked for, present and fresh.
abbrev pub is_blocked : Sight → Bool
is_blocked v = (is_vehicle_plug_blocked v).0

-- A start that the checks let through, and a stop, send what their names say and nothing else.
any-checked_start :
    (v : Sight) (s : Sent)
    → any is_start (checked_start v s).1
      ≡ (not (is_blocked v) && not (is_cooling s.last_start_sent v.now))
unfolding checked_start record_plug_check_skip send_start_forced is_vehicle_plug_blocked
any-checked_start v s = ground arith

any-checked_start_stop : (v : Sight) (s : Sent) → any is_stop (checked_start v s).1 ≡ false
unfolding checked_start record_plug_check_skip send_start_forced is_vehicle_plug_blocked
any-checked_start_stop v s = ground arith

any-send_stop :
    (v : Sight) (s : Sent)
    → (any is_start (send_stop v s).1 ≡ false)
      × (any is_stop (send_stop v s).1 ≡ not (is_cooling s.last_stop_sent v.now))
unfolding send_stop is_cooling
any-send_stop v s = ground arith

module _ (fl : Float64) (forced : Bool) (sched : Option (Schedule fl)) (v : Sight) (s : Sent) where
  -- A start is sent exactly if the charger is reachable, the car is plugged in with no transaction
  -- open, the mode and the schedule want a charge, the vehicle's plug check does not block it, and the
  -- last start was not sent within the cooldown.
  pub any-control_charging_start :
      (mode : Mode)
      → any is_start (control_charging fl mode forced sched v s).1 ≡ (
          is_reachable forced v
          && is_plugged_in v.status
          && not (has_transaction v)
          && wants_charge fl mode sched v.now
          && not (is_blocked v)
          && not (is_cooling s.last_start_sent v.now))
  unfolding control_charging switch_mode cleared
  any-control_charging_start off = ground (arith, any-send_stop v (cleared v s))
  any-control_charging_start force = ground (arith, any-checked_start v (cleared v s))
  any-control_charging_start schedule =
      ground (arith, any-send_stop v (cleared v s), any-checked_start v (cleared v s))

  -- A stop is sent exactly if the charger is reachable, a transaction is open, the mode and the
  -- schedule want it to end, and the last stop was not sent within the cooldown.
  pub any-control_charging_stop :
      (mode : Mode)
      → any is_stop (control_charging fl mode forced sched v s).1 ≡ (
          is_reachable forced v
          && has_transaction v
          && wants_stop fl mode sched v
          && not (is_cooling s.last_stop_sent v.now))
  unfolding control_charging switch_mode cleared
  any-control_charging_stop off = ground (arith, any-send_stop v (cleared v s))
  any-control_charging_stop force = ground (arith, any-checked_start_stop v (cleared v s))
  any-control_charging_stop schedule =
      ground (arith, any-send_stop v (cleared v s), any-checked_start_stop v (cleared v s))
