-- ===== src/Scheduler/Control.antt =====
-- controlCharging of internal/scheduler/scheduler.go: when the charger is told to start and to stop.
pub mod Commands
pub mod Cooldown
use grosz.Prelude.{
  ℕ, ◌+◌, ◌*◌, Bool, true, false, not, ◌&&◌, ◌||◌, Option, none, some, List, [], ◌∷◌, ◌++◌, ltb,
  ◌==◌, if◌then◌else◌,
}
use grosz.Prelude.Int.{ℤ, pos, ltb_ℤ, sub_ℕ, scale, wrap_int64}
use grosz.Std.{Float64, second, minute}
use grosz.Ocpp.Status.{Status, preparing, charging, suspended_ev, suspended_evse}
use grosz.Scheduler.Schedule.{Schedule}
use grosz.Scheduler.Profile.{is_charge_time}

-- charger.mode; any text but "off" and "force" is the schedule mode.
pub data Mode : Type 0 where
  off force schedule : Mode

abbrev pub is_plugged_in : Status → Bool
is_plugged_in preparing = true
is_plugged_in charging = true
is_plugged_in suspended_ev = true
is_plugged_in suspended_evse = true
is_plugged_in _ = false

abbrev pub is_suspended_ev : Status → Bool
is_suspended_ev suspended_ev = true
is_suspended_ev _ = false

-- remoteCmdCooldown.
abbrev pub remote_cmd_cooldown : ℕ
remote_cmd_cooldown = 5 * minute

pub data PlugSkip : Type 0 where
  no_timestamp stale_data : PlugSkip

-- What one call is told. `battery_timestamp` is `none` where the setting does not parse; a poll
-- interval below 0 counts like 0. `start_taken` is the charger's answer to a start.
pub record Sight : Type 0 where
  pub now : ℕ
  pub has_charge_box : Bool
  pub connected : Bool
  pub status : Status
  pub txn_id : ℕ
  pub require_plug_check : Bool
  pub plug_status_is_0 : Bool
  pub battery_timestamp : Option ℕ
  pub poll_interval : ℤ
  pub start_taken : Bool

-- The zero time is 0.
pub record Sent : Type 0 where
  pub last_start_sent : ℕ
  pub last_stop_sent : ℕ

-- Calls of the charger, the chart's marker, and the events that are not about a call's outcome.
pub data Command : Type 0 where
  remote_start : Command
  remote_stop : ℕ → Command
  start_marker : Command
  plug_blocked : Command
  plug_skipped : PlugSkip → Command

-- isVehiclePlugBlocked: blocked, and why the check was passed over.
pub is_vehicle_plug_blocked : Sight → Bool × Option PlugSkip
is_vehicle_plug_blocked v =
    let age = wrap_int64 (scale v.poll_interval (2 * minute)) in
    let max_age = if ltb_ℤ age (pos (30 * minute)) then pos (30 * minute) else age in
    if not v.require_plug_check
    then (false, none)
    else if not v.plug_status_is_0
    then (false, none)
    else elim v.battery_timestamp [
      | none ↦ (false, some no_timestamp)
      | some parsed ↦
          if ltb_ℤ max_age (sub_ℕ v.now parsed) then (false, some stale_data) else (true, none)
    ]

-- The time since a command was sent is within the cooldown.
unfoldable pub is_cooling : ℕ → ℕ → Bool
is_cooling sent now = not (sent == 0) && ltb now (sent + remote_cmd_cooldown)

pub record_plug_check_skip : Option PlugSkip → Sight → Sent → List Command
unfolding is_cooling
record_plug_check_skip none v s = []
record_plug_check_skip (some reason) v s =
    if is_cooling s.last_start_sent v.now then [] else plug_skipped reason ∷ []

pub send_start_forced : Sight → Sent → Sent × List Command
unfolding is_cooling
send_start_forced v s = if is_cooling s.last_start_sent v.now then (s, []) else (
  record s { last_start_sent = v.now },
  remote_start ∷ (if v.start_taken then start_marker ∷ [] else []),
)

pub send_stop : Sight → Sent → Sent × List Command
unfolding is_cooling
send_stop v s =
    if is_cooling s.last_stop_sent v.now
    then (s, [])
    else (record s { last_stop_sent = v.now }, remote_stop v.txn_id ∷ [])

-- A start, unless the vehicle's plug check blocks it.
pub checked_start : Sight → Sent → Sent × List Command
checked_start v s =
    let (blocked, reason) = is_vehicle_plug_blocked v in
    let (s', commands) = send_start_forced v s in
    if blocked then (s, plug_blocked ∷ []) else (s', record_plug_check_skip reason v s ++ commands)

abbrev pub has_transaction : Sight → Bool
has_transaction v = ltb 0 v.txn_id

-- The cooldowns that the connector's state has made moot are cleared.
pub cleared : Sight → Sent → Sent
cleared v s = record {
  last_start_sent =
      if has_transaction v || not (is_plugged_in v.status) then 0 else s.last_start_sent;
  last_stop_sent = if not (has_transaction v) then 0 else s.last_stop_sent;
}

module _ (fl : Float64) where
  -- The switch on the mode.
  pub switch_mode : Mode → Option (Schedule fl) → Sight → Sent → Sent × List Command
  switch_mode off sched v s = if has_transaction v then send_stop v s else (s, [])
  switch_mode force sched v s =
      if is_plugged_in v.status && not (has_transaction v) then checked_start v s else (s, [])
  switch_mode schedule sched v s =
      let should_charge = is_charge_time fl v.now sched in
      if not (is_plugged_in v.status)
      then (s, [])
      else if should_charge && not (has_transaction v)
      then checked_start v s
      else if not should_charge && has_transaction v
      then send_stop v s
      else (s, [])

  -- controlChargingInternal.
  pub control_charging : Mode → Bool → Option (Schedule fl) → Sight → Sent → Sent × List Command
  control_charging mode forced sched v s =
      if not v.has_charge_box
      then (s, [])
      else if not v.connected
      then (s, [])
      else if is_suspended_ev v.status && not forced
      then (cleared v s, [])
      else switch_mode mode sched v (cleared v s)
