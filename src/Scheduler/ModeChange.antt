-- ===== src/Scheduler/ModeChange.antt =====
-- The change of the mode by a user, with its delay: RequestModeChange, applyPendingMode and
-- OnModeChanged of internal/scheduler/scheduler.go.
pub mod Commands
use grosz.Prelude.{ℕ, ◌+◌, ◌*◌, Bool, true, false, Option, none, some, List, [], ◌∷◌}
use grosz.Std.{Float64, TimeText, second}
use grosz.Scheduler.Schedule.{Schedule}
use grosz.Scheduler.State.{State}
use grosz.Scheduler.Actions.{clear_schedule}
use grosz.Scheduler.Control.{Mode, off, force, schedule, Sight, Sent, Command, control_charging}

-- modeChangeDebounce.
abbrev pub mode_change_debounce : ℕ
mode_change_debounce = 3 * second

-- The setting charger.mode, the pending mode, and when it is to be applied.
pub record Modes : Type 0 where
  pub mode : Mode
  pub pending : Option Mode
  pub pending_at : ℕ

-- RequestModeChange: the timer is set anew, so `pending_at` is also when it fires.
pub request_mode_change : ℕ → Mode → Modes → Modes
request_mode_change now new_mode m = record m {
  pending = some new_mode;
  pending_at = now + mode_change_debounce;
}

module _ (fl : Float64) where
  -- OnModeChanged, up to the recompute that it asks the loop for.
  pub on_mode_changed : Mode → Option (Schedule fl) → Sight → Sent → Sent × List Command
  on_mode_changed new_mode sched v sent =
      control_charging fl new_mode true sched v
        (record sent { last_start_sent = 0; last_stop_sent = 0 })

  module _ (text : TimeText) where
    pub record Change : Type 0 where
      pub modes : Modes
      pub state : State fl text
      pub sent : Sent
      pub commands : List Command
      pub profile_cleared : Bool

    -- The modes in which there is no schedule.
    pub cleared_for : Mode → Sight → State fl text → State fl text × Bool
    cleared_for off v st = clear_schedule fl text v st
    cleared_for force v st = clear_schedule fl text v st
    cleared_for schedule v st = (st, false)

    -- applyPendingMode, once a mode is pending.
    pub applied : Mode → Sight → Modes → State fl text → Sent → Change
    unfolding cleared_for on_mode_changed
    applied new_mode v m st sent =
        let (st', profile_cleared) = cleared_for new_mode v st in
        let (sent', commands) = on_mode_changed new_mode st'.current v sent in
        record {
          modes = record { mode = new_mode; pending = none; pending_at = 0 };
          state = st';
          sent = sent';
          commands = commands;
          profile_cleared = profile_cleared;
        }

    pub apply_pending_mode : Sight → Modes → State fl text → Sent → Change
    unfolding applied
    apply_pending_mode v m st sent = elim m.pending [
      | none ↦ record {
        modes = record m { pending = none; pending_at = 0 };
        state = st;
        sent = sent;
        commands = [];
        profile_cleared = false;
      }
      | some new_mode ↦ applied new_mode v m st sent
    ]
