-- ===== src/Scheduler/Actions.antt =====
-- What a user, a session's end and the start of the program do to the schedule: CancelSlot,
-- RestoreSlot, ClearSchedule, ResetProfileState, SetConfig, ReloadConfig, UpdateLivePower and
-- loadPersistedSchedule of internal/scheduler/scheduler.go.
pub mod Days
pub mod Restart
pub mod Saved
use grosz.Prelude.{
  ℕ, Bool, true, false, not, ◌&&◌, ◌||◌, Option, none, some, List, [], ◌∷◌, ltb, ◌==◌,
  if◌then◌else◌, select, any,
}
use grosz.Prelude.Int.{pos}
use grosz.Std.{Float64, TimeText, Sorting, Calendar}
use grosz.Scheduler.Schedule.{Period, Slot, Schedule}
use grosz.Scheduler.Totals.{slot_totals, round_2}
use grosz.Scheduler.Compute.{Config}
use grosz.Scheduler.State.{Surroundings, State, Effect}
use grosz.Scheduler.Recompute.{recompute}
use grosz.Scheduler.Recompute.Apply.{Digest}
use grosz.Scheduler.Control.{Mode, Sight, Sent, Command, has_transaction, control_charging}

module _ (fl : Float64) where
  open fl use {Float, num, add, sub, div, lt}

  -- recalcTotals, of a schedule with these slots.
  pub with_slots : Schedule fl → List (Slot fl) → Schedule fl
  with_slots sched slots =
      let (cost, energy, _) = slot_totals fl (num (pos 0)) (num (pos 0)) 0 slots in
      record sched { slots = slots; cost = round_2 fl cost; energy = round_2 fl energy }

  -- The loops of CancelSlot and RestoreSlot: the first slot of the day that is not in the wanted
  -- state is put into it; `none` if there is no such slot.
  pub mark_day : Bool → ℕ → List (Slot fl) → Option (List (Slot fl))
  mark_day cancelled date [] = none
  mark_day cancelled date (s ∷ slots) =
      let rest : Option (List (Slot fl)) = elim (mark_day cancelled date slots) [
        | none ↦ none
        | some ss ↦ some (s ∷ ss)
      ] in
      if s.date == date && (if cancelled then not s.cancelled else s.cancelled)
      then some (record s { cancelled = cancelled } ∷ slots)
      else rest

  -- A slot with a period that ends after the instant.
  pub is_live : ℕ → Slot fl → Bool
  is_live now s = any (λ p. ltb now p.stop) s.periods

  module _ (text : TimeText) where
    -- The result of a call, with what controlCharging sends in the course of it.
    pub record Outcome : Type 0 where
      pub state : State fl text
      pub sent : Sent
      pub commands : List Command
      pub found : Bool

    -- CancelSlot and RestoreSlot differ in the flag that they look for and set; `mode` is the mode of
    -- the settings.
    pub mark_slot : Bool → Mode → Sight → ℕ → State fl text → Sent → Outcome
    unfolding mark_day with_slots
    mark_slot cancelled mode v date st sent =
        let not_found : Outcome = record {
          state = st;
          sent = sent;
          commands = [];
          found = false;
        } in
        elim st.current [
          | none ↦ not_found
          | some sched ↦ elim (mark_day cancelled date sched.slots) [
            | none ↦ not_found
            | some slots ↦
                let current : Option (Schedule fl) = some (with_slots sched slots) in
                let (sent', commands) = control_charging fl mode false current v sent in
                record {
                  state = record st { current = current; persisted = current };
                  sent = sent';
                  commands = commands;
                  found = true;
                }
          ]
        ]

    unfoldable pub cancel_slot : Mode → Sight → ℕ → State fl text → Sent → Outcome
    unfolding mark_slot
    cancel_slot mode v date st sent = mark_slot true mode v date st sent

    pub restore_slot : Mode → Sight → ℕ → State fl text → Sent → Outcome
    unfolding mark_slot
    restore_slot mode v date st sent = mark_slot false mode v date st sent

    -- ClearSchedule, and whether ClearChargingProfile is sent.
    unfoldable pub clear_schedule : Sight → State fl text → State fl text × Bool
    clear_schedule v st =
        let had_profile = not (st.last_profile_hash == 0) in
        (
          record st {
            current = none;
            persisted = none;
            config = none;
            skip_reason = none;
            last_profile_hash = 0;
          },
          v.has_charge_box && had_profile && v.connected && not (has_transaction v),
        )

    pub reset_profile_state : State fl text → State fl text
    reset_profile_state st = record st { last_profile_hash = 0; last_profile_sent = 0 }

    -- ReloadConfig, without the recompute that it asks the loop for.
    pub reload_config : State fl text → State fl text
    reload_config st = record st { config = none }

    -- loadPersistedSchedule: the saved schedule without the slots that are over, if one is left.
    pub load_persisted_schedule : ℕ → State fl text → State fl text
    unfolding is_live
    load_persisted_schedule now st = elim st.persisted [
      | none ↦ st
      | some sched ↦ elim (select (is_live now) sched.slots) [
        | [] ↦ st
        | s ∷ slots ↦ record st { current = some (record sched { slots = s ∷ slots }) }
      ]
    ]

    module _ (sorting order_by : Sorting) (cal : Calendar) (digest : Digest fl) where
      pub set_config :
          Surroundings fl text → Config fl → State fl text → State fl text × List (Effect fl text)
      set_config env cfg st =
          recompute fl text sorting order_by cal digest env (record st { config = some cfg })

      -- UpdateLivePower; as a float, its constant 0.10 is 1 / 10.
      pub update_live_power :
          Surroundings fl text → Float → State fl text → State fl text × List (Effect fl text)
      update_live_power env power st =
          let old = st.live_power in
          let st' : State fl text = record st { live_power = power } in
          let change = sub power old in
          let size = if lt change (num (pos 0)) then sub (num (pos 0)) change else change in
          let result = recompute fl text sorting order_by cal digest env st' in
          if lt (num (pos 0)) old && lt (div (num (pos 1)) (num (pos 10))) (div size old)
          then result
          else (st', [])
