-- ===== src/Scheduler/Actions/Saved.antt =====
-- Runs of calls of internal/scheduler/scheduler.go, and the saved schedule.
use grosz.Prelude.{ℕ, refl, inl, inr, Bool, true, false, some, List, [], ◌∷◌, Option-cases, if_case}
use grosz.Std.{Float64, TimeText, Sorting, Calendar}
use grosz.Scheduler.Compute.{Config}
use grosz.Scheduler.State.{Surroundings, State, Effect}
use grosz.Scheduler.Control.{Mode, Sight, Sent}
use grosz.Scheduler.Recompute.{recompute}
use grosz.Scheduler.Recompute.Apply.{Digest}
use grosz.Scheduler.Recompute.Saved.{IsSaved, recompute-IsSaved}
use grosz.Scheduler.Actions.{
  mark_day, mark_slot, cancel_slot, restore_slot, clear_schedule, reset_profile_state,
  reload_config, set_config, update_live_power,
}

module _ (fl : Float64) (text : TimeText) (digest : Digest fl) (sorting order_by : Sorting)
    (cal : Calendar) where
  open fl use {Float}

  -- A call of the scheduler, with what it is told.
  pub data Call : Type 0 where
    recomputing : Surroundings fl text → Call
    cancelling restoring : Mode → Sight → ℕ → Sent → Call
    clearing : Sight → Call
    resetting reloading : Call
    configuring : Surroundings fl text → Config fl → Call
    updating_power : Surroundings fl text → Float → Call

  pub perform : Call → State fl text → State fl text
  perform (recomputing env) st = (recompute fl text sorting order_by cal digest env st).0
  perform (cancelling mode v date sent) st = (cancel_slot fl text mode v date st sent).state
  perform (restoring mode v date sent) st = (restore_slot fl text mode v date st sent).state
  perform (clearing v) st = (clear_schedule fl text v st).0
  perform resetting st = reset_profile_state fl text st
  perform reloading st = reload_config fl text st
  perform (configuring env cfg) st = (set_config fl text sorting order_by cal digest env cfg st).0
  perform (updating_power env power) st =
      (update_live_power fl text sorting order_by cal digest env power st).0

  unfoldable pub perform_all : List Call → State fl text → State fl text
  unfolding perform
  perform_all [] st = st
  perform_all (c ∷ cs) st = perform_all cs (perform c st)

  abbrev Saved : State fl text → Type 0
  Saved st = IsSaved fl text digest sorting order_by cal st

  mark_slot-IsSaved :
      (cancelled : Bool) (mode : Mode) (v : Sight) (date : ℕ) (st : State fl text) (sent : Sent)
      → Saved st
      → Saved (mark_slot fl text cancelled mode v date st sent).state
  unfolding mark_slot
  mark_slot-IsSaved cancelled mode v date st sent h = elim (Option-cases st.current) [
    | inl e ↦ rw (e, mark_slot) h
    | inr (sched, e) ↦ elim (Option-cases (mark_day fl cancelled date sched.slots)) [
      | inl n ↦ rw (e, mark_slot, n) h
      | inr (slots, n) ↦ rw (e, mark_slot, n) refl
    ]
  ]

  perform-IsSaved : (c : Call) (st : State fl text) → Saved st → Saved (perform c st)
  unfolding perform cancel_slot restore_slot clear_schedule reset_profile_state reload_config
      set_config update_live_power
  perform-IsSaved (recomputing env) st h =
      recompute-IsSaved fl text digest sorting order_by cal env st h
  perform-IsSaved (cancelling mode v date sent) st h = mark_slot-IsSaved true mode v date st sent h
  perform-IsSaved (restoring mode v date sent) st h = mark_slot-IsSaved false mode v date st sent h
  perform-IsSaved (clearing v) st h = refl
  perform-IsSaved resetting st h = h
  perform-IsSaved reloading st h = h
  perform-IsSaved (configuring env cfg) st h =
      recompute-IsSaved fl text digest sorting order_by cal env (record st { config = some cfg }) h
  perform-IsSaved (updating_power env power) st h =
      if_case (λ (r : State fl text × List (Effect fl text)). Saved r.0) _ _ _
        (recompute-IsSaved fl text digest sorting order_by cal env
          (record st { live_power = power }) h)
        h

  -- Whatever sequence of recomputes, cancellations, restorations, clearings, new configurations and
  -- power readings the scheduler is put through, the saved schedule stays the same as the current one,
  -- so a restart of the program finds it.
  pub perform_all-IsSaved :
      (cs : List Call) (st : State fl text)
      → IsSaved fl text digest sorting order_by cal st
      → IsSaved fl text digest sorting order_by cal (perform_all cs st)
  unfolding perform_all
  perform_all-IsSaved [] st h = h
  perform_all-IsSaved (c ∷ cs) st h = perform_all-IsSaved cs (perform c st) (perform-IsSaved c st h)
