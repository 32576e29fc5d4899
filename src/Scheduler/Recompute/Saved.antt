-- ===== src/Scheduler/Recompute/Saved.antt =====
-- recompute of internal/scheduler/scheduler.go and the schedule that is saved for the next start.
use grosz.Prelude.{◌≡◌, refl, inl, inr, Bool, Option, none, some, List, [], Option-cases, if_case}
use grosz.Std.{Float64, TimeText, Sorting, Calendar}
use grosz.Scheduler.Schedule.{Slot, Schedule}
use grosz.Scheduler.Profile.{active_slot}
use grosz.Scheduler.Compute.{Config}
use grosz.Scheduler.State.{SkipKey, Surroundings, State, Effect}
use grosz.Scheduler.Recompute.Apply.{Digest}
use grosz.Scheduler.Recompute.{
  config_from_store, refreshed, finish, preserve_active_slot, settle, outlook, plan,
  recompute_thawed, recompute,
}

module _ (fl : Float64) (text : TimeText) (digest : Digest fl) (sorting order_by : Sorting)
    (cal : Calendar) where
  -- The saved schedule is the current one.
  abbrev pub IsSaved : State fl text → Type 0
  IsSaved st = st.persisted ≡ st.current

  settle-IsSaved :
      (env : Surroundings fl text) (slot : Option (Slot fl)) (eligible has_forces : Bool)
      (reason : Option SkipKey) (merged : Option (Schedule fl)) (st : State fl text)
      → IsSaved
          (settle fl text sorting order_by cal digest env slot eligible has_forces reason merged
            st).0
  unfolding settle preserve_active_slot finish
  settle-IsSaved env none eligible has_forces reason none st = refl
  settle-IsSaved env (some slot) eligible has_forces reason none st = refl
  settle-IsSaved env none eligible has_forces reason (some sched) st = refl
  settle-IsSaved env (some slot) eligible has_forces reason (some sched) st = refl

  plan-IsSaved :
      (env : Surroundings fl text) (slot : Option (Slot fl)) (cfg : Config fl) (st : State fl text)
      → IsSaved st
      → IsSaved (plan fl text sorting order_by cal digest env slot cfg st).0
  unfolding plan outlook
  plan-IsSaved env slot cfg st h =
      let o = outlook fl text sorting order_by cal digest env cfg st in
      if_case (λ (r : State fl text × List (Effect fl text)). IsSaved r.0) o.no_rates (o.state, [])
        (settle fl text sorting order_by cal digest env slot o.eligible o.has_forces o.reason
          o.merged o.state)
        h (settle-IsSaved env slot o.eligible o.has_forces o.reason o.merged o.state)

  -- A recompute keeps the saved schedule the same as the current one, on every path: frozen, without
  -- a configuration or rates, skipped, preserving the slot in progress, or with a new schedule.
  pub recompute-IsSaved :
      (env : Surroundings fl text) (st : State fl text)
      → IsSaved st
      → IsSaved (recompute fl text sorting order_by cal digest env st).0
  unfolding recompute recompute_thawed
  recompute-IsSaved env st h =
      if_case (λ (r : State fl text × List (Effect fl text)). IsSaved r.0) _ _
        (recompute_thawed fl text sorting order_by cal digest env st) h
        (elim (Option-cases
          (elim st.config [ none ↦ config_from_store fl text env.settings | some k ↦ some k ])) [
            | inl n ↦ rw (n, recompute_thawed) h
            | inr (cfg, n) ↦
                rw (n, recompute_thawed)
                  (plan-IsSaved env (active_slot fl env.now st.current)
                    (refreshed fl text env.settings cfg)
                    (record st { recompute_frozen_txn_id = 0; last_recompute_at = env.now }) h)
          ])
