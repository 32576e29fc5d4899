-- ===== src/Scheduler/Recompute/Charging.antt =====
-- recompute of internal/scheduler/scheduler.go and a charge that is under way.
use grosz.Prelude.{
  ℕ, ◌≡◌, refl, inl, inr, Bool, true, Option, none, some, List, [], ◌∷◌, arith, any, Bool-cases,
  if_case, Option-cases,
}
use grosz.Std.{Float64, TimeText, Sorting, Calendar}
use grosz.Scheduler.Schedule.{Slot, Schedule}
use grosz.Scheduler.Profile.{is_active_slot, is_charge_time, active_slot, first_active}
use grosz.Scheduler.Compute.{Config}
use grosz.Scheduler.InProgress.{preserved_schedule}
use grosz.Scheduler.InProgress.Kept.{
  merge_active_slot_preserving_active-charges, preserved_schedule-charges,
}
use grosz.Scheduler.State.{SkipKey, Surroundings, State, Effect}
use grosz.Scheduler.Recompute.Apply.{Digest, apply_profile}
use grosz.Scheduler.Recompute.{
  config_from_store, refreshed, keep_cancellations, finish, preserve_active_slot, settle, outlook,
  plan, recompute_thawed, recompute,
}

module _ (fl : Float64) (text : TimeText) where
  abbrev Charges : Surroundings fl text → State fl text × List (Effect fl text) → Type 0
  Charges env r = is_charge_time fl env.now r.0.current ≡ true

  first_active_lem :
      (now : ℕ) (slots : List (Slot fl))
      → any (is_active_slot fl now) slots ≡ true
      → (s : Slot fl) × (first_active fl now slots ≡ some s) × (is_active_slot fl now s ≡ true)
  unfolding first_active
  first_active_lem now [] h = cc
  first_active_lem now (s ∷ slots) h = elim (Bool-cases (is_active_slot fl now s)) [
    | inl e ↦ (s, rw e, e)
    | inr e ↦ let (q, f, g) = first_active_lem now slots (rw e at h) in (q, rw (e, f), g)
  ]

  -- A schedule that charges now has a slot in progress.
  active_slot_lem :
      (now : ℕ) (sched : Option (Schedule fl))
      → is_charge_time fl now sched ≡ true
      → (s : Slot fl) × (active_slot fl now sched ≡ some s) × (is_active_slot fl now s ≡ true)
  unfolding is_charge_time active_slot
  active_slot_lem now none h = cc
  active_slot_lem now (some sched) h = first_active_lem now sched.slots h

  module _ (digest : Digest fl) where
    -- applyProfile changes only what it remembers of the last profile.
    apply_profile-current :
        (env : Surroundings fl text) (sched : Schedule fl) (st : State fl text)
        → (apply_profile fl text digest env sched st).0.current ≡ st.current
    unfolding apply_profile
    apply_profile-current env sched st = ground arith

    module _ (sorting order_by : Sorting) (cal : Calendar) where
      finish-current :
          (env : Surroundings fl text) (sched : Option (Schedule fl)) (st : State fl text)
          → (finish fl text sorting order_by cal digest env sched st).0.current ≡ st.current
      unfolding finish
      finish-current env none st = refl
      finish-current env (some sched) st = apply_profile-current env sched st

      -- With a slot in progress, whatever is planned, the outcome charges now.
      settle-charges :
          (env : Surroundings fl text) (slot : Slot fl) (eligible has_forces : Bool)
          (reason : Option SkipKey) (merged : Option (Schedule fl)) (st : State fl text)
          → is_active_slot fl env.now slot ≡ true
          → is_charge_time fl env.now
              (settle fl text sorting order_by cal digest env
                (some slot)
                eligible
                has_forces
                reason
                merged
                st).0.current
            ≡ true
      unfolding settle preserve_active_slot
      settle-charges env slot eligible has_forces reason none st h =
          rw (finish-current env (some (preserved_schedule fl slot)) _)
            (preserved_schedule-charges fl env.now slot h)
      settle-charges env slot eligible has_forces reason (some sched) st h =
          let kept = keep_cancellations fl text st.current sched in
          rw (finish-current env _ _)
            (merge_active_slot_preserving_active-charges fl sorting env.now (some kept) slot h)

      plan-charges :
          (env : Surroundings fl text) (slot : Slot fl) (cfg : Config fl) (st : State fl text)
          → is_active_slot fl env.now slot ≡ true
          → is_charge_time fl env.now st.current ≡ true
          → is_charge_time fl env.now
              (plan fl text sorting order_by cal digest env (some slot) cfg st).0.current
            ≡ true
      unfolding plan
      plan-charges env slot cfg st h c =
          let o = outlook fl text sorting order_by cal digest env cfg st in
          if_case (Charges env) o.no_rates (o.state, [])
            (settle fl text sorting order_by cal digest env (some slot) o.eligible o.has_forces
              o.reason o.merged o.state)
            c (settle-charges env slot o.eligible o.has_forces o.reason o.merged o.state h)

      recompute_thawed-charges :
          (env : Surroundings fl text) (st : State fl text)
          → is_charge_time fl env.now st.current ≡ true
          → is_charge_time fl env.now
              (recompute_thawed fl text sorting order_by cal digest env st).0.current
            ≡ true
      unfolding recompute_thawed
      recompute_thawed-charges env st c =
          let st' : State fl text = record st {
            recompute_frozen_txn_id = 0;
            last_recompute_at = env.now;
          } in
          let (slot, e, h) = active_slot_lem env.now st.current c in
          elim (Option-cases
            (elim st.config [ none ↦ config_from_store fl text env.settings | some k ↦ some k ])) [
              | inl n ↦ rw (n, recompute_thawed) c
              | inr (cfg, n) ↦
                  rw (n, e, recompute_thawed)
                    (plan-charges env slot (refreshed fl text env.settings cfg) st' h c)
            ]

      -- recompute never ends a charge that is under way: a schedule that charges at the present
      -- instant is left charging at that instant, whatever the connector, the settings, the state of
      -- charge, the tariff, the overrides and the charger's answer are.
      pub recompute-charges :
          (env : Surroundings fl text) (st : State fl text)
          → is_charge_time fl env.now st.current ≡ true
          → is_charge_time fl env.now
              (recompute fl text sorting order_by cal digest env st).0.current
            ≡ true
      unfolding recompute
      recompute-charges env st c = if_case (Charges env) _ _ _ c (recompute_thawed-charges env st c)
