-- ===== src/Scheduler/Recompute.antt =====
-- recompute of internal/scheduler/scheduler.go, with detectMissedPeriods, configFromStore and
-- preserveActiveSlot. The mutex guards fields that only the scheduler's loop and short accessors
-- write, so a call is one step on the state.
pub mod Apply
pub mod Charging
pub mod Saved
pub mod Frozen
use grosz.Prelude.{
  ℕ, ◌-◌, ◌*◌, Bool, true, false, not, ◌&&◌, ◌||◌, Option, none, some, List, [], ◌∷◌, ◌++◌, map,
  ltb, ◌==◌, if◌then◌else◌, select, any,
}
use grosz.Prelude.Int.{pos}
use grosz.Std.{Float64, TimeText, Sorting, Calendar, hour}
use grosz.Tariff.{Rate}
use grosz.Store.Overrides.{ScheduleOverride, load_overrides, purge_old_overrides}
use grosz.Scheduler.Schedule.{Period, Slot, Schedule, active_periods}
use grosz.Scheduler.Totals.{next_deadline_after, slot_totals, round_2}
use grosz.Scheduler.Profile.{active_slot}
use grosz.Scheduler.Fragment.{fragment_rates}
use grosz.Scheduler.Forces.{
  split_overrides, build_force_periods, total_force_energy, merge_forces_into_schedule,
}
use grosz.Scheduler.Compute.{Config, compute_schedule}
use grosz.Scheduler.InProgress.{preserved_schedule, merge_active_slot_preserving_active}
use grosz.Scheduler.State.{
  SkipKey, soc_above_threshold, covered_by_overrides, no_energy_needed, no_affordable_rates,
  no_rates_below_price, Settings, Surroundings, State, Effect, missed_period, frozen, recomputed,
}
use Apply.{Digest, apply_profile}

abbrev is_empty {ℓ} : {A : Type ℓ} → List A → Bool
is_empty [] = true
is_empty (_ ∷ _) = false

module _ (fl : Float64) (text : TimeText) where
  open fl use {Float, num, sub, mul, div, lt, le, eq}

  -- EffectiveTargetSoC.
  effective_target_soc : Settings fl text → Float
  effective_target_soc s =
      if lt (num (pos 0)) s.vehicle_soc_target then s.vehicle_soc_target else s.target_soc

  -- The energy that is missing, from the state of charge.
  abbrev energy_from_soc : Float → Float → Float → Float
  energy_from_soc target current capacity =
      let needed = sub target current in
      if lt (num (pos 0)) needed then mul (div needed (num (pos 100))) capacity else num (pos 0)

  pub config_from_store : Settings fl text → Option (Config fl)
  unfolding effective_target_soc
  config_from_store s =
      let target_soc = effective_target_soc s in
      let target_energy =
        if lt (num (pos 0)) s.battery_capacity && lt (num (pos 0)) target_soc
        then energy_from_soc target_soc s.current_soc s.battery_capacity
        else s.target_energy in
      if le target_energy (num (pos 0)) && le target_soc (num (pos 0))
      then none
      else some (record {
        target_energy = target_energy;
        deadline = s.deadline;
        max_power = s.max_power;
        min_power = s.min_power;
        battery_capacity = s.battery_capacity;
        target_soc = target_soc;
        skip_above_soc = s.skip_above_soc;
        min_soc = s.min_soc;
        current_soc = s.current_soc;
        max_price = s.max_price;
        charge_headroom = s.charge_headroom;
      })

  -- The live state of charge, read anew into a configuration that may be cached.
  pub refreshed : Settings fl text → Config fl → Config fl
  refreshed s cfg = record cfg {
    current_soc = s.current_soc;
    target_energy =
        if lt (num (pos 0)) cfg.battery_capacity && lt (num (pos 0)) cfg.target_soc
        then energy_from_soc cfg.target_soc s.current_soc cfg.battery_capacity
        else cfg.target_energy;
  }

  -- The periods of the previous schedule that ended since the last recompute with no session.
  pub missed : Surroundings fl text → ℕ → Period fl → Bool
  missed env last p =
      not (le p.power (num (pos 0)))
      && ltb last p.stop
      && not (ltb env.now p.stop)
      && elim (env.sessions_overlapping p.start p.stop) [ none ↦ false | some b ↦ not b ]

  pub missed_periods : Surroundings fl text → State fl text → List (Effect fl text)
  unfolding missed
  missed_periods env st =
      if st.last_recompute_at == 0
      then []
      else map missed_period
          (select (missed env st.last_recompute_at) (active_periods fl st.current))

  -- Whether hours are chosen at all, from which rates, for how much energy, and the reason if not.
  pub record Auto : Type 0 where
    pub eligible : Bool
    pub reason : Option SkipKey
    pub rates : List (Rate fl)
    pub target : Float

  -- Above the skip threshold, only rates of a negative price may be chosen.
  pub auto_rates : Config fl → List (Rate fl) → Auto
  auto_rates cfg rates =
      let negative = select (λ r. lt r.price (num (pos 0))) rates in
      let above =
        lt (num (pos 0)) cfg.battery_capacity
        && lt (num (pos 0)) cfg.skip_above_soc
        && le cfg.skip_above_soc cfg.current_soc in
      let blocked = above && is_empty negative in
      record {
        eligible = not blocked;
        reason = if blocked then some soc_above_threshold else none;
        rates = if above && not (is_empty negative) then negative else rates;
        target = cfg.target_energy;
      }

  -- The forced periods count towards the target.
  pub auto_target : Float → Auto → Auto
  auto_target force_energy a =
      let target =
        let rest = sub a.target force_energy in
        if lt rest (num (pos 0)) then num (pos 0) else rest in
      let reason =
        if lt (num (pos 0)) force_energy then covered_by_overrides else no_energy_needed in
      if eq target (num (pos 0))
      then record a {
        eligible = false;
        reason = elim a.reason [ none ↦ some reason | some r ↦ some r ];
        target = target;
      }
      else record a { target = target }

  -- The flags of the previous schedule's cancelled days, on the same days of the new one.
  pub keep_cancellations : Option (Schedule fl) → Schedule fl → Schedule fl
  keep_cancellations none sched = sched
  keep_cancellations (some prev) sched =
      let cancelled_day = λ (s : Slot fl). any (λ q. q.cancelled && q.date == s.date) prev.slots in
      let slots =
        map (λ (s : Slot fl). if cancelled_day s then record s { cancelled = true } else s)
          sched.slots in
      let (cost, energy, _) = slot_totals fl (num (pos 0)) (num (pos 0)) 0 slots in
      record sched { slots = slots; cost = round_2 fl cost; energy = round_2 fl energy }

  module _ (sorting order_by : Sorting) (cal : Calendar) (digest : Digest fl) where
    -- saveCurrent and fireOnRecompute, after the profile has been applied.
    pub finish :
        Surroundings fl text
        → Option (Schedule fl)
        → State fl text
        → State fl text × List (Effect fl text)
    finish env none st = (record st { persisted = st.current }, recomputed ∷ [])
    finish env (some sched) st =
        let (st', effects) = apply_profile fl text digest env sched st in
        (record st' { persisted = st'.current }, effects ++ recomputed ∷ [])

    -- preserveActiveSlot.
    pub preserve_active_slot :
        Surroundings fl text → Slot fl → State fl text → State fl text × List (Effect fl text)
    unfolding finish
    preserve_active_slot env slot st =
        let sched = preserved_schedule fl slot in
        finish env (some sched) (record st { current = some sched; skip_reason = none })

    -- The schedule that the rates allow, and the reason if there is none.
    pub auto_schedule :
        Surroundings fl text
        → Config fl
        → Float
        → List (ScheduleOverride fl)
        → Auto
        → Option (Schedule fl) × Option SkipKey
    auto_schedule env cfg power overrides a =
        let sched =
          compute_schedule fl sorting cal env.now (fragment_rates fl sorting a.rates overrides)
            (record cfg { target_energy = a.target }) power in
        let reason =
          if lt (num (pos 0)) cfg.max_price then no_rates_below_price else no_affordable_rates in
        if a.eligible && not (is_empty a.rates)
        then elim sched [ none ↦ (none, some reason) | some s ↦ (some s, a.reason) ]
        else (none, a.reason)

    -- The end of recompute, from the merged schedule on; `prev` is the schedule before.
    pub settle :
        Surroundings fl text
        → Option (Slot fl)
        → Bool
        → Bool
        → Option SkipKey
        → Option (Schedule fl)
        → State fl text
        → State fl text × List (Effect fl text)
    unfolding preserve_active_slot finish
    settle env (some slot) eligible has_forces reason none st = preserve_active_slot env slot st
    settle env none eligible has_forces reason none st =
        finish env none (record st { current = none; skip_reason = reason })
    settle env in_progress eligible has_forces reason (some sched) st =
        let kept = keep_cancellations st.current sched in
        let sched' : Schedule fl = elim in_progress [
          | none ↦ kept
          | some slot ↦ merge_active_slot_preserving_active fl sorting env.now (some kept) slot
        ] in
        let reason' : Option SkipKey = if eligible || not has_forces then none else reason in
        finish env (some sched') (record st { current = some sched'; skip_reason = reason' })

    -- What the rates, the overrides and the configuration give.
    pub record Outlook : Type 0 where
      pub state : State fl text
      pub no_rates : Bool
      pub eligible : Bool
      pub has_forces : Bool
      pub reason : Option SkipKey
      pub merged : Option (Schedule fl)

    pub outlook : Surroundings fl text → Config fl → State fl text → Outlook
    unfolding auto_schedule auto_target auto_rates
    outlook env cfg st =
        let rates : List (Rate fl) = elim env.rates [ none ↦ [] | some rs ↦ rs ] in
        let table = purge_old_overrides fl text st.overrides (env.now - 7 * 24 * hour) in
        let overrides = load_overrides fl text order_by table env.now in
        let forces = build_force_periods fl sorting (split_overrides fl overrides).0 rates in
        let has_forces = not (is_empty forces) in
        let force_energy = total_force_energy fl forces in
        let power = if lt (num (pos 0)) st.live_power then st.live_power else cfg.max_power in
        let a = auto_target force_energy (auto_rates cfg rates) in
        let (auto, reason) = auto_schedule env cfg power overrides a in
        let first_deadline =
          next_deadline_after cal env.now (cal.hour_of cfg.deadline) (cal.minute_of cfg.deadline) in
        record {
          state = record st { overrides = table };
          no_rates = is_empty rates && not has_forces;
          eligible = a.eligible;
          has_forces = has_forces;
          reason = reason;
          merged = merge_forces_into_schedule fl sorting cal auto forces first_deadline;
        }

    -- The middle of recompute, once there is a configuration.
    pub plan :
        Surroundings fl text
        → Option (Slot fl)
        → Config fl
        → State fl text
        → State fl text × List (Effect fl text)
    unfolding settle outlook
    plan env in_progress cfg st =
        let o = outlook env cfg st in
        if o.no_rates
        then (o.state, [])
        else settle env in_progress o.eligible o.has_forces o.reason o.merged o.state

    -- recompute when no transaction is open.
    pub recompute_thawed :
        Surroundings fl text → State fl text → State fl text × List (Effect fl text)
    unfolding plan refreshed config_from_store missed_periods
    recompute_thawed env st =
        let st' = record st { recompute_frozen_txn_id = 0; last_recompute_at = env.now } in
        let effects = missed_periods env st in
        let cfg : Option (Config fl) = elim st.config [
          | none ↦ config_from_store env.settings
          | some c ↦ some c
        ] in
        elim cfg [
          | none ↦ (st', effects)
          | some c ↦
              let (st'', more) =
                plan env (active_slot fl env.now st.current) (refreshed env.settings c) st' in
              (st'', effects ++ more)
        ]

    -- The test that freezes recompute: a transaction is open at a connected charger.
    abbrev pub is_frozen : Surroundings fl text → Bool
    is_frozen env = env.has_charge_box && env.connected && ltb 0 env.txn_id

    pub recompute : Surroundings fl text → State fl text → State fl text × List (Effect fl text)
    unfolding recompute_thawed
    recompute env st =
        if is_frozen env
        then (
          record st { recompute_frozen_txn_id = env.txn_id },
          if st.recompute_frozen_txn_id == env.txn_id then [] else frozen env.txn_id ∷ [],
        )
        else recompute_thawed env st
