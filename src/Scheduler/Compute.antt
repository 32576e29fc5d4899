-- ===== src/Scheduler/Compute.antt =====
-- ComputeSchedule and computeSlot of internal/scheduler/scheduler.go: the cheapest hours of each
-- day's window.
pub mod Cheapest
use grosz.Prelude.{
  ℕ, suc, zero, ◌+◌, ◌*◌, Bool, true, false, not, ◌&&◌, Option, none, some, List, [], ◌∷◌, ltb,
  ◌==◌, if◌then◌else◌, select, any,
}
use grosz.Prelude.Int.{ℤ, pos, sub_ℕ, ltb_ℤ}
use grosz.Std.{Float64, Calendar, Sorting, hour}
use grosz.Tariff.{Rate}
use grosz.Scheduler.Schedule.{Period, Slot, Schedule, unset}
use grosz.Scheduler.Totals.{round_2}

module _ (fl : Float64) where
  open fl use {Float, num, add, sub, mul, div, lt, le, eq, int_ceil, hours}

  pub record Config : Type 0 where
    pub target_energy : Float
    pub deadline : ℕ
    pub max_power : Float
    pub min_power : Float
    pub battery_capacity : Float
    pub target_soc : Float
    pub skip_above_soc : Float
    pub min_soc : Float
    pub current_soc : Float
    pub max_price : Float
    pub charge_headroom : Float

  unfoldable pub price_before : Rate fl → Rate fl → Bool
  price_before a b = lt a.price b.price

  -- The loop over the sorted rates, with its `break`: the starts of the selected ones.
  pub select_hours : ℤ → ℕ → List (Rate fl) → List ℕ
  select_hours hours_needed total [] = []
  select_hours hours_needed total (r ∷ rs) =
      let rest = select_hours hours_needed (suc total) rs in
      if ltb_ℤ (pos total) hours_needed then r.start ∷ rest else []

  pub is_selected : List ℕ → Rate fl → Bool
  is_selected selected r = any (λ s. s == r.start) selected

  pub rate_period : Float → Rate fl → Period fl
  rate_period power r = record {
    start = r.start;
    stop = r.stop;
    power = power;
    price = r.price;
    source = unset;
  }

  -- The loop that builds the periods, and its sums.
  pub selected_periods : Float → List ℕ → List (Rate fl) → List (Period fl)
  unfolding is_selected rate_period
  selected_periods power selected [] = []
  selected_periods power selected (r ∷ rs) =
      let rest = selected_periods power selected rs in
      if is_selected selected r then rate_period power r ∷ rest else rest

  selected_totals : Float → Float → Float → List (Period fl) → Float × Float
  selected_totals per_hour cost energy [] = (cost, energy)
  selected_totals per_hour cost energy (p ∷ ps) =
      let h = hours (sub_ℕ p.stop p.start) in
      selected_totals per_hour (add cost (mul (mul p.price per_hour) h))
        (add energy (mul per_hour h)) ps

  pub hours_for : Float → Float → Float → ℤ
  hours_for target headroom per_hour =
      let factor = add (num (pos 1)) (div headroom (num (pos 100))) in
      int_ceil (div (mul target factor) per_hour)

  slot_of : Calendar → Float → ℕ → List (Period fl) → Option (Slot fl)
  unfolding selected_totals round_2
  slot_of cal per_hour deadline [] = none
  slot_of cal per_hour deadline (p ∷ ps) =
      let (cost, energy) = selected_totals per_hour (num (pos 0)) (num (pos 0)) (p ∷ ps) in
      some (record {
        date = cal.date deadline;
        deadline = deadline;
        periods = p ∷ ps;
        cost = round_2 fl cost;
        energy = round_2 fl energy;
        cancelled = false;
      })

  module _ (sorting : Sorting) (cal : Calendar) where
    unfoldable pub compute_slot : List (Rate fl) → Float → Float → Float → ℕ → Option (Slot fl)
    unfolding slot_of selected_periods select_hours hours_for price_before
    compute_slot rates target power headroom deadline =
        let per_hour = div power (num (pos 1000)) in
        let sorted = sorting.sort (Rate fl) price_before rates in
        let selected = select_hours (hours_for target headroom per_hour) 0 sorted in
        if le per_hour (num (pos 0))
        then none
        else slot_of cal per_hour deadline (selected_periods power selected rates)

    -- The rates of a window that may be chosen; a price of 0 stands for one that is not known.
    pub is_eligible : ℕ → ℕ → Float → Rate fl → Bool
    is_eligible window_start deadline max_price r =
        ltb window_start r.stop
        && ltb r.start deadline
        && not (eq r.price (num (pos 0)))
        && not (lt (num (pos 0)) max_price && lt max_price r.price)

    -- The slot of one window, if it has an eligible rate.
    pub window_slot : List (Rate fl) → Config → Float → ℕ → ℕ → Float → Option (Slot fl)
    unfolding compute_slot
    window_slot rates cfg power window_start deadline remaining =
        let energy = if lt remaining (num (pos 0)) then num (pos 0) else remaining in
        elim (select (is_eligible window_start deadline cfg.max_price) rates) [
          | [] ↦ none
          | r ∷ rs ↦ compute_slot (r ∷ rs) energy power cfg.charge_headroom deadline
        ]

    -- The loop over the windows, with its `break`.
    pub window_slots : ℕ → List (Rate fl) → Config → Float → ℕ → ℕ → Float → List (Slot fl)
    unfolding window_slot
    window_slots zero rates cfg power window_start deadline remaining = []
    window_slots (suc cycles) rates cfg power window_start deadline remaining =
        let slot = window_slot rates cfg power window_start deadline remaining in
        let remaining' : Float = elim slot [ none ↦ remaining | some s ↦ sub remaining s.energy ] in
        let rest : List (Slot fl) =
          if le remaining' (num (pos 0))
          then []
          else window_slots cycles rates cfg power deadline (deadline + 24 * hour) remaining' in
        elim slot [ none ↦ rest | some s ↦ s ∷ rest ]

    slots_totals : Float → Float → List (Slot fl) → Float × Float
    slots_totals cost energy [] = (cost, energy)
    slots_totals cost energy (s ∷ slots) =
        slots_totals (add cost s.cost) (add energy s.energy) slots

    last_deadline : ℕ → List (Slot fl) → ℕ
    last_deadline d [] = d
    last_deadline d (s ∷ slots) = last_deadline s.deadline slots

    pub computed : List (Slot fl) → Option (Schedule fl)
    unfolding slots_totals last_deadline round_2
    computed [] = none
    computed (s ∷ slots) =
        let (cost, energy) = slots_totals (num (pos 0)) (num (pos 0)) (s ∷ slots) in
        some (record {
          slots = s ∷ slots;
          cost = round_2 fl cost;
          energy = round_2 fl energy;
          deadline = last_deadline 0 (s ∷ slots);
        })

    -- The changes to the configuration before the search.
    pub adjusted : Config → Config
    adjusted cfg = record cfg {
      target_energy = if lt cfg.target_energy (num (pos 0)) then num (pos 0) else cfg.target_energy;
      max_price =
          if lt (num (pos 0)) cfg.min_soc && lt cfg.current_soc cfg.min_soc
          then num (pos 0)
          else cfg.max_price;
    }

    pub first_deadline : ℕ → Config → ℕ
    first_deadline now cfg =
        let d = cal.at_clock now (cal.hour_of cfg.deadline) (cal.minute_of cfg.deadline) in
        if ltb d now then d + 24 * hour else d

    pub compute_schedule : ℕ → List (Rate fl) → Config → Float → Option (Schedule fl)
    unfolding window_slots computed adjusted first_deadline
    compute_schedule now rates cfg power =
        let cfg' = adjusted cfg in
        computed (window_slots 2 rates cfg' power now (first_deadline now cfg') cfg'.target_energy)
