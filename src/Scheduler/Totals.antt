-- ===== src/Scheduler/Totals.antt =====
-- The sums of cost and energy in internal/scheduler, and the prices of a stretch of time.
use grosz.Prelude.{ℕ, ◌+◌, ◌*◌, not, List, [], ◌∷◌, ltb, if◌then◌else◌}
use grosz.Prelude.Int.{pos, sub_ℕ}
use grosz.Std.{Float64, Calendar, hour}
use grosz.Tariff.{Rate}
use grosz.Scheduler.Schedule.{Period, Slot, Schedule}

-- nextDeadlineAfter, in the local time zone.
unfoldable pub next_deadline_after : Calendar → ℕ → ℕ → ℕ → ℕ
next_deadline_after cal t h m =
    let candidate = cal.at_clock t h m in
    if not (ltb t candidate) then candidate + 24 * hour else candidate

module _ (fl : Float64) where
  open fl use {Float, num, add, mul, div, le, round, hours}

  -- math.Round(x*100) / 100.
  unfoldable pub round_2 : Float → Float
  round_2 x = div (round (mul x (num (pos 100)))) (num (pos 100))

  -- The energy of a period.
  unfoldable pub period_energy : Period fl → Float
  period_energy p = mul (div p.power (num (pos 1000))) (hours (sub_ℕ p.stop p.start))

  -- The loop of recalcSlotTotals over the periods.
  unfoldable pub period_totals : Float → Float → List (Period fl) → Float × Float
  unfolding period_energy
  period_totals cost energy [] = (cost, energy)
  period_totals cost energy (p ∷ ps) =
      let e = period_energy p in period_totals (add cost (mul p.price e)) (add energy e) ps

  unfoldable pub recalc_slot_totals : Slot fl → Slot fl
  unfolding period_totals round_2
  recalc_slot_totals slot =
      let (cost, energy) = period_totals (num (pos 0)) (num (pos 0)) slot.periods in
      record slot { cost = round_2 cost; energy = round_2 energy }

  -- The loop over the slots: cost, energy and the latest deadline of those that are not cancelled.
  unfoldable pub slot_totals : Float → Float → ℕ → List (Slot fl) → Float × Float × ℕ
  slot_totals cost energy deadline [] = (cost, energy, deadline)
  slot_totals cost energy deadline (s ∷ slots) =
      slot_totals (if s.cancelled then cost else add cost s.cost)
        (if s.cancelled then energy else add energy s.energy)
        (if not s.cancelled
          then (if ltb deadline s.deadline then s.deadline else deadline)
          else deadline)
        slots

  -- A schedule of these slots, with the sums over them.
  unfoldable pub schedule_of : List (Slot fl) → Schedule fl
  unfolding slot_totals round_2
  schedule_of slots =
      let (cost, energy, deadline) = slot_totals (num (pos 0)) (num (pos 0)) 0 slots in
      record { slots = slots; cost = round_2 cost; energy = round_2 energy; deadline = deadline }

  -- The loop of priceOverPeriod over the rates.
  unfoldable pub cost_over : ℕ → ℕ → Float → Float → List (Rate fl) → Float
  cost_over start stop power_kw cost [] = cost
  cost_over start stop power_kw cost (r ∷ rs) =
      let overlap_start = if ltb r.start start then start else r.start in
      let overlap_stop = if ltb stop r.stop then stop else r.stop in
      let h = hours (sub_ℕ overlap_stop overlap_start) in
      cost_over start stop power_kw
        (if le h (num (pos 0)) then cost else add cost (mul (mul power_kw h) r.price)) rs

  -- priceOverPeriod: the cost, and the energy.
  unfoldable pub price_over_period : List (Rate fl) → ℕ → ℕ → Float → Float × Float
  unfolding cost_over
  price_over_period rates start stop power_w =
      let power_kw = div power_w (num (pos 1000)) in
      if not (ltb start stop) then (num (pos 0), num (pos 0)) else (
        cost_over start stop power_kw (num (pos 0)) rates,
        mul power_kw (hours (sub_ℕ stop start)),
      )
