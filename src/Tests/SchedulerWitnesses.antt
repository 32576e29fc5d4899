-- ===== src/Tests/SchedulerWitnesses.antt =====
-- The theorems about the scheduler at a concrete evening.
use mathlib.Core.List.{Memᴰ}
use grosz.Prelude.{
  ◌+◌, ◌*◌, ◌≡◌, refl, Bool, true, false, not, ◌&&◌, ◌||◌, none, some, [], ◌∷◌, arith, ltb, any,
}
use grosz.Prelude.Int.{pos, ltb_ℤ}
use grosz.Std.{second, minute, hour}
use grosz.Window.{covered}
use grosz.Tariff.{Rate}
use grosz.Store.Overrides.{ScheduleOverride, force, window_of}
use grosz.Scheduler.Schedule.{Period, Slot, unset, user_force, active_periods}
use grosz.Scheduler.Profile.{Profile, is_charge_time, is_active_slot, is_charging_in, build_profile}
use grosz.Scheduler.Profile.Meaning.{limit_at, planned, Agrees, limit_at-build_profile}
use grosz.Scheduler.Fragment.{fragment_rates}
use grosz.Scheduler.Fragment.Exact.{priced_at, priced_at-fragment_rates}
use grosz.Scheduler.Forces.{merge_forces_into_schedule}
use grosz.Scheduler.Forces.Kept.{any-merge_forces_into_schedule}
use grosz.Scheduler.Compute.{compute_slot}
use grosz.Scheduler.Compute.Cheapest.{compute_slot-cheapest}
use grosz.Scheduler.InProgress.{merge_active_slot_preserving_active}
use grosz.Scheduler.InProgress.Kept.{has_period, merge_active_slot_preserving_active_keeps}
use grosz.Scheduler.Recompute.{recompute}
use grosz.Scheduler.Recompute.Charging.{recompute-charges}
use grosz.Scheduler.Recompute.Saved.{IsSaved, recompute-IsSaved}
use grosz.Scheduler.Control.{schedule, is_plugged_in, has_transaction, is_cooling, control_charging}
use grosz.Scheduler.Control.Commands.{
  is_start, is_stop, is_reachable, wants_charge, wants_stop, is_blocked, any-control_charging_start,
  any-control_charging_stop,
}
use grosz.Tests.Evening.{
  second_hour, slot, night, now, hourly, surroundings, state, waiting, in_gap, nothing_sent,
}
use grosz.Tests.Models.{
  sorting, seconds_text, whole_floats, utc, constant_digest, div_ℤ, insertion_sort,
}

recompute-charges_example :
    is_charge_time whole_floats now
      (recompute whole_floats seconds_text sorting sorting utc constant_digest surroundings
        state).0.current
    ≡ true
unfolding is_charge_time
recompute-charges_example =
    recompute-charges whole_floats seconds_text constant_digest sorting sorting utc surroundings
      state refl

recompute-IsSaved_example :
    IsSaved whole_floats seconds_text constant_digest sorting sorting utc
      (recompute whole_floats seconds_text sorting sorting utc constant_digest surroundings state).0
recompute-IsSaved_example =
    recompute-IsSaved whole_floats seconds_text constant_digest sorting sorting utc surroundings
      state refl

abbrev night_profile : Profile whole_floats
night_profile = record {
  valid_from = 1 * hour;
  valid_to = 4 * hour;
  start_schedule = 1 * hour;
  periods =
      record { start_period = pos 0; limit = pos 11000 }
      ∷ record { start_period = pos 3600; limit = pos 0 }
      ∷ record { start_period = pos 7200; limit = pos 11000 }
      ∷ record { start_period = pos 10800; limit = pos 0 }
      ∷ [];
}

limit_at-build_profile_example :
    Agrees whole_floats (limit_at whole_floats (pos 7300) none night_profile.periods) (
      planned whole_floats
        (night_profile.start_schedule + 7300 * second)
        (active_periods whole_floats (some night)))
unfolding build_profile active_periods div_ℤ
limit_at-build_profile_example =
    limit_at-build_profile whole_floats (some night) night_profile 7300 refl
      (omega arith, omega arith, refl, refl, (omega arith, omega arith, refl, refl, tt))

-- Half an hour of the second rate is forced.
abbrev half_hour : ScheduleOverride whole_floats
half_hour = record {
  id = 1;
  kind = force;
  start = 2 * hour;
  stop = 150 * minute;
  power_w = pos 11000;
  created_at = 0;
}

priced_at-fragment_rates_example :
    priced_at whole_floats
      (λ p. ltb_ℤ p (pos 4))
      (fragment_rates whole_floats sorting hourly (half_hour ∷ []))
      (160 * minute)
    ≡ (priced_at whole_floats (λ p. ltb_ℤ p (pos 4)) hourly (160 * minute)
        && not (covered (window_of whole_floats half_hour ∷ []) (160 * minute)))
priced_at-fragment_rates_example =
    priced_at-fragment_rates whole_floats sorting (λ p. ltb_ℤ p (pos 4)) (160 * minute) hourly
      (half_hour ∷ []) ((refl, refl), ((refl, refl), ((refl, refl), tt))) ((refl, refl), tt)

any-control_charging_start_example :
    any is_start (control_charging whole_floats schedule false (some night) waiting nothing_sent).1
    ≡ (is_reachable false waiting
        && is_plugged_in waiting.status
        && not (has_transaction waiting)
        && wants_charge whole_floats schedule (some night) waiting.now
        && not (is_blocked waiting)
        && not (is_cooling nothing_sent.last_start_sent waiting.now))
any-control_charging_start_example =
    any-control_charging_start whole_floats false (some night) waiting nothing_sent schedule

any-control_charging_stop_example :
    any is_stop (control_charging whole_floats schedule false (some night) in_gap nothing_sent).1
    ≡ (is_reachable false in_gap
        && has_transaction in_gap
        && wants_stop whole_floats schedule (some night) in_gap
        && not (is_cooling nothing_sent.last_stop_sent in_gap.now))
any-control_charging_stop_example =
    any-control_charging_stop whole_floats false (some night) in_gap nothing_sent schedule

merge_active_slot_preserving_active_keeps_example :
    (active : Period whole_floats) × Memᴰ active slot.periods
    × (is_charging_in whole_floats now active ≡ true)
    × ((test : Period whole_floats → Bool)
        → test active ≡ true
        → any
            (has_period whole_floats sorting test)
            (merge_active_slot_preserving_active whole_floats sorting now (some night) slot).slots
          ≡ true)
unfolding is_active_slot
merge_active_slot_preserving_active_keeps_example =
    merge_active_slot_preserving_active_keeps whole_floats sorting now (some night) slot refl

abbrev forced : Period whole_floats
forced = record second_hour { start = 5 * hour; stop = 6 * hour; source = user_force }

any-merge_forces_into_schedule_example :
    any
      (λ p. ltb (4 * hour) p.start)
      (active_periods whole_floats
        (merge_forces_into_schedule whole_floats sorting utc (some night) (forced ∷ []) (7 * hour)))
    ≡ (any (λ p. ltb (4 * hour) p.start) (active_periods whole_floats (some night))
        || any (λ p. ltb (4 * hour) p.start) (forced ∷ []))
any-merge_forces_into_schedule_example =
    any-merge_forces_into_schedule whole_floats (λ p. ltb (4 * hour) p.start) sorting utc
      (some night) (forced ∷ []) (7 * hour) (refl, tt)

abbrev cheap_hour : Period whole_floats
cheap_hour = record {
  start = 2 * hour;
  stop = 3 * hour;
  power = pos 11000;
  price = pos 3;
  source = unset;
}

abbrev cheap_slot : Slot whole_floats
cheap_slot = record {
  date = 0;
  deadline = 7 * hour;
  periods = cheap_hour ∷ [];
  cost = pos 33;
  energy = pos 11;
  cancelled = false;
}

abbrev dear_rate : Rate whole_floats
dear_rate = record { start = 1 * hour; stop = 2 * hour; price = pos 5 }

compute_slot-cheapest_example : ltb_ℤ dear_rate.price cheap_hour.price ≡ false
unfolding compute_slot div_ℤ insertion_sort
compute_slot-cheapest_example =
    compute_slot-cheapest whole_floats sorting utc hourly (pos 11) (pos 11000) (pos 0) (7 * hour)
      cheap_slot cheap_hour dear_rate (refl, (refl, (refl, tt)))
      ((omega arith, (omega arith, tt)), ((omega arith, tt), (tt, tt))) refl (Memᴰ.head refl)
      (Memᴰ.head refl) refl
