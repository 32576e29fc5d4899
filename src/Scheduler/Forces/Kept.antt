-- ===== src/Scheduler/Forces/Kept.antt =====
-- The periods of the schedule that mergeForcesIntoSchedule of internal/scheduler/overrides.go makes.
use grosz.Prelude.{
  ℕ, ◌≡◌, refl, sym, ap, ◌∙◌, Bool, false, not, ◌&&◌, ◌||◌, Option, none, some, List, [], ◌∷◌, ◌++◌,
  arith, ◌==◌, any, All, any-perm, any-append, Bool-cases, inl, inr,
}
use grosz.Std.{Float64, Calendar, Sorting}
use grosz.Scheduler.Schedule.{Period, Slot, Schedule, active_periods, active_periods_of}
use grosz.Scheduler.Totals.{recalc_slot_totals, schedule_of, next_deadline_after}
use grosz.Scheduler.Forces.{
  period_before, new_slot, with_period, place_force, place_forces, slots_of, slot_before,
  merged_slots, merge_forces_into_schedule,
}

module _ (fl : Float64) (test : Period fl → Bool) where
  -- Some period of a slot that is not cancelled passes the test.
  abbrev pub has : Slot fl → Bool
  has slot = not slot.cancelled && any test slot.periods

  pub any-active_periods_of :
      (slots : List (Slot fl)) → any test (active_periods_of fl slots) ≡ any has slots
  unfolding active_periods_of
  any-active_periods_of [] = refl
  any-active_periods_of (s ∷ slots) = elim (Bool-cases s.cancelled) [
    | inl e ↦ rw e (any-active_periods_of slots)
    | inr e ↦ rw e (
        any-append test s.periods (active_periods_of fl slots)
        ∙ ap (any test s.periods ||◌) (any-active_periods_of slots))
  ]

  module _ (sorting : Sorting) (cal : Calendar) where
    has-new_slot :
        (deadline : ℕ) (fp : Period fl)
        → has (new_slot fl sorting cal deadline fp) ≡ (test fp || false)
    unfolding new_slot recalc_slot_totals
    has-new_slot deadline fp = refl

    has-with_period :
        (slot : Slot fl) (fp : Period fl)
        → slot.cancelled ≡ false
        → has (with_period fl sorting cal slot fp) ≡ (has slot || test fp)
    unfolding with_period recalc_slot_totals
    has-with_period slot fp e =
        rw (any-perm test (sorting.sort-perm _ (period_before fl) (slot.periods ++ fp ∷ [])))
          (rw (e, any-append test slot.periods (fp ∷ [])) (ground arith))

    -- No slot of the schedule is cancelled, as in one that has just been computed.
    abbrev pub AllLive : List (Slot fl) → Type 0
    AllLive slots = All (λ s. s.cancelled ≡ false) slots

    place_force-AllLive :
        (deadline : ℕ) (fp : Period fl) (slots : List (Slot fl))
        → AllLive slots
        → AllLive (place_force fl sorting cal deadline fp slots)
    unfolding place_force new_slot with_period recalc_slot_totals
    place_force-AllLive deadline fp [] h = (refl, tt)
    place_force-AllLive deadline fp (s ∷ slots) h = elim (Bool-cases (s.deadline == deadline)) [
      | inl e ↦ rw e h
      | inr e ↦ rw e (h.0, place_force-AllLive deadline fp slots h.1)
    ]

    any-place_force :
        (deadline : ℕ) (fp : Period fl) (slots : List (Slot fl))
        → AllLive slots
        → any has (place_force fl sorting cal deadline fp slots) ≡ (any has slots || test fp)
    unfolding place_force
    any-place_force deadline fp [] h = ground (arith, has-new_slot deadline fp)
    any-place_force deadline fp (s ∷ slots) h = elim (Bool-cases (s.deadline == deadline)) [
      | inl e ↦ rw e (
          ap (λ b. b || any has slots) (has-with_period s fp h.0)
          ∙ swap_last (has s) (test fp) (any has slots))
      | inr e ↦ rw e (
          ap (has s ||◌) (any-place_force deadline fp slots h.1)
          ∙ assoc (has s) (any has slots) (test fp))
    ]
      where
        swap_last : (a b c : Bool) → ((a || b) || c) ≡ ((a || c) || b)
        swap_last a b c = ground arith

        assoc : (a b c : Bool) → (a || (b || c)) ≡ ((a || b) || c)
        assoc a b c = ground arith

    any-place_forces :
        (dh dm : ℕ) (fps : List (Period fl)) (slots : List (Slot fl))
        → AllLive slots
        → any has (place_forces fl sorting cal dh dm fps slots) ≡ (any has slots || any test fps)
    unfolding place_forces
    any-place_forces dh dm [] slots h = ground arith
    any-place_forces dh dm (fp ∷ fps) slots h =
        let deadline = next_deadline_after cal fp.start dh dm in
        let slots' = place_force fl sorting cal deadline fp slots in
        any-place_forces dh dm fps slots' (place_force-AllLive deadline fp slots h)
        ∙ ap (λ b. b || any test fps) (any-place_force deadline fp slots h)
        ∙ assoc (any has slots) (test fp) (any test fps)
      where
        assoc : (a b c : Bool) → ((a || b) || c) ≡ (a || (b || c))
        assoc a b c = ground arith

    any-merged_slots :
        (auto : Option (Schedule fl)) (forces : List (Period fl)) (first_deadline : ℕ)
        → AllLive (slots_of fl auto)
        → any test (
            active_periods fl
              (some (schedule_of fl (merged_slots fl sorting cal auto forces first_deadline))))
          ≡ (any test (active_periods fl auto) || any test forces)
    unfolding merged_slots active_periods schedule_of
    any-merged_slots auto forces first_deadline h =
        let dh = cal.hour_of first_deadline in
        let dm = cal.minute_of first_deadline in
        let placed = place_forces fl sorting cal dh dm forces (slots_of fl auto) in
        any-active_periods_of (merged_slots fl sorting cal auto forces first_deadline)
        ∙ any-perm has {ys = placed} (sorting.sort-perm (Slot fl) (slot_before fl) placed)
        ∙ any-place_forces dh dm forces (slots_of fl auto) h
        ∙ ap (λ b. b || any test forces) (any-slots_of auto)
      where
        any-slots_of :
            (auto : Option (Schedule fl))
            → any has (slots_of fl auto) ≡ any test (active_periods fl auto)
        any-slots_of none = refl
        any-slots_of (some s) = sym (any-active_periods_of s.slots)

    -- Whatever a period is tested for: one that passes is active in the merged schedule exactly if it
    -- is in the computed schedule or is forced. No slot of the computed schedule is cancelled.
    pub any-merge_forces_into_schedule :
        (auto : Option (Schedule fl)) (forces : List (Period fl)) (first_deadline : ℕ)
        → AllLive (slots_of fl auto)
        → any test (
            active_periods fl
              (merge_forces_into_schedule fl sorting cal auto forces first_deadline))
          ≡ (any test (active_periods fl auto) || any test forces)
    unfolding merge_forces_into_schedule
    any-merge_forces_into_schedule none [] d h = unfold active_periods in refl
    any-merge_forces_into_schedule none (fp ∷ fps) d h = any-merged_slots none (fp ∷ fps) d h
    any-merge_forces_into_schedule (some s) forces d h = any-merged_slots (some s) forces d h
