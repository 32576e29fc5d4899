-- ===== src/Scheduler/InProgress/Kept.antt =====
-- The active period of a slot in progress, in mergeActiveSlotPreservingActive of
-- internal/scheduler/scheduler.go.
use mathlib.Core.List.{Memᴰ}
use grosz.Prelude.{
  ℕ, ◌≡◌, refl, ap, ◌∙◌, inl, inr, Bool, true, false, not, ◌&&◌, ◌||◌, Option, none, some, List, [],
  ◌∷◌, arith, ltb, ◌==◌, select, any, any-perm, any-append, Bool-cases,
}
use grosz.Std.{Float64, Sorting}
use grosz.Scheduler.Schedule.{Period, Slot, Schedule}
use grosz.Scheduler.Totals.{recalc_slot_totals, schedule_of}
use grosz.Scheduler.Profile.{is_charging_in, is_active_slot, is_charge_time}
use grosz.Scheduler.InProgress.{
  preserved_schedule, replace_slot, insert_slot, put_slot, merge_in_progress_slot, up_to_active,
  merged_periods, merge_active_slot_preserving_active, recomputed_slot,
}

or_true : (a b : Bool) → b ≡ true → (a || b) ≡ true
or_true a b h = ground arith

false≢true : ◌≡◌ {A = Bool} false true → ⊥
false≢true h = cc

module _ (fl : Float64) where
  -- What holds of the new slot holds of some slot of the merged schedule.
  any-replace_slot :
      (test : Slot fl → Bool) (s : Slot fl) (slots : List (Slot fl))
      → any (λ x. x.date == s.date) slots ≡ true
      → test s ≡ true
      → any test (replace_slot fl s slots) ≡ true
  unfolding replace_slot
  any-replace_slot test s [] h e = cc
  any-replace_slot test s (x ∷ slots) h e = ground (arith, any-replace_slot test s slots)

  any-insert_slot :
      (test : Slot fl → Bool) (s : Slot fl) (slots : List (Slot fl))
      → test s ≡ true
      → any test (insert_slot fl s slots) ≡ true
  unfolding insert_slot
  any-insert_slot test s [] e = ground arith
  any-insert_slot test s (x ∷ slots) e = ground (arith, any-insert_slot test s slots)

  any-put_slot :
      (test : Slot fl → Bool) (s : Slot fl) (slots : List (Slot fl))
      → test s ≡ true
      → any test (put_slot fl s slots) ≡ true
  unfolding put_slot
  any-put_slot test s slots e =
      ground (arith, any-replace_slot test s slots, any-insert_slot test s slots)

  pub any-merge_in_progress_slot :
      (test : Slot fl → Bool) (sched : Option (Schedule fl)) (s : Slot fl)
      → test s ≡ true
      → any test (merge_in_progress_slot fl sched s).slots ≡ true
  unfolding merge_in_progress_slot schedule_of
  any-merge_in_progress_slot test none s e = ground arith
  any-merge_in_progress_slot test (some sched) s e = any-put_slot test s sched.slots e

  -- The active period is one of the slot that charges now, and stays in the list.
  abbrev UpToActive : ℕ → List (Period fl) → Type 0
  UpToActive now ps =
      (before : List (Period fl)) × (active : Period fl) × (up_to_active fl now ps
        ≡ some (before, active))
      × (is_charging_in fl now active ≡ true)
      × Memᴰ active ps
      × ((test : Period fl → Bool) → test active ≡ true → any test before ≡ true)

  up_to_active_lem :
      (now : ℕ) (ps : List (Period fl)) → any (is_charging_in fl now) ps ≡ true → UpToActive now ps
  unfolding up_to_active
  up_to_active_lem now [] h = absurd (false≢true h)
  up_to_active_lem now (p ∷ ps) h = elim (Bool-cases (is_charging_in fl now p)) [
    | inl e ↦ (p ∷ [], p, rw e, e, Memᴰ.head refl, λ test t. rw t)
    | inr e ↦
        let (before, active, q, c, m, k) = up_to_active_lem now ps (rw e at h) in
        (p ∷ before, active, rw (e, q), c, Memᴰ.tail m, λ test t. or_true (test p) _ (k test t))
  ]

  module _ (sorting : Sorting) where
    any-merged_periods :
        (test : Period fl → Bool) (before : List (Period fl)) (active : Period fl)
        (recomputed : Option (Slot fl))
        → any test before ≡ true
        → any test (merged_periods fl sorting before active recomputed) ≡ true
    unfolding merged_periods
    any-merged_periods test before active none h = h
    any-merged_periods test before active (some r) h =
        any-perm test (sorting.sort-perm _ _ _)
        ∙ any-append test before _
        ∙ ap (λ b. b || any test (select (λ p. not (ltb p.start active.stop)) r.periods)) h

    -- Some slot of the schedule that is not cancelled has a period that passes the test.
    abbrev pub has_period : (Period fl → Bool) → Slot fl → Bool
    has_period test slot = not slot.cancelled && any test slot.periods

    -- A slot that is in progress has a period that charges now, and the merged schedule has that
    -- period with nothing of it changed, whatever was recomputed: what is true of the period is true
    -- of an active period of the schedule.
    pub merge_active_slot_preserving_active_keeps :
        (now : ℕ) (sched : Option (Schedule fl)) (s : Slot fl)
        → is_active_slot fl now s ≡ true
        → (active : Period fl) × Memᴰ active s.periods
          × (is_charging_in fl now active ≡ true)
          × ((test : Period fl → Bool)
              → test active ≡ true
              → any
                  (has_period test)
                  (merge_active_slot_preserving_active fl sorting now sched s).slots
                ≡ true)
    unfolding merge_active_slot_preserving_active is_active_slot recalc_slot_totals
    merge_active_slot_preserving_active_keeps now sched s h =
        let live : s.cancelled ≡ false = ground arith in
        let (before, active, q, c, m, k) = up_to_active_lem now s.periods (ground arith) in
        (
          active,
          m,
          c,
          λ test t.
              rw (q, merge_active_slot_preserving_active)
                (any-merge_in_progress_slot (has_period test) sched _ (
                  rw (
                    live,
                    any-merged_periods test before active (recomputed_slot fl s.date sched)
                        (k test t),
                  ))),
        )

    -- A schedule that charges now goes on charging now.
    pub merge_active_slot_preserving_active-charges :
        (now : ℕ) (sched : Option (Schedule fl)) (s : Slot fl)
        → is_active_slot fl now s ≡ true
        → is_charge_time fl now (some (merge_active_slot_preserving_active fl sorting now sched s))
          ≡ true
    unfolding is_charge_time
    merge_active_slot_preserving_active-charges now sched s h =
        let (active, m, c, k) = merge_active_slot_preserving_active_keeps now sched s h in
        k (is_charging_in fl now) c

  pub preserved_schedule-charges :
      (now : ℕ) (s : Slot fl)
      → is_active_slot fl now s ≡ true
      → is_charge_time fl now (some (preserved_schedule fl s)) ≡ true
  unfolding preserved_schedule is_charge_time
  preserved_schedule-charges now s h = rw h
