-- ===== src/Scheduler/Actions/Restart.antt =====
-- The schedule after a restart: loadPersistedSchedule of internal/scheduler/scheduler.go.
use grosz.Prelude.{
  ℕ, ◌≡◌, refl, sym, ap, ◌∙◌, ◌⊎◌, inl, inr, Bool, true, false, ◌<◌, length, Bool-cases, Option,
  some, ◌&&◌, none, List, [], ◌∷◌, arith, ltb, any, All, select, any-select, Option-cases,
}
use grosz.Std.{Float64, TimeText}
use grosz.Scheduler.Schedule.{Period, Slot, Schedule, active_periods}
use grosz.Scheduler.Forces.Kept.{has, any-active_periods_of}
use grosz.Scheduler.State.{State}
use grosz.Scheduler.Actions.{is_live, load_persisted_schedule}

List-cases {ℓ} :
    {A : Type ℓ} (xs : List A) → (xs ≡ []) ⊎ ((x : A) × (rest : List A) × (xs ≡ x ∷ rest))
List-cases [] = inl refl
List-cases (x ∷ xs) = inr (x, xs, refl)

module _ (fl : Float64) (test : Period fl → Bool) (now : ℕ) where
  -- The period is not over and passes the test.
  abbrev pub is_coming : Period fl → Bool
  is_coming p = ltb now p.stop && test p

  coming_any :
      (ps : List (Period fl)) → any (λ p. ltb now p.stop) ps ≡ false → any is_coming ps ≡ false
  coming_any [] h = refl
  coming_any (p ∷ ps) h = ground (arith, coming_any ps)

  over :
      (slots : List (Slot fl))
      → All (λ s. is_live fl now s ≡ false → has fl is_coming s ≡ false) slots
  unfolding is_live
  over [] = tt
  over (s ∷ slots) = ((λ h. rw (coming_any s.periods h) (ground arith)), over slots)

  live_selected :
      (slots : List (Slot fl)) → All (λ s. is_live fl now s ≡ true) (select (is_live fl now) slots)
  live_selected [] = tt
  live_selected (s ∷ slots) = elim (Bool-cases (is_live fl now s)) [
    | inl e ↦ rw e (e, live_selected slots)
    | inr e ↦ rw e (live_selected slots)
  ]

  -- A slot in which a period is yet to end.
  abbrev pub has_coming : Slot fl → Bool
  has_coming s = any (λ (p : Period fl). ltb now p.stop) s.periods

  -- A schedule that is there has a slot, and in each of its slots a period is yet to end.
  abbrev pub IsPruned : Option (Schedule fl) → Type 0
  IsPruned none = Unit
  IsPruned (some sched) =
      (0 < length sched.slots) × All (λ (s : Slot fl). has_coming s ≡ true) sched.slots

  module _ (text : TimeText) where
    -- With no schedule before, a restart loads only slots in which a period is yet to end, and no
    -- schedule if no slot is such; and it loses no period that is yet to end and makes none up:
    -- whatever such a period is tested for, one that passes is active in the loaded schedule exactly
    -- if one is active in the saved schedule. A slot that is loaded keeps its ended periods too.
    pub any-load_persisted_schedule :
        (st : State fl text)
        → st.current ≡ none
        → let loaded = (load_persisted_schedule fl text now st).current in
          IsPruned loaded
          × (any is_coming (active_periods fl loaded)
              ≡ any is_coming (active_periods fl st.persisted))
    unfolding load_persisted_schedule active_periods is_live
    any-load_persisted_schedule st e = elim (Option-cases st.persisted) [
      | inl n ↦ rw (n, e) (tt, refl)
      | inr (sched, n) ↦
          let kept =
            any-select (has fl is_coming) (is_live fl now) sched.slots (over sched.slots) in
          let behind = any-active_periods_of fl is_coming sched.slots in
          let live = live_selected sched.slots in
          elim (List-cases (select (is_live fl now) sched.slots)) [
            | inl k ↦ rw (n, load_persisted_schedule, k, e) (tt, sym (behind ∙ sym kept ∙ rw k))
            | inr (s, slots, k) ↦
                rw (n, load_persisted_schedule, k)
                  (
                    (omega arith, rw k at live),
                    any-active_periods_of fl is_coming (s ∷ slots)
                        ∙ ap (any (has fl is_coming)) (sym k)
                        ∙ kept
                        ∙ sym behind,
                  )
          ]
    ]
