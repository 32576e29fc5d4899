-- ===== src/Scheduler/Actions/Days.antt =====
-- Cancelling a day, and taking that back: CancelSlot and RestoreSlot of
-- internal/scheduler/scheduler.go.
use grosz.Prelude.{
  ℕ, ◌≡◌, ◌≢◌, refl, ap₂, All-map, subst, ◌⊎◌, sym, ap, ◌∙◌, inl, inr, Bool, true, false, not, ◌&&◌,
  ◌||◌, none, some, List, [], ◌∷◌, arith, ◌==◌, if◌then◌else◌, any, All, Ordered, Bool-cases,
  Option-cases, some_eq,
}
use grosz.Std.{Float64, TimeText}
use grosz.Scheduler.Schedule.{Slot, Schedule}
use grosz.Scheduler.Profile.{is_active_slot, is_charge_time}
use grosz.Scheduler.Forces.{slots_of}
use grosz.Scheduler.State.{State}
use grosz.Scheduler.Control.{
  schedule, Mode, Sight, Sent, has_transaction, is_plugged_in, is_cooling,
}
use grosz.Scheduler.Control.Commands.{is_stop, is_reachable, any-control_charging_stop}
use grosz.Scheduler.Actions.{mark_day, with_slots, mark_slot, cancel_slot, restore_slot}

module _ (fl : Float64) where
  -- The day is not cancelled.
  abbrev pub IsUncancelled : ℕ → List (Slot fl) → Type 0
  IsUncancelled date slots = All (λ s. (s.date == date) ≡ true → s.cancelled ≡ false) slots

  -- Each day has one slot.
  abbrev pub OnePerDay : List (Slot fl) → Type 0
  OnePerDay slots = Ordered (λ a b. a.date ≢ b.date) slots

  false≢true : ◌≡◌ {A = Bool} false true → ⊥
  false≢true e = cc

  none≢some : (after : List (Slot fl)) → none ≡ some after → ⊥
  none≢some after e = cc

  uncancel :
      (s : Slot fl) → s.cancelled ≡ false → ◌≡◌ {A = Slot fl} (record s { cancelled = false }) s
  uncancel s e = ap (λ c. record s { cancelled = c }) (sym e)

  abbrev picked : Bool → ℕ → Slot fl → Bool
  picked cancelled date s = s.date == date && (if cancelled then not s.cancelled else s.cancelled)

  -- The slot in front is marked, or one behind it is.
  mark_day_cases :
      (cancelled : Bool) (date : ℕ) (s : Slot fl) (slots after : List (Slot fl))
      → mark_day fl cancelled date (s ∷ slots) ≡ some after
      → ((picked cancelled date s ≡ true) × (record s { cancelled = cancelled } ∷ slots ≡ after))
        ⊎ ((picked cancelled date s ≡ false)
            × (rest : List (Slot fl)) × (mark_day fl cancelled date slots ≡ some rest)
            × (s ∷ rest ≡ after))
  unfolding mark_day
  mark_day_cases cancelled date s slots after e = elim (Bool-cases (picked cancelled date s)) [
    | inl p ↦ inl (p, some_eq _ _ (rw p at e))
    | inr p ↦ elim (Option-cases (mark_day fl cancelled date slots)) [
      | inl n ↦ absurd (none≢some after (rw (p, n) at e))
      | inr (rest, n) ↦ inr (p, rest, n, some_eq _ _ (rw (p, n) at e))
    ]
  ]

  mark_day-picked :
      (cancelled : Bool) (date : ℕ) (s : Slot fl) (slots : List (Slot fl))
      → picked cancelled date s ≡ true
      → mark_day fl cancelled date (s ∷ slots) ≡ some (record s { cancelled = cancelled } ∷ slots)
  unfolding mark_day
  mark_day-picked cancelled date s slots p = rw p

  mark_day_behind :
      (cancelled : Bool) (date : ℕ) (s : Slot fl) (slots after : List (Slot fl))
      → picked cancelled date s ≡ false
      → mark_day fl cancelled date slots ≡ some after
      → mark_day fl cancelled date (s ∷ slots) ≡ some (s ∷ after)
  unfolding mark_day
  mark_day_behind cancelled date s slots after p e = rw (p, e)

  -- The second mark undoes the first.
  mark_day-mark_day :
      (date : ℕ) (slots after : List (Slot fl))
      → IsUncancelled date slots
      → mark_day fl true date slots ≡ some after
      → mark_day fl false date after ≡ some slots
  unfolding mark_day
  mark_day-mark_day date [] after h e = absurd (none≢some after e)
  mark_day-mark_day date (s ∷ slots) after h e = elim (mark_day_cases true date s slots after e) [
    | inl (p, q) ↦
        subst (λ a. mark_day fl false date a ≡ some (s ∷ slots)) q
          (mark_day-picked false date (record s { cancelled = true }) slots (ground arith)
            ∙ ap (λ x. some (x ∷ slots)) (uncancel s (ground arith)))
    | inr (p, rest, r, q) ↦
        subst (λ a. mark_day fl false date a ≡ some (s ∷ slots)) q
          (mark_day_behind false date s rest slots (still_behind h.0 p)
            (mark_day-mark_day date slots rest h.1 r))
  ]
    where
      still_behind :
          ((s.date == date) ≡ true → s.cancelled ≡ false)
          → picked true date s ≡ false
          → picked false date s ≡ false
      still_behind h p = ground arith

  -- Of the other days, all slots.
  any_other_days :
      (now date : ℕ) (slots : List (Slot fl))
      → All (λ b. date ≢ b.date) slots
      → any (λ s. not (s.date == date) && is_active_slot fl now s) slots
        ≡ any (is_active_slot fl now) slots
  any_other_days now date [] h = refl
  any_other_days now date (s ∷ slots) h = ground (arith, any_other_days now date slots h.1, h.0)

  any-mark_day :
      (now date : ℕ) (slots after : List (Slot fl))
      → OnePerDay slots
      → mark_day fl true date slots ≡ some after
      → any (is_active_slot fl now) after
        ≡ any (λ s. not (s.date == date) && is_active_slot fl now s) slots
  unfolding mark_day is_active_slot
  any-mark_day now date [] after o e = absurd (none≢some after e)
  any-mark_day now date (s ∷ slots) after o e = elim (mark_day_cases true date s slots after e) [
    | inl (p, q) ↦
        let d : (s.date == date) ≡ true = ground arith in
        subst
          (λ a.
            any (is_active_slot fl now) a
            ≡ any (λ x. not (x.date == date) && is_active_slot fl now x) (s ∷ slots))
          q (rw d (sym (any_other_days now date slots (All-map (λ b n. differs b d n) slots o.0))))
    | inr (p, rest, r, q) ↦
        subst
          (λ a.
            any (is_active_slot fl now) a
            ≡ any (λ x. not (x.date == date) && is_active_slot fl now x) (s ∷ slots))
          q (ap₂ ◌||◌ (behind p) (any-mark_day now date slots rest o.1 r))
  ]
    where
      differs : (b : Slot fl) → (s.date == date) ≡ true → s.date ≢ b.date → date ≢ b.date
      differs b d n e = ground arith

      behind :
          picked true date s ≡ false
          → is_active_slot fl now s ≡ (not (s.date == date) && is_active_slot fl now s)
      behind p = ground arith

  module _ (text : TimeText) where
    -- Taking a cancellation back at once leaves the days of the schedule as they were. The day was
    -- cancelled before on no slot, and there was one to cancel.
    pub restore_slot-cancel_slot :
        (mode : Mode) (v w : Sight) (date : ℕ) (st : State fl text) (sent : Sent)
        (sched : Schedule fl)
        → st.current ≡ some sched
        → IsUncancelled date sched.slots
        → (cancel_slot fl text mode v date st sent).found ≡ true
        → let o = cancel_slot fl text mode v date st sent in
          let back = restore_slot fl text mode w date o.state o.sent in
          (back.found ≡ true) × (slots_of fl back.state.current ≡ sched.slots)
    unfolding cancel_slot restore_slot mark_slot with_slots
    restore_slot-cancel_slot mode v w date st sent sched e h f =
        elim (Option-cases (mark_day fl true date sched.slots)) [
          | inl n ↦ absurd (false≢true (rw (e, mark_slot, n) at f))
          | inr (after, n) ↦
              rw (e, mark_slot, n, mark_slot, mark_day-mark_day date sched.slots after h n)
                (refl, refl)
        ]

    -- Cancelling a day in the schedule mode sends a stop exactly if the charger is reachable and in a
    -- transaction, the car is plugged in, no other day's slot charges now, and the last stop was not
    -- sent within the cooldown. The schedule has one slot per day, and one to cancel.
    pub any-cancel_slot_stop :
        (v : Sight) (date : ℕ) (st : State fl text) (sent : Sent) (sched : Schedule fl)
        → st.current ≡ some sched
        → OnePerDay sched.slots
        → (cancel_slot fl text schedule v date st sent).found ≡ true
        → any is_stop (cancel_slot fl text schedule v date st sent).commands ≡ (
            is_reachable false v
            && has_transaction v
            && (is_plugged_in v.status
                && not (any (λ s. not (s.date == date) && is_active_slot fl v.now s) sched.slots))
            && not (is_cooling sent.last_stop_sent v.now))
    unfolding cancel_slot mark_slot with_slots is_charge_time
    any-cancel_slot_stop v date st sent sched e o f =
        elim (Option-cases (mark_day fl true date sched.slots)) [
          | inl n ↦ absurd (false≢true (rw (e, mark_slot, n) at f))
          | inr (after, n) ↦
              rw (e, mark_slot, n, sym (any-mark_day v.now date sched.slots after o n))
                (any-control_charging_stop fl false (some (with_slots fl sched after)) v sent
                  schedule)
        ]
