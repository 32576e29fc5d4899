-- ===== src/Tests/ActionWitnesses.antt =====
-- The theorems about a user's actions at a concrete evening.
use grosz.Prelude.{
  ℕ, arith, ◌≡◌, ◌≢◌, refl, Bool, true, false, not, ◌&&◌, ◌==◌, none, some, [], ◌∷◌, ltb, any,
}
use grosz.Scheduler.Schedule.{Period, active_periods}
use grosz.Scheduler.Profile.{is_active_slot}
use grosz.Scheduler.Forces.{slots_of}
use grosz.Scheduler.State.{State, Surroundings, frozen}
use grosz.Scheduler.Control.{off, force, schedule, is_plugged_in, has_transaction, is_cooling}
use grosz.Scheduler.Control.Commands.{is_start, is_stop, is_reachable}
use grosz.Scheduler.Actions.{cancel_slot, restore_slot, load_persisted_schedule}
use grosz.Scheduler.Actions.Days.{restore_slot-cancel_slot, any-cancel_slot_stop}
use grosz.Scheduler.Actions.Restart.{is_coming, IsPruned, any-load_persisted_schedule}
use grosz.Scheduler.Actions.Saved.{
  recomputing, cancelling, clearing, perform_all, perform_all-IsSaved,
}
use grosz.Scheduler.Recompute.Saved.{IsSaved}
use grosz.Scheduler.Recompute.Frozen.{recompute_all, recompute_all_frozen}
use grosz.Scheduler.ModeChange.{Modes, request_mode_change, apply_pending_mode}
use grosz.Scheduler.ModeChange.Commands.{requested, starts_as, stops_as, apply_pending_mode_lem}
use grosz.Tests.Evening.{night, now, surroundings, state, waiting, in_gap, nothing_sent}
use grosz.Tests.Models.{sorting, seconds_text, whole_floats, utc, constant_digest}

restore_slot-cancel_slot_example :
    let o = cancel_slot whole_floats seconds_text schedule waiting 0 state nothing_sent in
    let back = restore_slot whole_floats seconds_text schedule waiting 0 o.state o.sent in
    (back.found ≡ true) × (slots_of whole_floats back.state.current ≡ night.slots)
unfolding cancel_slot
restore_slot-cancel_slot_example =
    restore_slot-cancel_slot whole_floats seconds_text schedule waiting waiting 0 state nothing_sent
      night refl ((λ e. refl), tt) refl

any-cancel_slot_stop_example :
    any is_stop
      (cancel_slot whole_floats seconds_text schedule in_gap 0 state nothing_sent).commands
    ≡ (is_reachable false in_gap
        && has_transaction in_gap
        && (is_plugged_in in_gap.status
            && not (
                any
                  (λ s. not (s.date == 0) && is_active_slot whole_floats in_gap.now s)
                  night.slots))
        && not (is_cooling nothing_sent.last_stop_sent in_gap.now))
unfolding cancel_slot
any-cancel_slot_stop_example =
    any-cancel_slot_stop whole_floats seconds_text in_gap 0 state nothing_sent night refl (tt, tt)
      refl

-- The program has just started.
abbrev fresh : State whole_floats seconds_text
fresh = record state { current = none }

abbrev is_proper : Period whole_floats → Bool
is_proper p = not (ltb p.stop p.start)

any-load_persisted_schedule_example :
    let loaded = (load_persisted_schedule whole_floats seconds_text now fresh).current in
    IsPruned whole_floats is_proper now loaded
    × (any (is_coming whole_floats is_proper now) (active_periods whole_floats loaded)
        ≡ any (is_coming whole_floats is_proper now) (active_periods whole_floats (some night)))
any-load_persisted_schedule_example =
    any-load_persisted_schedule whole_floats is_proper now seconds_text fresh refl

perform_all-IsSaved_example :
    IsSaved whole_floats seconds_text constant_digest sorting sorting utc (
      perform_all whole_floats seconds_text constant_digest sorting sorting utc
        (recomputing surroundings
          ∷ cancelling schedule waiting 0 nothing_sent
          ∷ clearing waiting
          ∷ [])
        state)
perform_all-IsSaved_example =
    perform_all-IsSaved whole_floats seconds_text constant_digest sorting sorting utc
      (recomputing surroundings
        ∷ cancelling schedule waiting 0 nothing_sent
        ∷ clearing waiting
        ∷ [])
      state refl

abbrev in_schedule_mode : Modes
in_schedule_mode = record { mode = schedule; pending = none; pending_at = 0 }

apply_pending_mode_lem_example :
    let c =
      apply_pending_mode whole_floats seconds_text waiting
        (request_mode_change now force (requested ((now, off) ∷ []) in_schedule_mode))
        state
        nothing_sent in
    (c.modes.mode ≡ force)
    × (c.modes.pending ≡ none)
    × (any is_start c.commands
        ≡ starts_as whole_floats seconds_text waiting state nothing_sent force)
    × (any is_stop c.commands ≡ stops_as whole_floats seconds_text waiting state nothing_sent force)
    × (c.state.current ≡ none)
apply_pending_mode_lem_example =
    apply_pending_mode_lem whole_floats seconds_text waiting state nothing_sent ((now, off) ∷ [])
      now force in_schedule_mode

-- A transaction is open.
abbrev in_transaction : Surroundings whole_floats seconds_text
in_transaction = record surroundings { txn_id = 12 }

zero_differs : ◌≢◌ {A = ℕ} 0 12
zero_differs e = ground arith

recompute_all_frozen_example :
    recompute_all whole_floats seconds_text constant_digest sorting sorting utc
      (in_transaction ∷ in_transaction ∷ [])
      state
    ≡ (record state { recompute_frozen_txn_id = 12 }, frozen 12 ∷ [])
recompute_all_frozen_example =
    recompute_all_frozen whole_floats seconds_text constant_digest sorting sorting utc 12
      in_transaction (in_transaction ∷ []) state ((refl, refl), ((refl, refl), tt)) zero_differs
