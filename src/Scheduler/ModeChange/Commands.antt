-- ===== src/Scheduler/ModeChange/Commands.antt =====
-- What a delayed change of the mode sends, in internal/scheduler/scheduler.go.
use grosz.Prelude.{ℕ, ◌≡◌, refl, ◌∙◌, Bool, true, not, ◌&&◌, none, List, [], ◌∷◌, arith, any}
use grosz.Std.{Float64, TimeText}
use grosz.Scheduler.State.{State}
use grosz.Scheduler.Control.{
  Mode, off, force, schedule, Sight, Sent, has_transaction, is_plugged_in, is_cooling,
}
use grosz.Scheduler.Control.Commands.{
  is_start, is_stop, wants_charge, wants_stop, is_blocked, any-control_charging_start,
  any-control_charging_stop,
}
use grosz.Scheduler.Actions.{clear_schedule}
use grosz.Scheduler.ModeChange.{
  Modes, request_mode_change, on_mode_changed, cleared_for, applied, apply_pending_mode,
}

-- Requests, each with its time.
abbrev pub requested : List (ℕ × Mode) → Modes → Modes
requested [] m = m
requested ((now, new_mode) ∷ rs) m = requested rs (request_mode_change now new_mode m)

module _ (fl : Float64) (text : TimeText) (v : Sight) (st : State fl text) (sent : Sent) where
  -- What a change to a mode should send.
  abbrev pub starts_as : Mode → Bool
  starts_as new_mode =
      v.has_charge_box
      && v.connected
      && is_plugged_in v.status
      && not (has_transaction v)
      && wants_charge fl new_mode st.current v.now
      && not (is_blocked v)

  abbrev pub stops_as : Mode → Bool
  stops_as new_mode =
      v.has_charge_box && v.connected && has_transaction v && wants_stop fl new_mode st.current v

  applied-starts :
      (new_mode : Mode) (m : Modes)
      → any is_start (applied fl text new_mode v m st sent).commands ≡ starts_as new_mode
  unfolding applied cleared_for on_mode_changed clear_schedule is_cooling
  applied-starts off m = any-control_charging_start fl true none v _ off ∙ ground arith
  applied-starts force m = any-control_charging_start fl true none v _ force ∙ ground arith
  applied-starts schedule m =
      any-control_charging_start fl true st.current v _ schedule ∙ ground arith

  applied-stops :
      (new_mode : Mode) (m : Modes)
      → any is_stop (applied fl text new_mode v m st sent).commands ≡ stops_as new_mode
  unfolding applied cleared_for on_mode_changed clear_schedule is_cooling
  applied-stops off m = any-control_charging_stop fl true none v _ off ∙ ground arith
  applied-stops force m = any-control_charging_stop fl true none v _ force ∙ ground arith
  applied-stops schedule m =
      any-control_charging_stop fl true st.current v _ schedule ∙ ground arith

  -- Of any requests before the delay is over, only the last one counts: its mode is the new one,
  -- nothing stays pending, and what is sent is what that mode and the present schedule want of a
  -- connected charger, whatever was sent within the cooldown and whether or not the car has suspended
  -- the charge. Going off or to the force mode leaves no schedule.
  pub apply_pending_mode_lem :
      (earlier : List (ℕ × Mode)) (now : ℕ) (new_mode : Mode) (m : Modes)
      → let c =
          apply_pending_mode fl text v
            (request_mode_change now new_mode (requested earlier m))
            st
            sent in
        (c.modes.mode ≡ new_mode)
        × (c.modes.pending ≡ none)
        × (any is_start c.commands ≡ starts_as new_mode)
        × (any is_stop c.commands ≡ stops_as new_mode)
        × (c.state.current ≡ elim new_mode [ schedule ↦ st.current | off ↦ none | force ↦ none ])
  unfolding apply_pending_mode request_mode_change applied cleared_for clear_schedule
  apply_pending_mode_lem earlier now off m = (
    refl,
    refl,
    applied-starts off (requested earlier m),
    applied-stops off (requested earlier m),
    refl,
  )
  apply_pending_mode_lem earlier now force m = (
    refl,
    refl,
    applied-starts force (requested earlier m),
    applied-stops force (requested earlier m),
    refl,
  )
  apply_pending_mode_lem earlier now schedule m = (
    refl,
    refl,
    applied-starts schedule (requested earlier m),
    applied-stops schedule (requested earlier m),
    refl,
  )
