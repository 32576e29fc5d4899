-- ===== src/Ocpp/Handler/Messages/Repeat.antt =====
-- OnStatusNotification of internal/ocpp/handler.go for a status that is reported once more.
use grosz.Prelude.{
  ℕ, ◌+◌, ◌<◌, ◌≡◌, refl, sym, ◌∙◌, true, some, List, [], ◌∷◌, ◌++◌, arith, ltb, if◌then◌else◌,
  lt→ltb, if_case,
}
use grosz.Std.{TimeText, Float64}
use grosz.Store.Overrides.{Result, ok, err}
use grosz.Store.ConnectorState.{NanoText, ConnectorState, get_connector_state}
use grosz.Store.ConnectorState.Roundtrip.{own_state}
use grosz.Ocpp.Status.{Status, same_status}
use grosz.Ocpp.Connector.{update_status}
use grosz.Ocpp.Server.{State, on_point, on_connector}
use grosz.Ocpp.Handler.{
  plug, unplug, Effect, marker, plug_event_hook, status_changed, World, Outcome, StatusNotification,
  or_now, after_finalize, status_hook, connector_status_hook, is_stop_status,
  finalize_session_on_stop,
}
use grosz.Ocpp.Handler.Finalize.{finalize_case}
use grosz.Ocpp.Handler.Messages.{on_status_notification, persist_status, notified_state}

module _ (fl : Float64) where
  -- The effects that tell of a change: the markers "plug" and "unplug", the hook that polls the
  -- vehicle, and the event.
  unfoldable pub changes : List (Effect fl) → ℕ
  changes [] = 0
  changes (marker plug t ∷ es) = 1 + changes es
  changes (marker unplug t ∷ es) = 1 + changes es
  changes (plug_event_hook cp conn from to ∷ es) = 1 + changes es
  changes (status_changed cp conn from to code ∷ es) = 1 + changes es
  changes (_ ∷ es) = changes es

  changes-append : (es fs : List (Effect fl)) → changes (es ++ fs) ≡ changes es + changes fs
  unfolding changes
  changes-append [] fs = omega arith
  changes-append (marker plug t ∷ es) fs = omega (arith, changes-append es fs)
  changes-append (marker unplug t ∷ es) fs = omega (arith, changes-append es fs)
  changes-append (plug_event_hook cp conn from to ∷ es) fs = omega (arith, changes-append es fs)
  changes-append (status_changed cp conn from to code ∷ es) fs = omega (arith, changes-append es fs)
  changes-append (_ ∷ es) fs = changes-append es fs

same_status_refl : (a : Status) → same_status a a ≡ true
same_status_refl a = ground arith

module _ (fl : Float64) (text : TimeText) (nano : NanoText) where
  after_finalize_lem :
      {A : Type 0} (txn at : ℕ) (e : fl.Float) (r : Result A)
      → changes fl (after_finalize fl text nano txn at e r) ≡ 0
  unfolding changes
  after_finalize_lem txn at e (ok _) = refl
  after_finalize_lem txn at e (err _) = refl

  -- Finalizing touches no persisted state of a connector, and tells of no change.
  finalize_lem :
      (w : World fl text nano) (cp_id conn_id at : ℕ) (s : State fl text nano)
      → let o = finalize_session_on_stop fl text nano w cp_id conn_id at s in
        (o.0.connector_states ≡ s.connector_states) × (changes fl o.1 ≡ 0)
  unfolding changes
  finalize_lem w cp_id conn_id at s =
      finalize_case fl text nano w s
        (λ o. (o.0.connector_states ≡ s.connector_states) × (changes fl o.1 ≡ 0)) (refl, refl)
        (λ txn reason. (refl, refl)) (λ txn t m e c. (refl, after_finalize_lem txn t e _)) cp_id
        conn_id at

  -- The state that OnStatusNotification persists from.
  abbrev with_status :
      World fl text nano → ℕ → StatusNotification → State fl text nano → State fl text nano
  with_status w cp_id r s = record s {
    points =
        on_point fl cp_id
          (on_connector fl r.connector_id
            (update_status fl r.status r.error_code (or_now w.now r.timestamp)))
          s.points;
  }

  abbrev persisted :
      World fl text nano → ℕ → StatusNotification → State fl text nano → Outcome fl text nano
  persisted w cp_id r s =
      persist_status fl text nano w.now cp_id r (or_now w.now r.timestamp) (with_status w cp_id r s)

  -- What is persisted, and what changes, is up to that part.
  status_lem :
      (w : World fl text nano) (cp_id : ℕ) (r : StatusNotification) (s : State fl text nano)
      → let o = on_status_notification fl text nano w cp_id r s in
        (o.0.connector_states ≡ (persisted w cp_id r s).0.connector_states)
        × (changes fl o.1 ≡ changes fl (persisted w cp_id r s).1)
  unfolding on_status_notification changes
  status_lem w cp_id r s =
      let at = or_now w.now r.timestamp in
      let (s2, news) = persisted w cp_id r s in
      let closing : Outcome fl text nano =
        if is_stop_status r.status
        then finalize_session_on_stop fl text nano w cp_id r.connector_id at s2
        else (s2, []) in
      let hooks : List (Effect fl) =
        status_hook ∷ connector_status_hook cp_id r.connector_id r.status ∷ [] in
      let closes : (closing.0.connector_states ≡ s2.connector_states) × (changes fl closing.1 ≡ 0) =
        if_case
          (λ (o : Outcome fl text nano).
            (o.0.connector_states ≡ s2.connector_states) × (changes fl o.1 ≡ 0))
          (is_stop_status r.status) _ _ (finalize_lem w cp_id r.connector_id at s2) (refl, refl) in
      (
        closes.0,
        omega (
          arith,
          closes.1,
          changes-append fl news (closing.1 ++ hooks),
          changes-append fl closing.1 hooks,
        ),
      )

  persisted_status :
      (w : World fl text nano) (cp_id : ℕ) (r : StatusNotification) (s : State fl text nano)
      → 0 < r.connector_id
      → (cs : ConnectorState) × (get_connector_state nano cp_id r.connector_id
            (persisted w cp_id r s).0.connector_states
          ≡ some cs)
        × (cs.status ≡ r.status)
  unfolding persist_status notified_state
  persisted_status w cp_id r s h = rw (lt→ltb 0 r.connector_id h) (
    _,
    own_state nano
        (notified_state fl text nano w.now cp_id r (or_now w.now r.timestamp)
          (get_connector_state nano cp_id r.connector_id s.connector_states))
        s.connector_states,
    refl,
  )

  -- A status that the persisted state has already.
  persist_known :
      (w : World fl text nano) (cp_id : ℕ) (r : StatusNotification) (s : State fl text nano)
      (cs : ConnectorState)
      → get_connector_state nano cp_id r.connector_id s.connector_states ≡ some cs
      → cs.status ≡ r.status
      → changes fl (persisted w cp_id r s).1 ≡ 0
  unfolding persist_status changes
  persist_known w cp_id r s cs known same =
      if_case (λ (o : Outcome fl text nano). changes fl o.1 ≡ 0) (ltb 0 r.connector_id) _ _
        (rw (known, same, same_status_refl r.status)) refl

  -- Once a status of a connector (not 0) has been handled, the same status reported again, at any
  -- time and with any error code, sets no "plug" or "unplug" marker, polls no vehicle and records no
  -- change, whatever has become of the memory in between, as by a reconnect or a restart, as long as
  -- the persisted states are still those.
  pub on_status_notification_repeated :
      (w w' : World fl text nano) (cp_id : ℕ) (r r' : StatusNotification)
      (s s' : State fl text nano)
      → 0 < r.connector_id
      → r'.connector_id ≡ r.connector_id
      → r'.status ≡ r.status
      → s'.connector_states ≡ (on_status_notification fl text nano w cp_id r s).0.connector_states
      → changes fl (on_status_notification fl text nano w' cp_id r' s').1 ≡ 0
  on_status_notification_repeated w w' cp_id r r' s s' h same_connector same kept =
      let (cs, known, status) = persisted_status w cp_id r s h in
      let stored : s'.connector_states ≡ (persisted w cp_id r s).0.connector_states =
        kept ∙ (status_lem w cp_id r s).0 in
      (status_lem w' cp_id r' s').1
      ∙ persist_known w' cp_id r' s' cs (rw (same_connector, stored) known) (status ∙ sym same)
