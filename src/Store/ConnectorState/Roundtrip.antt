-- ===== src/Store/ConnectorState/Roundtrip.antt =====
-- What GetConnectorState of internal/store/connector_state.go reads after UpsertConnectorState.
use grosz.Prelude.{
  ℕ, ◌≡◌, ap, subst, ◌∙◌, true, false, ◌&&◌, some, List, arith, ◌==◌, if◌then◌else◌,
  find_by-put_by_same, find_by-put_by_other, inl, inr, Bool-cases,
}
use grosz.Store.ConnectorState.{
  NanoText, ConnectorState, StateRow, format_time_utc, parse_time_utc, is_row_of, scanned,
  scan_connector_state, state_row, get_connector_state, upsert_connector_state,
}

module _ (nano : NanoText) where
  parse_time_utc-format_time_utc : (t : ℕ) → parse_time_utc nano (format_time_utc nano t) ≡ t
  unfolding parse_time_utc format_time_utc
  parse_time_utc-format_time_utc t = elim (Bool-cases (t == 0)) [
    | inl h ↦ rw h (ground arith)
    | inr h ↦ rw (h, nano.parse-format t)
  ]

  scan-state_row : (cs : ConnectorState) → scan_connector_state nano (state_row nano cs) ≡ cs
  unfolding scan_connector_state state_row
  scan-state_row cs = rw (
    parse_time_utc-format_time_utc cs.status_at,
    parse_time_utc-format_time_utc cs.last_status_notification,
  )

  is_row_of_self :
      (cs : ConnectorState)
      → is_row_of nano cs.charge_box cs.connector_id (state_row nano cs) ≡ true
  unfolding state_row
  is_row_of_self cs = ground arith

  is_row_of_other :
      (cs : ConnectorState) (cp conn : ℕ)
      → cs.charge_box == cp && cs.connector_id == conn ≡ false
      → is_row_of nano cp conn (state_row nano cs) ≡ false
  unfolding state_row
  is_row_of_other cs cp conn h = h

  pub own_state :
      (cs : ConnectorState) (rows : List (StateRow nano))
      → get_connector_state nano cs.charge_box cs.connector_id (upsert_connector_state nano cs rows)
        ≡ some cs
  unfolding get_connector_state upsert_connector_state
  own_state cs rows =
      ap (scanned nano) (
        find_by-put_by_same (is_row_of nano cs.charge_box cs.connector_id) (state_row nano cs)
          (is_row_of_self cs) rows)
      ∙ ap some (scan-state_row cs)

  -- After an upsert, the connector's own state reads as every field of it was given, times to the
  -- nanosecond included, and each other connector's state reads as before.
  pub get-upsert_connector_state :
      (cs : ConnectorState) (cp conn : ℕ) (rows : List (StateRow nano))
      → get_connector_state nano cp conn (upsert_connector_state nano cs rows) ≡ (
          if cs.charge_box == cp && cs.connector_id == conn
          then some cs
          else get_connector_state nano cp conn rows)
  unfolding get_connector_state upsert_connector_state
  get-upsert_connector_state cs cp conn rows =
      elim (Bool-cases (cs.charge_box == cp && cs.connector_id == conn)) [
        | inl h ↦
            let same_box : cs.charge_box ≡ cp = ground arith in
            let same_connector : cs.connector_id ≡ conn = ground arith in
            subst
              (λ x. get_connector_state nano x conn (upsert_connector_state nano cs rows) ≡ some cs)
              same_box
              (subst
                (λ x.
                  get_connector_state nano cs.charge_box x (upsert_connector_state nano cs rows)
                  ≡ some cs)
                same_connector (own_state cs rows))
            ∙ rw h
        | inr h ↦
            ap (scanned nano) (
              find_by-put_by_other (is_row_of nano cs.charge_box cs.connector_id)
                (is_row_of nano cp conn) (state_row nano cs) (is_row_of_other cs cp conn h)
                (λ r k. ground arith) rows)
            ∙ rw h
      ]
