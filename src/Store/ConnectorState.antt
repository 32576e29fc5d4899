-- ===== src/Store/ConnectorState.antt =====
-- internal/store/connector_state.go, with its table of internal/store/store.go. Charge boxes, error
-- codes and tags, which are only compared, are numbers, and 0 is the empty text.
pub mod Roundtrip
use grosz.Prelude.{
  ℕ, ◌≡◌, refl, Bool, true, false, ◌&&◌, Option, none, some, List, [], ◌∷◌, map, arith, ◌==◌,
  if◌then◌else◌, find_by, put_by,
}
use grosz.Ocpp.Status.{Status, unknown}

-- UTC().Format(time.RFC3339Nano), and time.Parse with that layout and with time.RFC3339, for the
-- years 0 to 9999: the text keeps the nanoseconds.
pub record NanoText : Type 1 where
  pub Text : Type 0
  pub format : ℕ → Text
  pub parse : Text → Option ℕ
  pub parse_seconds : Text → Option ℕ
  pub parse-format : (t : ℕ) → parse (format t) ≡ some t

pub record ConnectorState : Type 0 where
  pub charge_box : ℕ
  pub connector_id : ℕ
  pub status : Status
  pub status_at : ℕ
  pub error_code : ℕ
  pub transaction_id : ℕ
  pub id_tag : ℕ
  pub last_status_notification : ℕ

module _ (nano : NanoText) where
  open nano use {Text, format, parse, parse_seconds}

  -- formatTimeUTC; the empty text is `none`.
  pub format_time_utc : ℕ → Option Text
  format_time_utc t = if t == 0 then none else some (format t)

  -- parseTimeUTC.
  pub parse_time_utc : Option Text → ℕ
  parse_time_utc none = 0
  parse_time_utc (some s) = elim (parse s) [
    | some t ↦ t
    | none ↦ elim (parse_seconds s) [ some t ↦ t | none ↦ 0 ]
  ]

  pub record StateRow : Type 0 where
    pub charge_box : ℕ
    pub connector_id : ℕ
    pub status : Status
    pub status_at : Option Text
    pub error_code : ℕ
    pub transaction_id : ℕ
    pub id_tag : ℕ
    pub last_status_notification : Option Text

  -- The primary key of a row.
  abbrev pub is_row_of : ℕ → ℕ → StateRow → Bool
  is_row_of cp conn r = r.charge_box == cp && r.connector_id == conn

  -- scanConnectorState.
  pub scan_connector_state : StateRow → ConnectorState
  unfolding parse_time_utc
  scan_connector_state r = record {
    charge_box = r.charge_box;
    connector_id = r.connector_id;
    status = r.status;
    status_at = parse_time_utc r.status_at;
    error_code = r.error_code;
    transaction_id = r.transaction_id;
    id_tag = r.id_tag;
    last_status_notification = parse_time_utc r.last_status_notification;
  }

  -- The row that UpsertConnectorState writes.
  pub state_row : ConnectorState → StateRow
  unfolding format_time_utc
  state_row cs = record {
    charge_box = cs.charge_box;
    connector_id = cs.connector_id;
    status = cs.status;
    status_at = format_time_utc cs.status_at;
    error_code = cs.error_code;
    transaction_id = cs.transaction_id;
    id_tag = cs.id_tag;
    last_status_notification = format_time_utc cs.last_status_notification;
  }

  abbrev pub scanned : Option StateRow → Option ConnectorState
  scanned none = none
  scanned (some r) = some (scan_connector_state r)

  -- GetConnectorState.
  pub get_connector_state : ℕ → ℕ → List StateRow → Option ConnectorState
  get_connector_state cp conn rows = scanned (find_by (is_row_of cp conn) rows)

  -- UpsertConnectorState.
  pub upsert_connector_state : ConnectorState → List StateRow → List StateRow
  unfolding state_row
  upsert_connector_state cs rows =
      put_by (is_row_of cs.charge_box cs.connector_id) (state_row cs) rows

  -- AllConnectorStates.
  pub all_connector_states : List StateRow → List ConnectorState
  unfolding scan_connector_state
  all_connector_states rows = map scan_connector_state rows

  -- TouchStatusNotification; the other columns of a new row have their defaults.
  pub touch_status_notification : ℕ → ℕ → ℕ → List StateRow → List StateRow
  unfolding format_time_utc
  touch_status_notification cp conn at rows =
      let last = format_time_utc at in
      elim (find_by (is_row_of cp conn) rows) [
        | some r ↦ put_by (is_row_of cp conn) (record r { last_status_notification = last }) rows
        | none ↦
            put_by (is_row_of cp conn)
              (record {
                charge_box = cp;
                connector_id = conn;
                status = unknown;
                status_at = none;
                error_code = 0;
                transaction_id = 0;
                id_tag = 0;
                last_status_notification = last;
              })
              rows
      ]
