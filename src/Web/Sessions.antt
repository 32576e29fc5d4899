-- ===== src/Web/Sessions.antt =====
-- internal/web/sessions.go, with the web_sessions table of internal/store/store.go. Tokens, users and
-- user agents, which are only compared, are numbers, and 0 is the empty text; `token` is what
-- generateToken gives.
pub mod Expiry
use grosz.Prelude.{
  ℕ, zero, suc, ◌+◌, ◌*◌, Bool, true, false, not, ◌&&◌, Option, none, some, List, [], ◌∷◌, ◌++◌,
  map, ltb, ◌==◌, if◌then◌else◌, select, any, find_by,
}
use grosz.Prelude.Int.{ℤ, pos, negsuc, later, wrap_int64}
use grosz.Std.{minute}
use grosz.Web.Texts.{Text, before, day, DayText, rfc3339, datetime}

abbrev default_session_lifetime_days : ℕ
default_session_lifetime_days = 30

-- sessionLifetime, from auth.session_lifetime_days; the product wraps around.
pub session_lifetime : ℤ → ℤ
session_lifetime (pos zero) = pos (default_session_lifetime_days * day)
session_lifetime (pos (suc n)) = wrap_int64 (pos (suc n * day))
session_lifetime (negsuc n) = pos (default_session_lifetime_days * day)

pub record SessionRow : Type 0 where
  pub token : ℕ
  pub username : ℕ
  pub created_at : Text
  pub expires_at : Text
  pub last_seen : Text
  pub user_agent : ℕ

abbrev pub has_token : ℕ → SessionRow → Bool
has_token token r = r.token == token

module _ (days : DayText) where
  open days use {parse_rfc3339, parse_datetime}

  -- The row that createSession inserts.
  pub session_row : ℤ → ℕ → ℕ → ℕ → ℕ → SessionRow
  session_row lifetime_days now token username user_agent = record {
    token = token;
    username = username;
    created_at = datetime days now;
    expires_at = rfc3339 days (later now (session_lifetime lifetime_days));
    last_seen = datetime days now;
    user_agent = user_agent;
  }

  -- createSession: the token and the expiry, or `none` if the token, the primary key, is taken.
  pub create_session : ℤ → ℕ → ℕ → ℕ → ℕ → List SessionRow → List SessionRow × Option (ℕ × ℕ)
  unfolding session_row
  create_session lifetime_days now token username user_agent rows =
      if any (has_token token) rows then (rows, none) else (
        rows ++ session_row lifetime_days now token username user_agent ∷ [],
        some (token, later now (session_lifetime lifetime_days)),
      )

  -- expires_at > datetime('now').
  abbrev pub is_unexpired : ℕ → SessionRow → Bool
  is_unexpired now r = before (datetime days now) r.expires_at

  -- Whether the last use is not known or more than 5 minutes ago.
  pub is_renewal_due : ℕ → SessionRow → Bool
  is_renewal_due now r = elim (parse_rfc3339 r.last_seen) [
    | some t ↦ ltb (t + 5 * minute) now
    | none ↦ elim (parse_datetime r.last_seen) [ some t ↦ ltb (t + 5 * minute) now | none ↦ true ]
  ]

  -- The UPDATE of lookupSession.
  pub renewed : ℤ → ℕ → ℕ → SessionRow → SessionRow
  renewed lifetime_days now token r =
      if has_token token r
      then record r {
        last_seen = datetime days now;
        expires_at = rfc3339 days (later now (session_lifetime lifetime_days));
      }
      else r

  -- lookupSession: the user, and the table.
  pub lookup_session : ℤ → ℕ → ℕ → List SessionRow → Option ℕ × List SessionRow
  unfolding is_renewal_due renewed
  lookup_session lifetime_days now token rows =
      if token == 0
      then (none, rows)
      else elim (find_by (λ r. has_token token r && is_unexpired now r) rows) [
        | none ↦ (none, rows)
        | some r ↦ (
          some r.username,
          if is_renewal_due now r then map (renewed lifetime_days now token) rows else rows,
        )
      ]

  -- deleteSession.
  pub delete_session : ℕ → List SessionRow → List SessionRow
  delete_session token rows =
      if token == 0 then rows else select (λ r. not (has_token token r)) rows

  -- purgeExpiredSessions.
  pub purge_expired_sessions : ℕ → List SessionRow → List SessionRow
  purge_expired_sessions now rows = select (λ r. is_unexpired now r) rows
