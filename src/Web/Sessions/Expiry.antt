-- ===== src/Web/Sessions/Expiry.antt =====
-- Until when a session of internal/web/sessions.go is accepted.
use grosz.Prelude.{
  ℕ, ◌/◌, ◌≡◌, ◌<◌, refl, ap, ◌∙◌, false, ◌&&◌, none, some, List, [], ◌∷◌, ◌++◌, arith, leb, ◌==◌,
  if◌then◌else◌, any, find_by, inl, inr, Bool-cases,
}
use grosz.Prelude.Int.{ℤ, later}
use grosz.Web.Texts.{day, DayText, before-datetime-rfc3339}
use grosz.Web.Sessions.{
  session_lifetime, SessionRow, has_token, session_row, create_session, is_unexpired,
  lookup_session,
}

module _ (days : DayText) where
  -- The row that a token finds, behind rows without it.
  found_last :
      (now token : ℕ) (r : SessionRow) (rows : List SessionRow)
      → any (has_token token) rows ≡ false
      → find_by (λ r. has_token token r && is_unexpired days now r) (rows ++ r ∷ [])
        ≡ (if has_token token r && is_unexpired days now r then some r else none)
  found_last now token r [] h = refl
  found_last now token r (q ∷ rows) h =
      let fresh : has_token token q ≡ false = ground arith in
      rw fresh (found_last now token r rows (ground arith))

  accepts_last :
      (now now' token username user_agent : ℕ) (lifetime_days : ℤ)
      → let r = session_row days lifetime_days now token username user_agent in
        has_token token r && is_unexpired days now' r
        ≡ leb (now' / day) ((later now (session_lifetime lifetime_days)) / day)
  unfolding session_row
  accepts_last now now' token username user_agent lifetime_days =
      ground (arith, before-datetime-rfc3339 days now' (later now (session_lifetime lifetime_days)))

  -- A new session, whose token is not empty and not taken, is accepted exactly until the end of the
  -- UTC day in which its lifetime ends, so up to a day beyond that instant, whatever the setting of
  -- the lifetime has become.
  pub lookup_session-create_session :
      (lifetime_days lifetime_days' : ℤ) (now now' token username user_agent : ℕ)
      (rows : List SessionRow)
      → 0 < token
      → any (has_token token) rows ≡ false
      → let created = create_session days lifetime_days now token username user_agent rows in
        (lookup_session days lifetime_days' now' token created.0).0 ≡ (
          if leb (now' / day) ((later now (session_lifetime lifetime_days)) / day)
          then some username
          else none)
  unfolding create_session lookup_session session_row
  lookup_session-create_session l l' now now' token username user_agent rows h fresh =
      let empty : token == 0 ≡ false = ground arith in
      let r = session_row days l now token username user_agent in
      let found =
        found_last now' token r rows fresh
        ∙ ap (λ b. if b then some r else none)
            (accepts_last now now' token username user_agent l) in
      elim (Bool-cases (leb (now' / day) ((later now (session_lifetime l)) / day))) [
        | inl e ↦ rw (fresh, empty, found, lookup_session, e)
        | inr e ↦ rw (fresh, empty, found, lookup_session, e)
      ]
