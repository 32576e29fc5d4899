-- ===== src/Web/Texts.antt =====
-- Texts of instants in SQLite, byte by byte: those that Go writes, and those of datetime('now').
use grosz.Prelude.{
  ℕ, ◌*◌, ◌/◌, ◌%◌, ◌≡◌, sym, ◌∙◌, Bool, true, false, not, ◌&&◌, ◌||◌, Option, List, [], ◌∷◌, ◌++◌,
  arith, ltb, leb, ◌==◌, if◌then◌else◌, length,
}
use grosz.Std.{hour}

-- A text as its bytes.
abbrev pub Text : Type 0
Text = List ℕ

-- SQLite's order of texts, the BINARY collation.
unfoldable pub before : Text → Text → Bool
before [] [] = false
before [] (y ∷ ys) = true
before (x ∷ xs) [] = false
before (x ∷ xs) (y ∷ ys) = let rest = before xs ys in if x == y then rest else ltb x y

abbrev pub day : ℕ
day = 24 * hour

-- The texts of a day, "2006-01-02", and of a time of the day in nanoseconds, "15:04:05", in UTC, for
-- the years 0 to 9999; time.Parse with the two layouts of lookupSession.
pub record DayText : Type 0 where
  pub day_text : ℕ → Text
  pub length-day_text : (d : ℕ) → length (day_text d) ≡ 10
  pub before-day_text : (d e : ℕ) → before (day_text d) (day_text e) ≡ ltb d e
  pub clock_text : ℕ → Text
  pub parse_rfc3339 : Text → Option ℕ
  pub parse_datetime : Text → Option ℕ

module _ (days : DayText) where
  open days use {day_text, length-day_text, before-day_text, clock_text}

  -- UTC().Format(time.RFC3339).
  pub rfc3339 : ℕ → Text
  rfc3339 t = day_text (t / day) ++ b'T' ∷ (clock_text (t % day) ++ b'Z' ∷ [])

  -- datetime('now').
  pub datetime : ℕ → Text
  datetime t = day_text (t / day) ++ b' ' ∷ clock_text (t % day)

  before-append :
      (a b xs ys : Text)
      → length a ≡ length b
      → before (a ++ xs) (b ++ ys) ≡ (before a b || (not (before b a) && before xs ys))
  unfolding before
  before-append [] [] xs ys h = ground arith
  before-append [] (y ∷ b) xs ys h = absurd (omega arith)
  before-append (x ∷ a) [] xs ys h = absurd (omega arith)
  before-append (x ∷ a) (y ∷ b) xs ys h = ground (arith, before-append a b xs ys (omega arith))

  -- A text of the one kind is before one of the other by their days alone, since the space is before
  -- the T.
  pub before-datetime-rfc3339 :
      (now t : ℕ) → before (datetime now) (rfc3339 t) ≡ leb (now / day) (t / day)
  unfolding datetime rfc3339 before
  before-datetime-rfc3339 now t =
      rw
        (
          before-append (day_text (now / day)) (day_text (t / day)) _ _
              (length-day_text (now / day) ∙ sym (length-day_text (t / day))),
          before-day_text (now / day) (t / day),
          before-day_text (t / day) (now / day),
        )
        (ground arith)
