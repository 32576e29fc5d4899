-- ===== src/Store/Idle/Exact.antt =====
-- nonChargingWindows of internal/store/idle.go against its meaning: the instants of the day that no
-- session covers.
use mathlib.Core.Logic.{∥∥₁_elim}
use grosz.Prelude.{
  ℕ, ◌*◌, ◌/◌, ◌≤◌, ◌<◌, ◌≡◌, refl, ap₂, ◌∙◌, ◌⊎◌, inl, inr, Bool, false, not, ◌&&◌, ◌||◌, Option,
  none, some, List, [], ◌∷◌, arith, ltb, leb, select, any, All, Ordered, any-perm, any-select,
  All-Permᴰ, All-select, All-map, Bool-set, Option-cases,
}
use grosz.Std.{Sorting, sorted-Ordered, TimeText, IsWeakOrder, second}
use grosz.Window.{Window, covered, in_window, ByStart, StartFrom}
use grosz.Store.Idle.{
  SessionRow, clip, in_range, started_before, stop_of, session_window, session_windows,
  non_charging_windows,
}
use grosz.Store.Idle.Merge.{
  merge_windows, covered-merge_windows, merge_windows-ByStart, merge_windows-start-le,
}
use grosz.Store.Idle.Invert.{invert_windows, covered-invert_windows}

-- What `clip` keeps of a window.
covered_by : Option Window → ℕ → Bool
covered_by none t = false
covered_by (some w) t = in_window t w

covered_by-clip :
    (a b s e t : ℕ) → a ≤ t → t < b → covered_by (clip a b s e) t ≡ (leb s t && ltb t e)
unfolding covered_by clip
covered_by-clip a b s e t p q = ground arith

clip-start-le : (a b s e : ℕ) (w : Window) → clip a b s e ≡ some w → w.start ≤ b
unfolding clip
clip-start-le a b s e w h = ground arith

clip_mono :
    (a b s e s' e' : ℕ) (w w' : Window)
    → s ≤ s'
    → clip a b s e ≡ some w
    → clip a b s' e' ≡ some w'
    → w.start ≤ w'.start
unfolding clip
clip_mono a b s e s' e' w w' p h h' = ground arith

same_within :
    (t a b : ℕ) (p q : Bool)
    → (a ≤ t → t < b → p ≡ q)
    → (leb a t && ltb t b && not p) ≡ (leb a t && ltb t b && not q)
same_within t a b p q h = ground arith

module _ (text : TimeText) where
  open text use {Text, before, format, parse, parse-format, before-format}

  -- The session of a row is under way: it has started, and has not stopped by `t`; a row with no stop
  -- runs to the end of the day.
  abbrev pub under_way : ℕ → ℕ → SessionRow text → Bool
  under_way day_end t r = elim (parse r.start_time) [
    | none ↦ false
    | some s ↦ leb s t && ltb t (stop_of text day_end r.stop_time)
  ]

  -- The columns hold what Format wrote.
  pub record IsStored (r : SessionRow text) : Type 0 where
    pub start_written : (a : ℕ) × (r.start_time ≡ format a)
    pub stop_written : (r.stop_time ≡ none) ⊎ ((b : ℕ) × (r.stop_time ≡ some (format b)))

  covered_by-session_window :
      (a b t : ℕ) (r : SessionRow text)
      → a ≤ t
      → t < b
      → covered_by (session_window text a b r) t ≡ under_way b t r
  unfolding session_window covered_by
  covered_by-session_window a b t r p q = elim (Option-cases (parse r.start_time)) [
    | inl e ↦ rw (e, covered_by, under_way)
    | inr (s, e) ↦
        rw (e, covered_by, under_way) (covered_by-clip a b s (stop_of text b r.stop_time) t p q)
  ]

  covered_if_some :
      (t : ℕ) (o : Option Window) (ws : List Window)
      → covered (elim o [ none ↦ ws | some w ↦ w ∷ ws ]) t ≡ (covered_by o t || covered ws t)
  unfolding covered_by
  covered_if_some t none ws = refl
  covered_if_some t (some w) ws = refl

  covered-session_windows :
      (a b t : ℕ) (rs : List (SessionRow text))
      → a ≤ t
      → t < b
      → covered (session_windows text a b rs) t ≡ any (under_way b t) rs
  unfolding session_windows
  covered-session_windows a b t [] p q = refl
  covered-session_windows a b t (r ∷ rs) p q =
      covered_if_some t (session_window text a b r) (session_windows text a b rs)
      ∙ ap₂ ◌||◌ (covered_by-session_window a b t r p q) (covered-session_windows a b t rs p q)

  -- Before the last whole second of the day, the query leaves out no session that is under way.
  in_range-under_way :
      (a b t : ℕ) (r : SessionRow text)
      → IsStored r
      → a ≤ t
      → t < b / second * second
      → in_range text a b r ≡ false
      → under_way b t r ≡ false
  unfolding in_range stop_of
  in_range-under_way a b t r s p q h =
      let (x, e) = s.start_written in
      elim s.stop_written [
        | inl n ↦ ground (arith, e, n, parse-format x, before-format x b)
        | inr (y, n) ↦
            ground
              (arith, e, n, parse-format x, parse-format y, before-format x b, before-format a y)
      ]

  session_window-start-le :
      (a b : ℕ) (r : SessionRow text) (w : Window)
      → session_window text a b r ≡ some w
      → w.start ≤ b
  unfolding session_window
  session_window-start-le a b r w h =
      ground (arith, λ (s : ℕ). clip-start-le a b s (stop_of text b r.stop_time) w)

  session_window_mono :
      (a b : ℕ) (r r' : SessionRow text) (w w' : Window)
      → IsStored r
      → IsStored r'
      → started_before text r' r ≡ false
      → session_window text a b r ≡ some w
      → session_window text a b r' ≡ some w'
      → w.start ≤ w'.start
  unfolding session_window started_before
  session_window_mono a b r r' w w' k k' o h h' =
      let (x, e) = k.start_written in
      let (x', e') = k'.start_written in
      let ex : parse r.start_time ≡ some (x / second * second) = rw e (parse-format x) in
      let ex' : parse r'.start_time ≡ some (x' / second * second) = rw e' (parse-format x') in
      clip_mono a b (x / second * second) (stop_of text b r.stop_time) (x' / second * second)
        (stop_of text b r'.stop_time) w w' (ground (arith, before-format x' x, e, e', o))
        (rw (ex, session_window) at h) (rw (ex', session_window) at h')

  StartFrom-session_windows :
      (a b : ℕ) (r : SessionRow text) (w : Window) (rs : List (SessionRow text))
      → IsStored r
      → All IsStored rs
      → All (λ r'. started_before text r' r ≡ false) rs
      → session_window text a b r ≡ some w
      → StartFrom w.start (session_windows text a b rs)
  unfolding session_windows
  StartFrom-session_windows a b r w [] k ks o h = tt
  StartFrom-session_windows a b r w (r' ∷ rs) k ks o h =
      let rest = StartFrom-session_windows a b r w rs k ks.1 o.1 h in
      elim (Option-cases (session_window text a b r')) [
        | inl e ↦ rw (e, session_windows) rest
        | inr (w', e) ↦
            rw (e, session_windows) (session_window_mono a b r r' w w' k ks.0 o.0 h e, rest)
      ]

  session_windows-ByStart :
      (a b : ℕ) (rs : List (SessionRow text))
      → All IsStored rs
      → Ordered (λ r r'. started_before text r' r ≡ false) rs
      → ByStart (session_windows text a b rs)
  unfolding session_windows
  session_windows-ByStart a b [] ks o = tt
  session_windows-ByStart a b (r ∷ rs) ks o =
      let rest = session_windows-ByStart a b rs ks.1 o.1 in
      elim (Option-cases (session_window text a b r)) [
        | inl e ↦ rw (e, session_windows) rest
        | inr (w, e) ↦
            rw (e, session_windows) (StartFrom-session_windows a b r w rs ks.0 ks.1 o.0 e, rest)
      ]

  session_windows-start-le :
      (a b : ℕ) (rs : List (SessionRow text)) → All (λ w. w.start ≤ b) (session_windows text a b rs)
  unfolding session_windows
  session_windows-start-le a b [] = tt
  session_windows-start-le a b (r ∷ rs) = elim (Option-cases (session_window text a b r)) [
    | inl e ↦ rw (e, session_windows) (session_windows-start-le a b rs)
    | inr (w, e) ↦
        rw (e, session_windows) (session_window-start-le a b r w e, session_windows-start-le a b rs)
  ]

  -- The gaps of rows that come in the order of their starts.
  covered-gaps :
      (a b t : ℕ) (rs : List (SessionRow text))
      → All IsStored rs
      → Ordered (λ r r'. started_before text r' r ≡ false) rs
      → covered (invert_windows a b (merge_windows (session_windows text a b rs))) t
        ≡ (leb a t && ltb t b && not (any (under_way b t) rs))
  covered-gaps a b t rs ks o =
      let by = session_windows-ByStart a b rs ks o in
      let ws = session_windows text a b rs in
      covered-invert_windows t a b (merge_windows ws) (merge_windows-ByStart ws by)
        (merge_windows-start-le b ws (session_windows-start-le a b rs))
      ∙ same_within t a b _ _
          λ p q. covered-merge_windows t ws by ∙ covered-session_windows a b t rs p q

  module _ (order_by : Sorting) where
    open text.before-IsWeakOrder use {irrefl, asymm, trans}

    -- nonChargingWindows finds exactly the instants of the day at which no session of the table is
    -- under way, except within the last second of a day that ends in the middle of a second. The
    -- sessions' columns hold what the program wrote.
    pub covered-non_charging_windows :
        (day_start day_end t : ℕ) (table : List (SessionRow text))
        → All IsStored table
        → (t < day_end / second * second) ⊎ (day_end ≤ t)
        → covered (non_charging_windows text order_by day_start day_end table) t
          ≡ (leb day_start t && ltb t day_end && not (any (under_way day_end t) table))
    unfolding non_charging_windows started_before
    covered-non_charging_windows a b t table ks h =
        ∥∥₁_elim (order_by.sort-perm _ (started_before text) rows) (Bool-set _ _) λ p.
          covered-gaps a b t _ (All-Permᴰ IsStored p (All-select IsStored _ table ks))
            (sorted-Ordered order_by _ (started_before text) rows order)
          ∙ same_within t a b _ _ λ q r.
            any-perm (under_way b t) ∣ p ∣₁ ∙ any-select (under_way b t) _ table (complete q r)
      where
        rows : List (SessionRow text)
        rows = select (in_range text a b) table

        order : IsWeakOrder (started_before text)
        order = record {
          irrefl = λ x. irrefl x.start_time;
          asymm = λ x y. asymm x.start_time y.start_time;
          trans = λ x y z. trans x.start_time y.start_time z.start_time;
        }

        complete :
            a ≤ t → t < b → All (λ x. in_range text a b x ≡ false → under_way b t x ≡ false) table
        complete q r = All-map (λ x k e. in_range-under_way a b t x k q (omega arith) e) table ks
