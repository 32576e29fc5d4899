-- ===== src/Store/Idle/Invert.antt =====
-- invertWindows of internal/store/idle.go.
use grosz.Prelude.{
  ℕ, ◌≤◌, ◌<◌, ◌≡◌, refl, ◌∙◌, Bool, true, false, not, ◌&&◌, ◌||◌, List, [], ◌∷◌, arith, ltb, leb,
  if◌then◌else◌, All,
}
use grosz.Window.{Window, covered, in_window, ByStart, covered_before}

-- The loop, whose variable `cursor` is the first instant not yet dealt with.
invert_from : ℕ → ℕ → List Window → List Window
invert_from cursor stop [] =
    if ltb cursor stop then record { start = cursor; stop = stop } ∷ [] else []
invert_from cursor stop (w ∷ ws) =
    let rest = invert_from (if ltb cursor w.stop then w.stop else cursor) stop ws in
    if ltb cursor w.start then record { start = cursor; stop = w.start } ∷ rest else rest

pub invert_windows : ℕ → ℕ → List Window → List Window
unfolding invert_from
invert_windows start stop sessions = invert_from start stop sessions

covered_if :
    (t : ℕ) (b : Bool) (w : Window) (ws : List Window)
    → covered (if b then w ∷ ws else ws) t
      ≡ (if b then in_window t w || covered ws t else covered ws t)
covered_if t true w ws = refl
covered_if t false w ws = refl

-- One round: `rest` is the coverage of the gaps from the new cursor on, `later` that of the windows
-- behind `w`.
gap_round :
    (t cursor stop : ℕ) (w : Window) (rest later : Bool)
    → w.start ≤ stop
    → (t < w.start → later ≡ false)
    → rest ≡ (leb (if ltb cursor w.stop then w.stop else cursor) t && ltb t stop && not later)
    → (if ltb cursor w.start
        then in_window t (record { start = cursor; stop = w.start }) || rest
        else rest)
      ≡ (leb cursor t && ltb t stop && not (in_window t w || later))
gap_round t cursor stop w rest true p q e = ground arith
gap_round t cursor stop w rest false p q e = ground arith

covered-invert_from :
    (t cursor stop : ℕ) (ws : List Window)
    → ByStart ws
    → All (λ w. w.start ≤ stop) ws
    → covered (invert_from cursor stop ws) t ≡ (leb cursor t && ltb t stop && not (covered ws t))
unfolding invert_from
covered-invert_from t cursor stop [] h s = ground arith
covered-invert_from t cursor stop (w ∷ ws) h s =
    let cursor' : ℕ = if ltb cursor w.stop then w.stop else cursor in
    let rest = invert_from cursor' stop ws in
    covered_if t (ltb cursor w.start) _ rest
    ∙ gap_round t cursor stop w (covered rest t) (covered ws t) s.0
        (covered_before t w.start ws h.0) (covered-invert_from t cursor' stop ws h.1 s.1)

-- The gaps cover exactly the instants of [start, stop) that no window covers.
pub covered-invert_windows :
    (t start stop : ℕ) (ws : List Window)
    → ByStart ws
    → All (λ w. w.start ≤ stop) ws
    → covered (invert_windows start stop ws) t ≡ (leb start t && ltb t stop && not (covered ws t))
unfolding invert_windows
covered-invert_windows t start stop ws h s = covered-invert_from t start stop ws h s
