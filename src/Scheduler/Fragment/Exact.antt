-- ===== src/Scheduler/Fragment/Exact.antt =====
-- fragmentRates against its meaning: the instants that a rate prices and no override covers.
use mathlib.Core.Logic.{∥∥₁_elim}
use mathlib.Core.List.{Perm}
use grosz.Prelude.{
  ℕ, ◌%◌, ◌≤◌, ◌≡◌, refl, ap, ap₂, ◌∙◌, Bool, true, false, not, ◌&&◌, ◌||◌, List, [], ◌∷◌, map,
  arith, ltb, leb, select, any, All, Ordered, any-perm, any-append, All-Permᴰ, All-map, Bool-set,
  Bool-cases, inl, inr,
}
use grosz.Std.{Sorting, sorted-Ordered, Float64, second, key-IsWeakOrder}
use grosz.Window.{Window, covered, in_window, ByStart}
use grosz.Tariff.{Rate}
use grosz.Store.Overrides.{ScheduleOverride, window_of}
use grosz.Store.Idle.Merge.{extend, covered-merge_windows, All-merge_windows}
use grosz.Scheduler.Fragment.{
  is_long, starts_before, priced, rate_fragments, all_fragments, fragment_rates, rate_before,
}
use grosz.Scheduler.Fragment.Cut.{
  IsWhole, merge_carve, carve_all, covered-carve_all, All-carve_all, merge_carve-eq-merge_windows,
}

-- Between whole seconds no segment is too short, but the empty ones.
covered-select_long :
    (t : ℕ) (ws : List Window) → All IsWhole ws → covered (select is_long ws) t ≡ covered ws t
unfolding is_long
covered-select_long t [] h = refl
covered-select_long t (w ∷ ws) h = ground (arith, covered-select_long t ws h.1)

extend-IsWhole : (a b : Window) → IsWhole a → IsWhole b → IsWhole (extend a b)
unfolding extend
extend-IsWhole a b h k = ground arith

not_before : (a b : Window) → starts_before b a ≡ false → a.start ≤ b.start
unfolding starts_before
not_before a b h = ground arith

ByStart-of : (ws : List Window) → Ordered (λ a b. starts_before b a ≡ false) ws → ByStart ws
ByStart-of [] o = tt
ByStart-of (w ∷ ws) o = (All-map (not_before w) ws o.0, ByStart-of ws o.1)

carved-ByStart :
    (sorting : Sorting) (ws : List Window) → ByStart (sorting.sort Window starts_before ws)
unfolding starts_before
carved-ByStart sorting ws =
    ByStart-of _ (sorted-Ordered sorting Window starts_before ws (key-IsWeakOrder (λ w. w.start)))

module _ (fl : Float64) where
  open fl use {Float}

  -- Some rate prices the instant at a price that passes the test.
  abbrev pub priced_at : (Float → Bool) → List (Rate fl) → ℕ → Bool
  priced_at test rates t = any (λ r. test r.price && (leb r.start t && ltb t r.stop)) rates

  priced_at-map :
      (test : Float → Bool) (t : ℕ) (r : Rate fl) (ws : List Window)
      → priced_at test (map (priced fl r) ws) t ≡ (test r.price && covered ws t)
  unfolding priced
  priced_at-map test t r [] = ground arith
  priced_at-map test t r (w ∷ ws) = elim (Bool-cases (test r.price)) [
    | inl e ↦ ground (arith, priced_at-map test t r ws, e)
    | inr e ↦ ground (arith, priced_at-map test t r ws, e)
  ]

  -- A rate's ends are whole seconds.
  abbrev pub IsWholeRate : Rate fl → Type 0
  IsWholeRate r = (r.start % second ≡ 0) × (r.stop % second ≡ 0)

  abbrev pub IsWholeOverride : ScheduleOverride fl → Type 0
  IsWholeOverride o = (o.start % second ≡ 0) × (o.stop % second ≡ 0)

  priced_at-rate_fragments :
      (test : Float → Bool) (t : ℕ) (merged : List Window) (r : Rate fl)
      → All IsWhole merged
      → IsWholeRate r
      → priced_at test (rate_fragments fl merged r) t
        ≡ (test r.price && ((leb r.start t && ltb t r.stop) && not (covered merged t)))
  unfolding rate_fragments
  priced_at-rate_fragments test t merged r h k =
      let w : Window = record { start = r.start; stop = r.stop } in
      priced_at-map test t r _
      ∙ ap (test r.price &&◌) (
          covered-select_long t (carve_all merged w) (All-carve_all merged w h k)
          ∙ covered-carve_all t merged w)

  priced_at-all_fragments :
      (test : Float → Bool) (t : ℕ) (merged : List Window) (rs : List (Rate fl))
      → All IsWhole merged
      → All IsWholeRate rs
      → priced_at test (all_fragments fl merged rs) t
        ≡ (priced_at test rs t && not (covered merged t))
  unfolding all_fragments
  priced_at-all_fragments test t merged [] h k = refl
  priced_at-all_fragments test t merged (r ∷ rs) h k =
      any-append _ (rate_fragments fl merged r) (all_fragments fl merged rs)
      ∙ ap₂ ◌||◌ (priced_at-rate_fragments test t merged r h k.0)
          (priced_at-all_fragments test t merged rs h k.1)
      ∙ spread (test r.price) (leb r.start t && ltb t r.stop) (priced_at test rs t)
          (covered merged t)
    where
      spread : (a b c d : Bool) → ((a && (b && not d)) || (c && not d)) ≡ (((a && b) || c) && not d)
      spread a b c true = ground arith
      spread a b c false = ground arith

  covered-overrides :
      (t : ℕ) (os : List (ScheduleOverride fl)) (ws : List Window)
      → Perm ws (map (window_of fl) os)
      → ByStart ws
      → covered (merge_carve ws) t ≡ covered (map (window_of fl) os) t
  covered-overrides t os ws p by =
      ap (λ m. covered m t) (merge_carve-eq-merge_windows ws)
      ∙ covered-merge_windows t ws by
      ∙ any-perm (in_window t) p

  merge_carve-IsWhole : (ws : List Window) → All IsWhole ws → All IsWhole (merge_carve ws)
  merge_carve-IsWhole ws h =
      rw (merge_carve-eq-merge_windows ws) (All-merge_windows IsWhole ws extend-IsWhole h)

  window_of-IsWhole :
      (os : List (ScheduleOverride fl))
      → All IsWholeOverride os
      → All IsWhole (map (window_of fl) os)
  unfolding window_of
  window_of-IsWhole [] h = tt
  window_of-IsWhole (o ∷ os) h = (h.0, window_of-IsWhole os h.1)

  module _ (sorting : Sorting) where
    -- Whatever a price is tested for: the fragments price an instant at such a price exactly if a
    -- rate does and no override, forced or blocked, covers it. Times are whole seconds, as the
    -- tariff and the stored overrides have them.
    pub priced_at-fragment_rates :
        (test : Float → Bool) (t : ℕ) (rates : List (Rate fl)) (os : List (ScheduleOverride fl))
        → All IsWholeRate rates
        → All IsWholeOverride os
        → priced_at test (fragment_rates fl sorting rates os) t
          ≡ (priced_at test rates t && not (covered (map (window_of fl) os) t))
    unfolding fragment_rates
    priced_at-fragment_rates test t rates [] h k = ground arith
    priced_at-fragment_rates test t rates (o ∷ os) h k =
        ∥∥₁_elim (sorting.sort-perm _ starts_before ws) (Bool-set _ _) λ p.
          any-perm _ (sorting.sort-perm _ (rate_before fl) _)
          ∙ priced_at-all_fragments test t _ rates
              (merge_carve-IsWhole _ (All-Permᴰ IsWhole p (window_of-IsWhole (o ∷ os) k))) h
          ∙ ap (λ b. priced_at test rates t && not b)
              (covered-overrides t (o ∷ os) _ ∣ p ∣₁ (carved-ByStart sorting ws))
      where
        ws : List Window
        ws = map (window_of fl) (o ∷ os)
