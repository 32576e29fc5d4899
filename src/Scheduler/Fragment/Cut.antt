-- ===== src/Scheduler/Fragment/Cut.antt =====
-- The two loops of fragmentRates over windows: the overrides are merged, and each is cut out of the
-- segments of a rate.
use grosz.Prelude.{
  ℕ, ◌≡◌, refl, sym, ap, ap₂, ◌∙◌, Bool, true, false, not, ◌&&◌, ◌||◌, List, [], ◌∷◌, ◌++◌, arith,
  ◌%◌, inl, inr, Bool-cases, ltb, if◌then◌else◌, All, All-append,
}
use grosz.Std.{second}
use grosz.Window.{Window, covered, in_window}
use grosz.Store.Idle.Merge.{merge_windows}

-- The loop that merges the sorted windows: `last` is the last of `merged`.
carve_onto : Window → List Window → List Window
carve_onto last [] = last ∷ []
carve_onto last (c ∷ cs) =
    let separate = last ∷ carve_onto c cs in
    let extended =
      carve_onto (if ltb last.stop c.stop then record last { stop = c.stop } else last) cs in
    if ltb last.stop c.start then separate else extended

pub merge_carve : List Window → List Window
unfolding carve_onto
merge_carve [] = []
merge_carve (c ∷ cs) = carve_onto c cs

-- What is left of a segment: it stays whole if it does not meet `c`.
cut : Window → Window → List Window
cut c seg =
    let left : List Window =
      if ltb seg.start c.start then record { start = seg.start; stop = c.start } ∷ [] else [] in
    let right : List Window =
      if ltb c.stop seg.stop then record { start = c.stop; stop = seg.stop } ∷ [] else [] in
    if not (ltb seg.start c.stop) || not (ltb c.start seg.stop) then seg ∷ [] else left ++ right

-- The loop over the segments.
cut_each : Window → List Window → List Window
unfolding cut
cut_each c [] = []
cut_each c (seg ∷ segs) = cut c seg ++ cut_each c segs

-- One round of the loop over the merged overrides, which passes over those that do not meet the rate.
cut_round : Window → List Window → Window → List Window
unfolding cut_each
cut_round r segs c =
    if not (ltb r.start c.stop) || not (ltb c.start r.stop) then segs else cut_each c segs

cut_all : Window → List Window → List Window → List Window
unfolding cut_round
cut_all r segs [] = segs
cut_all r segs (c ∷ cs) = cut_all r (cut_round r segs c) cs

pub carve_all : List Window → Window → List Window
unfolding cut_all
carve_all merged r = cut_all r (r ∷ []) merged

covered-append :
    (t : ℕ) (xs ys : List Window) → covered (xs ++ ys) t ≡ (covered xs t || covered ys t)
covered-append t [] ys = refl
covered-append t (x ∷ xs) ys = ground (arith, covered-append t xs ys)

covered-cut :
    (t : ℕ) (c seg : Window) → covered (cut c seg) t ≡ (in_window t seg && not (in_window t c))
unfolding cut
covered-cut t c seg = ground arith

covered-cut_each :
    (t : ℕ) (c : Window) (segs : List Window)
    → covered (cut_each c segs) t ≡ (covered segs t && not (in_window t c))
unfolding cut_each
covered-cut_each t c [] = refl
covered-cut_each t c (seg ∷ segs) =
    covered-append t (cut c seg) (cut_each c segs)
    ∙ ap₂ ◌||◌ (covered-cut t c seg) (covered-cut_each t c segs)
    ∙ distrib (in_window t seg) (covered segs t) (in_window t c)
  where
    distrib : (a b d : Bool) → ((a && not d) || (b && not d)) ≡ ((a || b) && not d)
    distrib true b d = ground arith
    distrib false b d = refl

-- One round of `cut_all`: windows that lie in `r` lose the instants of `c`, whether `c` meets `r` or
-- not.
covered-cut_round :
    (t : ℕ) (r c : Window) (segs : List Window)
    → (covered segs t ≡ true → in_window t r ≡ true)
    → covered (cut_round r segs c) t ≡ (covered segs t && not (in_window t c))
unfolding cut_round
covered-cut_round t r c segs h = ground (arith, covered-cut_each t c segs, h)

covered-cut_all :
    (t : ℕ) (r : Window) (segs cs : List Window)
    → (covered segs t ≡ true → in_window t r ≡ true)
    → covered (cut_all r segs cs) t ≡ (covered segs t && not (covered cs t))
unfolding cut_all
covered-cut_all t r segs [] h = ground arith
covered-cut_all t r segs (c ∷ cs) h =
    covered-cut_all t r (cut_round r segs c) cs
      (λ e. h (and_left _ _ (sym (covered-cut_round t r c segs h) ∙ e)))
    ∙ ap (λ b. b && not (covered cs t)) (covered-cut_round t r c segs h)
    ∙ and_not_not (covered segs t) (in_window t c) (covered cs t)
  where
    and_left : (a b : Bool) → (a && b) ≡ true → a ≡ true
    and_left true b e = refl
    and_left false b e = e

    and_not_not : (a b d : Bool) → (a && not b && not d) ≡ (a && not (b || d))
    and_not_not a true d = ground arith
    and_not_not a false d = ground arith

-- The segments of a rate cover what the rate does, less the overrides.
pub covered-carve_all :
    (t : ℕ) (cs : List Window) (r : Window)
    → covered (carve_all cs r) t ≡ (in_window t r && not (covered cs t))
unfolding carve_all
covered-carve_all t cs r =
    covered-cut_all t r (r ∷ []) cs (λ e. sym (or_false (in_window t r)) ∙ e)
    ∙ ap (λ b. b && not (covered cs t)) (or_false (in_window t r))
  where
    or_false : (b : Bool) → (b || false) ≡ b
    or_false true = refl
    or_false false = refl

-- The two packages merge windows by loops that agree.
carve_onto-eq-merge_onto :
    (last : Window) (cs : List Window) → carve_onto last cs ≡ merge_windows (last ∷ cs)
unfolding carve_onto merge_windows
carve_onto-eq-merge_onto last [] = refl
carve_onto-eq-merge_onto last (c ∷ cs) = ground (
  arith,
  carve_onto-eq-merge_onto c cs,
  carve_onto-eq-merge_onto last cs,
  carve_onto-eq-merge_onto (record last { stop = c.stop }) cs,
)

pub merge_carve-eq-merge_windows : (cs : List Window) → merge_carve cs ≡ merge_windows cs
unfolding merge_carve merge_windows
merge_carve-eq-merge_windows [] = refl
merge_carve-eq-merge_windows (c ∷ cs) = carve_onto-eq-merge_onto c cs

-- The ends of a window are whole seconds.
abbrev pub IsWhole : Window → Type 0
IsWhole w = (w.start % second ≡ 0) × (w.stop % second ≡ 0)

All-cut : (c seg : Window) → IsWhole c → IsWhole seg → All IsWhole (cut c seg)
unfolding cut
All-cut c seg h k = ground arith

All-cut_each :
    (c : Window) (segs : List Window) → IsWhole c → All IsWhole segs → All IsWhole (cut_each c segs)
unfolding cut_each
All-cut_each c [] h k = tt
All-cut_each c (seg ∷ segs) h k =
    All-append IsWhole (cut c seg) _ (All-cut c seg h k.0) (All-cut_each c segs h k.1)

All-cut_all :
    (r : Window) (segs cs : List Window)
    → All IsWhole cs
    → All IsWhole segs
    → All IsWhole (cut_all r segs cs)
unfolding cut_all
All-cut_all r segs [] h k = k
All-cut_all r segs (c ∷ cs) h k =
    All-cut_all r (cut_round r segs c) cs h.1
      (elim (Bool-cases (not (ltb r.start c.stop) || not (ltb c.start r.stop))) [
        | inl e ↦ rw (e, cut_round) k
        | inr e ↦ rw (e, cut_round) (All-cut_each c segs h.0 k)
      ])

pub All-carve_all :
    (cs : List Window) (r : Window) → All IsWhole cs → IsWhole r → All IsWhole (carve_all cs r)
unfolding carve_all
All-carve_all cs r h k = All-cut_all r (r ∷ []) cs h (k, tt)
