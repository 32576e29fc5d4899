-- ===== src/Store/Idle/Merge.antt =====
-- mergeWindows of internal/store/idle.go.
use grosz.Prelude.{
  ℕ, suc, ◌≤◌, ◌<◌, ◌≡◌, refl, inl, inr, List, [], ◌∷◌, arith, ltb, leb, if◌then◌else◌, All,
  Bool-cases,
}
use grosz.Window.{Window, covered, ByStart, Apart, StartFrom-mono}

-- `last.End = w.End` where that is later.
unfoldable pub extend : Window → Window → Window
extend last w = if ltb last.stop w.stop then record last { stop = w.stop } else last

-- The loop: `last` is the last window of `out`, which later windows may extend.
unfoldable pub merge_onto : Window → List Window → List Window
unfolding extend
merge_onto last [] = last ∷ []
merge_onto last (w ∷ ws) =
    let extended = merge_onto (extend last w) ws in
    let separate = last ∷ merge_onto w ws in if leb w.start last.stop then extended else separate

unfoldable pub merge_windows : List Window → List Window
unfolding merge_onto
merge_windows [] = []
merge_windows (w ∷ ws) = merge_onto w ws

covered-merge_onto :
    (t : ℕ) (last : Window) (ws : List Window)
    → ByStart (last ∷ ws)
    → covered (merge_onto last ws) t ≡ covered (last ∷ ws) t
unfolding merge_onto
covered-merge_onto t last [] h = refl
covered-merge_onto t last (w ∷ ws) h = ground (
  arith,
  covered-merge_onto t w ws h.1,
  covered-merge_onto t last ws (h.0.1, h.1.1),
  covered-merge_onto t (record last { stop = w.stop }) ws (h.0.1, h.1.1),
)

-- Merging covers the same instants.
pub covered-merge_windows :
    (t : ℕ) (ws : List Window) → ByStart ws → covered (merge_windows ws) t ≡ covered ws t
unfolding merge_windows
covered-merge_windows t [] h = refl
covered-merge_windows t (w ∷ ws) h = covered-merge_onto t w ws h

start-extend : (last w : Window) → (extend last w).start ≡ last.start
unfolding extend
start-extend last w = ground arith

-- A predicate that an extension and a new start preserve holds of all merged windows.
All-merge_onto :
    (P : Window → Type 0) (last : Window) (ws : List Window)
    → ((a b : Window) → P a → P b → P (extend a b))
    → P last
    → All P ws
    → All P (merge_onto last ws)
unfolding merge_onto
All-merge_onto P last [] keep p h = (p, tt)
All-merge_onto P last (w ∷ ws) keep p h = elim (Bool-cases (leb w.start last.stop)) [
  | inl e ↦ rw e (All-merge_onto P (extend last w) ws keep (keep last w p h.0) h.1)
  | inr e ↦ rw e (p, All-merge_onto P w ws keep h.0 h.1)
]

StartFrom-extend : (a : ℕ) (last w : Window) → a ≤ last.start → a ≤ (extend last w).start
StartFrom-extend a last w p = omega (arith, start-extend last w)

-- What is behind a gap stays behind it.
Apart-merge_onto :
    (last : Window) (ws : List Window) → ByStart (last ∷ ws) → Apart (merge_onto last ws)
unfolding merge_onto
Apart-merge_onto last [] h = (tt, tt)
Apart-merge_onto last (w ∷ ws) h = elim (Bool-cases (leb w.start last.stop)) [
  | inl e ↦ rw e (Apart-merge_onto (extend last w) ws (rw start-extend h.0.1, h.1.1))
  | inr e ↦ rw e (
    All-merge_onto (λ x. last.stop < x.start) w ws
        (λ a b p _. StartFrom-extend (suc last.stop) a b p) (ground arith)
        (StartFrom-mono (suc last.stop) w.start ws (ground arith) h.1.0),
    Apart-merge_onto w ws h.1,
  )
]

ByStart-merge_onto :
    (last : Window) (ws : List Window) → ByStart (last ∷ ws) → ByStart (merge_onto last ws)
unfolding merge_onto
ByStart-merge_onto last [] h = (tt, tt)
ByStart-merge_onto last (w ∷ ws) h = elim (Bool-cases (leb w.start last.stop)) [
  | inl e ↦ rw e (ByStart-merge_onto (extend last w) ws (rw start-extend h.0.1, h.1.1))
  | inr e ↦ rw e (
    All-merge_onto (λ x. last.start ≤ x.start) w ws (λ a b p _. StartFrom-extend last.start a b p)
        h.0.0 h.0.1,
    ByStart-merge_onto w ws h.1,
  )
]

-- The merged windows stay in the order of their starts.
pub merge_windows-ByStart : (ws : List Window) → ByStart ws → ByStart (merge_windows ws)
unfolding merge_windows
merge_windows-ByStart [] h = tt
merge_windows-ByStart (w ∷ ws) h = ByStart-merge_onto w ws h

start-extend-le : (t : ℕ) (a b : Window) → a.start ≤ t → (extend a b).start ≤ t
start-extend-le t a b p = omega (arith, start-extend a b)

pub merge_windows-start-le :
    (t : ℕ) (ws : List Window)
    → All (λ w. w.start ≤ t) ws
    → All (λ w. w.start ≤ t) (merge_windows ws)
unfolding merge_windows
merge_windows-start-le t [] h = tt
merge_windows-start-le t (w ∷ ws) h =
    All-merge_onto (λ x. x.start ≤ t) w ws (λ a b p _. start-extend-le t a b p) h.0 h.1

-- A predicate that an extension preserves holds of all merged windows.
pub All-merge_windows :
    (P : Window → Type 0) (ws : List Window)
    → ((a b : Window) → P a → P b → P (extend a b))
    → All P ws
    → All P (merge_windows ws)
unfolding merge_windows
All-merge_windows P [] keep h = tt
All-merge_windows P (w ∷ ws) keep h = All-merge_onto P w ws keep h.0 h.1

-- The merged windows neither overlap nor touch.
pub merge_windows-Apart : (ws : List Window) → ByStart ws → Apart (merge_windows ws)
unfolding merge_windows
merge_windows-Apart [] h = tt
merge_windows-Apart (w ∷ ws) h = Apart-merge_onto w ws h
