-- ===== src/Window/Laws.antt =====
-- Facts about lists of windows that the components share.
use grosz.Prelude.{ℕ, ◌≤◌, ◌<◌, ◌≡◌, refl, false, List, [], ◌∷◌, arith}
use grosz.Window.Defs.{Window, covered, StartFrom}

-- Nothing is covered before the first start.
pub covered_before : (t a : ℕ) (ws : List Window) → StartFrom a ws → t < a → covered ws t ≡ false
covered_before t a [] h p = refl
covered_before t a (w ∷ ws) h p = ground (arith, covered_before t a ws h.1)

pub StartFrom-mono : (a b : ℕ) (ws : List Window) → a ≤ b → StartFrom b ws → StartFrom a ws
StartFrom-mono a b [] p h = tt
StartFrom-mono a b (w ∷ ws) p h = (omega arith, StartFrom-mono a b ws p h.1)
