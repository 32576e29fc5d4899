-- ===== src/Window/Defs.antt =====
-- The window and the predicates on lists of windows.
use grosz.Prelude.{ℕ, ◌≤◌, ◌<◌, Bool, ◌&&◌, List, ltb, leb, any, All, Ordered}

-- `End` of the source, which is a word of antt's layout in other places, is `stop`.
pub record Window : Type 0 where
  pub start : ℕ
  pub stop : ℕ

-- An instant lies in the window.
abbrev pub in_window : ℕ → Window → Bool
in_window t w = leb w.start t && ltb t w.stop

-- An instant lies in some window of the list.
abbrev pub covered : List Window → ℕ → Bool
covered ws t = any (in_window t) ws

-- The windows come in the order of their starts.
abbrev pub ByStart : List Window → Type 0
ByStart ws = Ordered (λ a b. a.start ≤ b.start) ws

-- Each window ends before the next one starts.
abbrev pub Apart : List Window → Type 0
Apart ws = Ordered (λ a b. a.stop < b.start) ws

-- The windows end by an instant.
abbrev pub EndBy : ℕ → List Window → Type 0
EndBy t ws = All (λ w. w.stop ≤ t) ws

abbrev pub StartFrom : ℕ → List Window → Type 0
StartFrom t ws = All (λ w. t ≤ w.start) ws
