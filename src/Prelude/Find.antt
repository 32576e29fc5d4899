-- ===== src/Prelude/Find.antt =====
-- Lists of rows as tables with a key: the first row that passes a test, and a row put in its place.
use mathlib.Core.Path.{◌≡◌}
use mathlib.Core.Logic.{inl, inr}
use mathlib.Core.Bool.{Bool, true, false}
use mathlib.Core.Option.{Option, none, some}
use mathlib.Core.List.{List, [], ◌∷◌}
use grosz.Prelude.Tests.{if◌then◌else◌, Bool-cases}

module _ {ℓ} {A : Type ℓ} where
  abbrev pub find_by : (A → Bool) → List A → Option A
  find_by p [] = none
  find_by p (x ∷ xs) = let rest = find_by p xs in if p x then some x else rest

  -- Replaces the first row that passes, or adds one.
  abbrev pub put_by : (A → Bool) → A → List A → List A
  put_by p a [] = a ∷ []
  put_by p a (x ∷ xs) = let rest = put_by p a xs in if p x then a ∷ xs else x ∷ rest

  pub find_by-put_by_same :
      (p : A → Bool) (a : A) → p a ≡ true → (xs : List A) → find_by p (put_by p a xs) ≡ some a
  find_by-put_by_same p a h [] = rw h
  find_by-put_by_same p a h (x ∷ xs) = elim (Bool-cases (p x)) [
    | inl e ↦ rw (e, h)
    | inr e ↦ rw (e, e) (find_by-put_by_same p a h xs)
  ]

  -- A row that fails another test, in place of rows that fail it, changes nothing for that test.
  pub find_by-put_by_other :
      (p q : A → Bool) (a : A)
      → q a ≡ false
      → ((x : A) → p x ≡ true → q x ≡ false)
      → (xs : List A) → find_by q (put_by p a xs) ≡ find_by q xs
  find_by-put_by_other p q a h k [] = rw h
  find_by-put_by_other p q a h k (x ∷ xs) = elim (Bool-cases (p x)) [
    | inl e ↦ rw (e, h, k x e)
    | inr e ↦ rw (e, find_by-put_by_other p q a h k xs)
  ]
