-- ===== src/Prelude/Lists.antt =====
-- Lists over the native numbers under the library's names, a Boolean filter and existence test, and
-- predicates on lists by recursion.
use Prim.Native.Nat.{ℕ, suc}
use mathlib.Core.Path.{◌≡◌, refl, sym, ◌∙◌, subst}
use mathlib.Core.Logic.{∥∥₁_elim, inl, inr}
use mathlib.Core.Bool.{Bool, false, ◌||◌}
use mathlib.Core.List.{List, [], ◌∷◌, ◌++◌, map, Perm, Permᴰ}
use native.Mathlib.Omega.{arith}
use grosz.Prelude.Tests.{if◌then◌else◌, Bool-cases}

module _ {ℓ} {A : Type ℓ} where
  abbrev pub length : List A → ℕ
  length [] = 0
  length (_ ∷ xs) = suc (length xs)

  -- The elements that pass a Boolean test, in order.
  abbrev pub select : (A → Bool) → List A → List A
  select p [] = []
  select p (x ∷ xs) = let rest = select p xs in if p x then x ∷ rest else rest

  -- Whether some element passes a Boolean test.
  abbrev pub any : (A → Bool) → List A → Bool
  any p [] = false
  any p (x ∷ xs) = p x || any p xs

  abbrev pub All {κ} : (A → Type κ) → List A → Type κ
  All P [] = Unit
  All P (x ∷ xs) = P x × All P xs

  -- Every element stands in `R` to each one behind it.
  abbrev pub Ordered {κ} : (A → A → Type κ) → List A → Type κ
  Ordered R [] = Unit
  Ordered R (x ∷ xs) = All (R x) xs × Ordered R xs

  pub All-map {κ μ} :
      {P : A → Type κ} {Q : A → Type μ}
      → ((a : A) → P a → Q a)
      → (xs : List A) → All P xs
      → All Q xs
  All-map f [] h = tt
  All-map f (x ∷ xs) h = (f x h.0, All-map f xs h.1)

  pub All-both {κ μ ν} :
      {P : A → Type κ} {Q : A → Type μ} {R : A → Type ν}
      → ((a : A) → P a → Q a → R a)
      → (xs : List A) → All P xs
      → All Q xs
      → All R xs
  All-both f [] h k = tt
  All-both f (x ∷ xs) h k = (f x h.0 k.0, All-both f xs h.1 k.1)

  pub All-append {κ} : (P : A → Type κ) (xs ys : List A) → All P xs → All P ys → All P (xs ++ ys)
  All-append P [] ys h k = k
  All-append P (x ∷ xs) ys h k = (h.0, All-append P xs ys h.1 k)

  pub All-select {κ} :
      (P : A → Type κ) (p : A → Bool) (xs : List A) → All P xs → All P (select p xs)
  All-select P p [] h = tt
  All-select P p (x ∷ xs) h = ground (arith, All-select P p xs h.1)

  pub Ordered-select {κ} :
      (R : A → A → Type κ) (p : A → Bool) (xs : List A) → Ordered R xs → Ordered R (select p xs)
  Ordered-select R p [] h = tt
  Ordered-select R p (x ∷ xs) h = elim (Bool-cases (p x)) [
    | inl e ↦ rw e (All-select (R x) p xs h.0, Ordered-select R p xs h.1)
    | inr e ↦ rw e (Ordered-select R p xs h.1)
  ]

  -- A new last element.
  pub Ordered-snoc {κ} :
      (R : A → A → Type κ) (xs : List A) (y : A)
      → Ordered R xs
      → All (λ x. R x y) xs
      → Ordered R (xs ++ y ∷ [])
  Ordered-snoc R [] y h k = (tt, tt)
  Ordered-snoc R (x ∷ xs) y h k =
      (All-append (R x) xs (y ∷ []) h.0 (k.0, tt), Ordered-snoc R xs y h.1 k.1)

  -- What no element passes, all fail.
  pub All-any-false : (p : A → Bool) (xs : List A) → any p xs ≡ false → All (λ x. p x ≡ false) xs
  All-any-false p [] h = tt
  All-any-false p (x ∷ xs) h = elim (Bool-cases (p x)) [
    | inl e ↦ cc
    | inr e ↦ (e, All-any-false p xs (rw e at h))
  ]

  -- An order does not matter to what holds of all elements.
  pub All-Permᴰ {κ} : (P : A → Type κ) {xs ys : List A} → Permᴰ xs ys → All P ys → All P xs
  All-Permᴰ P Permᴰ.nil h = tt
  All-Permᴰ P (Permᴰ.cons e d) h = (subst P (sym e) h.0, All-Permᴰ P d h.1)
  All-Permᴰ P (Permᴰ.swap e g) h = (subst P (sym e) h.1.0, (subst P (sym g) h.0, h.1.1))
  All-Permᴰ P (Permᴰ.trans d e) h = All-Permᴰ P d (All-Permᴰ P e h)

  -- A filter that drops only what fails the test changes no existence.
  pub any-select :
      (p q : A → Bool) (xs : List A)
      → All (λ x. q x ≡ false → p x ≡ false) xs
      → any p (select q xs) ≡ any p xs
  any-select p q [] h = refl
  any-select p q (x ∷ xs) h = elim (Bool-cases (q x)) [
    | inl e ↦ rw e (rw (any-select p q xs h.1))
    | inr e ↦ rw (e, h.0 e) (any-select p q xs h.1)
  ]

pub Bool-set : IsSet Bool
Bool-set = hlevel

module _ {ℓ} {A : Type ℓ} (p : A → Bool) where
  any-Permᴰ : {xs ys : List A} → Permᴰ xs ys → any p xs ≡ any p ys
  any-Permᴰ Permᴰ.nil = refl
  any-Permᴰ (Permᴰ.cons {a = a} {b = b} e d) = rw (e, any-Permᴰ d)
  any-Permᴰ (Permᴰ.swap {a = a} {b = b} {a' = c} {b' = d} e g) = rw (e, g) (ground arith)
  any-Permᴰ (Permᴰ.trans d e) = any-Permᴰ d ∙ any-Permᴰ e

  -- Existence does not depend on the order.
  pub any-perm : {xs ys : List A} → Perm xs ys → any p xs ≡ any p ys
  any-perm h = ∥∥₁_elim h (Bool-set _ _) any-Permᴰ

  pub any-append : (xs ys : List A) → any p (xs ++ ys) ≡ (any p xs || any p ys)
  any-append [] ys = refl
  any-append (x ∷ xs) ys = ground (arith, any-append xs ys)

module _ {ℓ κ} {A : Type ℓ} {B : Type κ} (f : A → B) where
  -- A test after a map is another test.
  pub any-map :
      (p : B → Bool) (q : A → Bool)
      → ((a : A) → p (f a) ≡ q a)
      → (xs : List A) → any p (map f xs) ≡ any q xs
  any-map p q h [] = refl
  any-map p q h (x ∷ xs) = rw (h x, any-map p q h xs)

  pub All-of_map {μ ν} :
      (P : A → Type μ) (Q : B → Type ν)
      → ((a : A) → P a → Q (f a))
      → (xs : List A) → All P xs
      → All Q (map f xs)
  All-of_map P Q h [] k = tt
  All-of_map P Q h (x ∷ xs) k = (h x k.0, All-of_map P Q h xs k.1)

  pub Ordered-of_map {μ ν} :
      (R : A → A → Type μ) (S : B → B → Type ν)
      → ((a b : A) → R a b → S (f a) (f b))
      → (xs : List A) → Ordered R xs
      → Ordered S (map f xs)
  Ordered-of_map R S h [] k = tt
  Ordered-of_map R S h (x ∷ xs) k =
      (All-of_map (R x) (S (f x)) (h x) xs k.0, Ordered-of_map R S h xs k.1)
