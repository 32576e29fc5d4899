-- ===== src/Tests/Models.antt =====
-- Concrete values of the parameters: insertion sort, texts that are seconds, numbers without
-- fractions for floats, and a calendar in UTC.
use mathlib.Core.List.{Perm}
use mathlib.Core.List.Perm
use grosz.Prelude.{
  ℕ, ◌+◌, ◌*◌, ◌/◌, ◌%◌, ◌≡◌, true, refl, inl, inr, Bool, false, some, List, [], ◌∷◌, arith, ltb,
  leb, ◌==◌, if◌then◌else◌, All, Ordered, All-both, Bool-cases,
}
use grosz.Prelude.Int.{ℤ, pos, negsuc, pos_part, neg_part, sub_ℕ, ltb_ℤ}
use grosz.Std.{
  Sorting, IsWeakOrderOn, TimeText, Float64, Calendar, second, minute, hour, key-IsWeakOrder,
}
use grosz.Store.ConnectorState.{NanoText}
use grosz.Store.Sessions.{Sums}
use grosz.Scheduler.Recompute.Apply.{Digest}

module _ {A : Type 0} (less : A → A → Bool) where
  unfoldable pub insert_sorted : A → List A → List A
  insert_sorted x [] = x ∷ []
  insert_sorted x (y ∷ ys) =
      let rest = insert_sorted x ys in if less y x then y ∷ rest else x ∷ y ∷ ys

  unfoldable pub insertion_sort : List A → List A
  unfolding insert_sorted
  insertion_sort [] = []
  insertion_sort (x ∷ xs) = insert_sorted x (insertion_sort xs)

  insert_sorted-perm : (x : A) (ys : List A) → Perm (insert_sorted x ys) (x ∷ ys)
  unfolding insert_sorted
  insert_sorted-perm x [] = Perm.refl (x ∷ [])
  insert_sorted-perm x (y ∷ ys) = elim (Bool-cases (less y x)) [
    | inl e ↦ rw e (Perm.trans (Perm.cons y (insert_sorted-perm x ys)) (Perm.swap x y ys))
    | inr e ↦ rw e (Perm.refl (x ∷ y ∷ ys))
  ]

  pub insertion_sort-perm : (xs : List A) → Perm (insertion_sort xs) xs
  unfolding insertion_sort
  insertion_sort-perm [] = Perm.refl []
  insertion_sort-perm (x ∷ xs) =
      Perm.trans (insert_sorted-perm x (insertion_sort xs)) (Perm.cons x (insertion_sort-perm xs))

  abbrev InTurn : List A → Type 0
  InTurn xs = Ordered (λ a b. less b a ≡ false) xs

  All-insert_sorted :
      (P : A → Type 0) (x : A) (ys : List A) → P x → All P ys → All P (insert_sorted x ys)
  unfolding insert_sorted
  All-insert_sorted P x [] p h = (p, tt)
  All-insert_sorted P x (y ∷ ys) p h = elim (Bool-cases (less y x)) [
    | inl e ↦ rw e (h.0, All-insert_sorted P x ys p h.1)
    | inr e ↦ rw e (p, h)
  ]

  module _ (P : A → Type 0) (weak : IsWeakOrderOn P less) where
    insert_sorted-InTurn :
        (x : A) (ys : List A) → P x → All P ys → InTurn ys → InTurn (insert_sorted x ys)
    unfolding insert_sorted
    insert_sorted-InTurn x [] p ps o = (tt, tt)
    insert_sorted-InTurn x (y ∷ ys) p ps o = elim (Bool-cases (less y x)) [
      | inl e ↦ rw e (
        All-insert_sorted (λ b. less b y ≡ false) x ys (weak.asymm_on y x ps.0 p e) o.0,
        insert_sorted-InTurn x ys p ps.1 o.1,
      )
      | inr e ↦ rw e (
        (
          e,
          All-both (λ b (q : P b) (h : less b y ≡ false). weak.trans_on x y b p ps.0 q e h) ys ps.1
              o.0,
        ),
        o,
      )
    ]

    All-perm_sorted : (xs : List A) → All P xs → All P (insertion_sort xs)
    unfolding insertion_sort
    All-perm_sorted [] ps = tt
    All-perm_sorted (x ∷ xs) ps =
        All-insert_sorted P x (insertion_sort xs) ps.0 (All-perm_sorted xs ps.1)

    pub insertion_sort-InTurn : (xs : List A) → All P xs → InTurn (insertion_sort xs)
    unfolding insertion_sort
    insertion_sort-InTurn [] ps = tt
    insertion_sort-InTurn (x ∷ xs) ps =
        insert_sorted-InTurn x (insertion_sort xs) ps.0 (All-perm_sorted xs ps.1)
          (insertion_sort-InTurn xs ps.1)

abbrev pub sorting : Sorting
sorting = record {
  sort = λ A less xs. insertion_sort less xs;
  sort-perm = λ A less xs. insertion_sort-perm less xs;
  sort-Ordered = λ A less P xs weak ps. insertion_sort-InTurn less P weak xs ps;
}

abbrev pub seconds_text : TimeText
seconds_text = record {
  Text = ℕ;
  before = ltb;
  before-IsWeakOrder = key-IsWeakOrder (λ n. n);
  format = λ t. t / second;
  parse = λ s. some (s * second);
  parse-format = λ t. refl;
  before-format = λ t u. refl;
}

-- Rounds towards 0.
unfoldable pub div_ℤ : ℤ → ℤ → ℤ
div_ℤ (pos a) (pos b) = pos (a / b)
div_ℤ (negsuc a) (pos b) = sub_ℕ 0 ((a + 1) / b)
div_ℤ (pos a) (negsuc b) = sub_ℕ 0 (a / (b + 1))
div_ℤ (negsuc a) (negsuc b) = pos ((a + 1) / (b + 1))

pub int_seconds_whole : (n : ℕ) → div_ℤ (pos (n * second)) (pos second) ≡ pos n
unfolding div_ℤ
int_seconds_whole n = ground arith

pub ltb_ℤ-IsWeakOrder :
    IsWeakOrderOn (λ (a : ℤ). (pos_part a + neg_part a == pos_part a + neg_part a) ≡ true) ltb_ℤ
ltb_ℤ-IsWeakOrder = record {
  irrefl_on = λ a p. ground arith;
  asymm_on = λ a b p q h. ground arith;
  trans_on = λ a b c p q r h k. ground arith;
}

abbrev same_ℤ : ℤ → ℤ → Bool
same_ℤ a b = (pos_part a + neg_part b) == (pos_part b + neg_part a)

pub same_sym : (a b : ℤ) → same_ℤ a b ≡ true → same_ℤ b a ≡ true
same_sym a b h = ground (arith, h)

pub same_trans : (a b c : ℤ) → same_ℤ a b ≡ true → same_ℤ b c ≡ true → same_ℤ a c ≡ true
same_trans a b c h k = ground (arith, h, k)

abbrev pub whole_floats : Float64
whole_floats = record {
  Float = ℤ;
  num = λ n. n;
  add = λ a b. sub_ℕ (pos_part a + pos_part b) (neg_part a + neg_part b);
  sub = λ a b. sub_ℕ (pos_part a + neg_part b) (neg_part a + pos_part b);
  mul = λ a b.
      sub_ℕ (pos_part a * pos_part b + neg_part a * neg_part b)
        (pos_part a * neg_part b + neg_part a * pos_part b);
  div = div_ℤ;
  lt = ltb_ℤ;
  lt-IsWeakOrder = ltb_ℤ-IsWeakOrder;
  eq_sym = same_sym;
  eq_trans = same_trans;
  le = λ a b. leb (pos_part a + neg_part b) (pos_part b + neg_part a);
  eq = λ a b. (pos_part a + neg_part b) == (pos_part b + neg_part a);
  round = λ a. a;
  int_ceil = λ a. a;
  hours = λ d. div_ℤ d (pos hour);
  seconds = λ d. div_ℤ d (pos second);
  int_seconds = λ d. div_ℤ d (pos second);
  int_seconds_whole = int_seconds_whole;
}

abbrev pub utc : Calendar
utc = record {
  at_clock = λ t h m. t / (24 * hour) * (24 * hour) + h * hour + m * minute;
  hour_of = λ t. t / hour % 24;
  minute_of = λ t. t / minute % 60;
  date = λ t. t / (24 * hour);
}

abbrev pub constant_digest : Digest whole_floats
constant_digest = record { digest = λ ps. 1; digest_ne_empty = λ ps. refl }

abbrev add_up : List ℤ → ℤ
add_up [] = pos 0
add_up (x ∷ xs) = whole_floats.add x (add_up xs)

abbrev pub sums : Sums whole_floats
sums = record { sum = add_up; sum-nil = refl }

abbrev pub nano_text : NanoText
nano_text = record {
  Text = ℕ;
  format = λ t. t;
  parse = λ s. some s;
  parse_seconds = λ s. some s;
  parse-format = λ t. refl;
}
