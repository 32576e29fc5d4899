-- ===== src/Std.antt =====
-- What the program uses of Go's standard library and of SQLite, as parameters of the model: the
-- orders that sort.Slice and ORDER BY produce, and RFC 3339 texts. An instant (time.Time) is a
-- number of nanoseconds since Go's zero time, so the zero time is 0 and IsZero is `== 0`; the
-- location of a time plays no part in Before, After, Equal and Sub.
use mathlib.Core.List.{Perm}
use grosz.Prelude.Int.{ℤ, pos}
use grosz.Prelude.{
  ℕ, ◌/◌, ◌*◌, ◌≡◌, Bool, true, false, Option, some, List, [], ◌∷◌, arith, ltb, All, Ordered,
}

-- time.Second, and the other units that the program names.
abbrev pub second : ℕ
second = 1_000_000_000

abbrev pub minute : ℕ
minute = 60_000_000_000

abbrev pub hour : ℕ
hour = 3_600_000_000_000

-- What sort.Slice asks of its `less`: a strict order whose incomparability is transitive.
pub record IsWeakOrder {A : Type 0} (less : A → A → Bool) : Type 0 where
  pub irrefl : (a : A) → less a a ≡ false
  pub asymm : (a b : A) → less a b ≡ true → less b a ≡ false
  pub trans : (a b c : A) → less b a ≡ false → less c b ≡ false → less c a ≡ false

-- The same, for the elements that a predicate holds of.
pub record IsWeakOrderOn {A : Type 0} (P : A → Type 0) (less : A → A → Bool) : Type 0 where
  pub irrefl_on : (a : A) → P a → less a a ≡ false
  pub asymm_on : (a b : A) → P a → P b → less a b ≡ true → less b a ≡ false
  pub trans_on :
      (a b c : A) → P a → P b → P c → less b a ≡ false → less c b ≡ false → less c a ≡ false

-- sort.Slice, and the ORDER BY of a query: some rearrangement in which no element is less than one
-- before it. Neither promises that equal elements keep their places.
pub record Sorting : Type 1 where
  pub sort : (A : Type 0) → (A → A → Bool) → List A → List A
  pub sort-perm : (A : Type 0) (less : A → A → Bool) (xs : List A) → Perm (sort A less xs) xs
  pub sort-Ordered :
      (A : Type 0) (less : A → A → Bool) (P : A → Type 0) (xs : List A)
      → IsWeakOrderOn P less
      → All P xs
      → Ordered (λ a b. less b a ≡ false) (sort A less xs)

-- What is sorted by an order on all elements is in order.
pub sorted-Ordered :
    (sorting : Sorting) (A : Type 0) (less : A → A → Bool) (xs : List A)
    → IsWeakOrder less
    → Ordered (λ a b. less b a ≡ false) (sorting.sort A less xs)
sorted-Ordered sorting A less xs weak =
    sorting.sort-Ordered A less (λ a. Unit {0}) xs
      (record {
        irrefl_on = λ a p. weak.irrefl a;
        asymm_on = λ a b p q. weak.asymm a b;
        trans_on = λ a b c p q r. weak.trans a b c;
      })
      (All-any_Unit xs)
  where
    All-any_Unit : (ys : List A) → All (λ (a : A). Unit {0}) ys
    All-any_Unit [] = tt
    All-any_Unit (y ∷ ys) = (tt, All-any_Unit ys)

-- UTC().Format(time.RFC3339) and time.Parse(time.RFC3339, _), for the years 0 to 9999: the text
-- keeps whole seconds, and texts compare, byte by byte, as the seconds that they name.
pub record TimeText : Type 1 where
  pub Text : Type 0
  pub before : Text → Text → Bool
  pub before-IsWeakOrder : IsWeakOrder before
  pub format : ℕ → Text
  pub parse : Text → Option ℕ
  pub parse-format : (t : ℕ) → parse (format t) ≡ some (t / second * second)
  pub before-format : (t u : ℕ) → before (format t) (format u) ≡ ltb (t / second) (u / second)

-- A comparison of numbers that elements carry is such an order.
pub key-IsWeakOrder : {A : Type 0} (key : A → ℕ) → IsWeakOrder (λ (a b : A). ltb (key a) (key b))
key-IsWeakOrder key = record {
  irrefl = λ a. ground arith;
  asymm = λ a b p. ground arith;
  trans = λ a b c p q. ground arith;
}

-- float64 and the conversions of the time package into it. Go's `a > b` is `lt b a`, and every
-- comparison with a NaN but `!=` is false, so `le` is not the negation of `lt`.
pub record Float64 : Type 1 where
  pub Float : Type 0
  pub num : ℤ → Float
  pub add : Float → Float → Float
  pub sub : Float → Float → Float
  pub mul : Float → Float → Float
  pub div : Float → Float → Float
  pub lt : Float → Float → Bool
  pub le : Float → Float → Bool
  pub eq : Float → Float → Bool
  -- A number that is not a NaN is equal to itself; numbers are ordered, and `==` is an equivalence
  -- but for NaNs.
  pub lt-IsWeakOrder : IsWeakOrderOn (λ x. eq x x ≡ true) lt
  pub eq_sym : (x y : Float) → eq x y ≡ true → eq y x ≡ true
  pub eq_trans : (x y z : Float) → eq x y ≡ true → eq y z ≡ true → eq x z ≡ true
  -- math.Round, and int(math.Ceil(x)).
  pub round : Float → Float
  pub int_ceil : Float → ℤ
  -- Duration.Hours, Duration.Seconds and int(d.Seconds()), of a duration in nanoseconds.
  pub hours : ℤ → Float
  pub seconds : ℤ → Float
  pub int_seconds : ℤ → ℤ
  pub int_seconds_whole : (n : ℕ) → int_seconds (pos (n * second)) ≡ pos n

-- A float that is not a NaN.
abbrev pub IsNumber : (fl : Float64) → fl.Float → Type 0
IsNumber fl x = fl.eq x x ≡ true

-- The calendar in the local time zone: time.Date with the day of an instant and a given hour and
-- minute, Time.Hour, Time.Minute, and Format("2006-01-02"), whose text stands for its day as a
-- number: dates compare as texts the way days do.
pub record Calendar : Type 0 where
  pub at_clock : ℕ → ℕ → ℕ → ℕ
  pub hour_of : ℕ → ℕ
  pub minute_of : ℕ → ℕ
  pub date : ℕ → ℕ
