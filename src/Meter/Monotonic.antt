-- ===== src/Meter/Monotonic.antt =====
-- adjustEnergy and poll of internal/meter/meter.go: the readings that are stored never decrease.
use grosz.Prelude.{
  ℕ, ◌+◌, ◌-◌, ◌≤◌, ◌≡◌, ◌∙◌, sym, ap, refl, true, false, ◌&&◌, Option, none, some, arith, ltb,
  if-elim,
}
use grosz.Prelude.Int.{ℤ, pos, sub_ℕ, ltb_ℤ, pos_part, neg_part}
use grosz.Std.{Float64}
use grosz.Meter.{Energy, adjust_energy, meter_reset_threshold_wh}

-- 2 ^ 53: up to it, float64 has every whole number.
abbrev pub whole_limit : ℕ
whole_limit = 9_007_199_254_740_992

abbrev pub IsSmall : ℤ → Type 0
IsSmall z = pos_part z + neg_part z ≤ whole_limit

-- float64 computes with whole numbers that are small enough without rounding.
pub record IsExact (fl : Float64) : Type 0 where
  pub add_num :
      (a b : ℕ)
      → a + b ≤ whole_limit
      → fl.add (fl.num (pos a)) (fl.num (pos b)) ≡ fl.num (pos (a + b))
  pub sub_num :
      (a b : ℕ)
      → a ≤ whole_limit
      → b ≤ whole_limit
      → fl.sub (fl.num (pos a)) (fl.num (pos b)) ≡ fl.num (sub_ℕ a b)
  pub lt_num : (x y : ℤ) → IsSmall x → IsSmall y → fl.lt (fl.num x) (fl.num y) ≡ ltb_ℤ x y

module _ (fl : Float64) (exact : IsExact fl) where
  open fl use {Float, num, add, sub, lt}
  open exact use {add_num, sub_num, lt_num}

  sub_ℕ-IsSmall : (l : ℕ) → l + 1000 ≤ whole_limit → IsSmall (sub_ℕ l 1000)
  sub_ℕ-IsSmall l k = ground (arith, k)

  sub_ℕ-≤ : (a b : ℕ) → b ≤ a → sub_ℕ a b ≡ pos (a - b)
  sub_ℕ-≤ a b h = ground (arith, h)

  -- A number that is whole, and at most so much.
  pub record IsWhole (most : ℕ) (x : Float) : Type 0 where
    pub value : ℕ
    pub same : x ≡ num (pos value)
    pub few : value ≤ most

  abbrev pub IsWholeOption : ℕ → Option Float → Type 0
  IsWholeOption most none = Unit
  IsWholeOption most (some x) = IsWhole most x

  pub IsWhole-grows : (most more : ℕ) (x : Float) → most ≤ more → IsWhole most x → IsWhole more x
  IsWhole-grows most more x h w =
      let few = w.few in record { value = w.value; same = w.same; few = omega arith }

  pub IsWholeOption-grows :
      (most more : ℕ) (x : Option Float) → most ≤ more → IsWholeOption most x → IsWholeOption more x
  IsWholeOption-grows most more none h w = tt
  IsWholeOption-grows most more (some x) h w = IsWhole-grows most more x h w

  -- A reset: the test of adjustEnergy, on whole numbers.
  is_reset :
      (r o l : ℕ)
      → r + o ≤ whole_limit
      → l + 1000 ≤ whole_limit
      → lt (num (pos 0)) (num (pos l))
          && lt (add (num (pos r)) (num (pos o))) (sub (num (pos l)) (meter_reset_threshold_wh fl))
        ≡ ltb (r + o + 1000) l
  is_reset r o l h k =
      rw
        (
          add_num r o h,
          sub_num l 1000 (omega arith) (omega arith),
          lt_num (pos 0) (pos l) (omega arith) (omega arith),
          lt_num (pos (r + o)) (sub_ℕ l 1000) (omega arith) (sub_ℕ-IsSmall l k),
        )
        (ground arith)

  -- The result of adjustEnergy, on whole numbers: at least what the last one was.
  pub record IsAdjusted (most l : ℕ) (e : Energy fl) : Type 0 where
    pub offset : IsWhole most e.offset
    pub last : IsWhole most e.last
    pub stored : IsWholeOption most e.stored_offset
    pub grown : l ≤ last.value

  reset-IsAdjusted :
      (r o l most : ℕ) (stored : Option Float)
      → r + o ≤ l
      → l ≤ most
      → o ≤ most
      → most ≤ whole_limit
      → let offset = add (num (pos o)) (sub (num (pos l)) (add (num (pos r)) (num (pos o)))) in
        IsAdjusted most l
          (record { offset = offset; last = add (num (pos r)) offset; stored_offset = some offset })
  reset-IsAdjusted r o l most stored h k m n =
      let e1 = add_num r o (omega arith) in
      let e2 = sub_num l (r + o) (omega arith) (omega arith) ∙ ap num (sub_ℕ-≤ l (r + o) h) in
      let e3 = add_num o (l - (r + o)) (omega arith) in
      let e4 = add_num r (o + (l - (r + o))) (omega arith) in
      let offset : IsWhole most
          (add (num (pos o)) (sub (num (pos l)) (add (num (pos r)) (num (pos o))))) =
        record { value = o + (l - (r + o)); same = rw (e1, e2, e3) refl; few = omega arith } in
      record {
        offset = offset;
        stored = offset;
        last = record {
          value = r + (o + (l - (r + o)));
          same = rw (e1, e2, e3, e4) refl;
          few = omega arith;
        };
        grown = omega arith;
      }

  pub adjust_energy-IsAdjusted :
      (r o l most step : ℕ) (stored : Option Float)
      → r ≤ step
      → o ≤ most
      → l ≤ most
      → most + step + 1000 ≤ whole_limit
      → IsWholeOption most stored
      → IsAdjusted (most + step) l (
          adjust_energy fl
            (num (pos r))
            (record { offset = num (pos o); last = num (pos l); stored_offset = stored }))
  unfolding adjust_energy
  adjust_energy-IsAdjusted r o l most step stored hr ho hl hm w =
      let kept = IsWholeOption-grows most (most + step) stored (omega arith) w in
      let e1 = add_num r o (omega arith) in
      let same = is_reset r o l (omega arith) (omega arith) in
      let less =
        ap (λ x. lt x (num (pos l))) e1
        ∙ lt_num (pos (r + o)) (pos l) (omega arith) (omega arith) in
      if-elim (IsAdjusted (most + step) l) _ _ _
        (λ e.
          let below : ltb (r + o + 1000) l ≡ true = sym same ∙ e in
          reset-IsAdjusted r o l (most + step) stored (ground (arith, below)) (omega arith)
            (omega arith) (omega arith))
        (λ e.
          if-elim (IsAdjusted (most + step) l) _ _ _
            (λ f. record {
              offset = record { value = o; same = refl; few = omega arith };
              stored = kept;
              last = record { value = l; same = refl; few = omega arith };
              grown = omega arith;
            })
            (λ f.
              let above : ltb (r + o + 0) (l + 0) ≡ false = sym less ∙ f in
              record {
                offset = record { value = o; same = refl; few = omega arith };
                stored = kept;
                last = record { value = r + o; same = e1; few = omega arith };
                grown = ground (arith, above);
              }))
