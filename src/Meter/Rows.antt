-- ===== src/Meter/Rows.antt =====
-- The readings in the store of internal/meter/meter.go: which of them are in order, and which is the latest.
use grosz.Prelude.{
  ℕ, ◌≤◌, ◌≡◌, ◌≢◌, ◌∙◌, sym, subst, refl, inl, inr, false, Option, none, some, List, [], ◌∷◌,
  arith, ltb, Option-cases, some_eq, All, Ordered,
}
use grosz.Prelude.Int.{pos}
use grosz.Std.{Float64, TimeText}
use grosz.Store.Meter.{MeterRow, latest}
use grosz.Meter.Monotonic.{whole_limit, IsExact, IsWhole, IsWholeOption}

module _ (fl : Float64) (exact : IsExact fl) (text : TimeText) where
  open fl use {Float, num, lt}

  abbrev Row : Type 0
  Row = MeterRow fl text

  -- A number is not below another one.
  abbrev pub IsNotBelow : Float → Float → Type 0
  IsNotBelow x y = lt y x ≡ false

  lt-whole :
      (most : ℕ) (x y : Float) (v : IsWhole fl exact most x) (w : IsWhole fl exact most y)
      → most ≤ whole_limit
      → lt x y ≡ ltb v.value w.value
  lt-whole most x y v w h =
      let few = v.few in
      let few' = w.few in
      let e = exact.lt_num (pos v.value) (pos w.value) (omega arith) (omega arith) in
      rw (v.same, w.same) (e ∙ (ground arith))

  -- The readings never decrease.
  abbrev pub IsSeries : List Row → Type 0
  IsSeries rows = Ordered (λ (a b : Row). IsNotBelow a.energy_wh b.energy_wh) rows

  pub IsNotBelow-refl :
      (most : ℕ) (x : Float) → most ≤ whole_limit → IsWhole fl exact most x → IsNotBelow x x
  IsNotBelow-refl most x h w = lt-whole most x x w w h ∙ (ground arith)

  -- What is not above a number is not above a greater one.
  pub IsNotBelow-grown :
      (most : ℕ) (x l l' : Float)
      → most ≤ whole_limit
      → IsWhole fl exact most x
      → (v : IsWhole fl exact most l) (w : IsWhole fl exact most l') → v.value ≤ w.value
      → IsNotBelow x l
      → IsNotBelow x l'
  IsNotBelow-grown most x l l' h u v w k n =
      let few : ltb v.value u.value ≡ false = sym (lt-whole most l x v u h) ∙ n in
      lt-whole most l' x w u h ∙ (ground (arith, few, k))

  latest-cons : (q x : Row) (rows : List Row) → latest (q ∷ x ∷ rows) ≡ latest (x ∷ rows)
  latest-cons q x rows = elim (Option-cases (latest rows)) [
    | inl e ↦ rw e refl
    | inr (y, e) ↦ rw e refl
  ]

  All-latest :
      (P : Row → Type 0) (rows : List Row) → All P rows → (r : Row) → latest rows ≡ some r → P r
  All-latest P [] w r e = absurd (cc e)
  All-latest P (q ∷ []) w r e = subst P (some_eq q r e) w.0
  All-latest P (q ∷ x ∷ rows) w r e = All-latest P (x ∷ rows) w.1 r (sym (latest-cons q x rows) ∙ e)

  -- The latest reading is not below any.
  latest-IsNotBelow :
      (most : ℕ)
      → most ≤ whole_limit
      → (rows : List Row) → All (λ (r : Row). IsWhole fl exact most r.energy_wh) rows
      → IsSeries rows
      → (r : Row) → latest rows ≡ some r
      → IsWhole fl exact most r.energy_wh
        × All (λ (q : Row). IsNotBelow q.energy_wh r.energy_wh) rows
  latest-IsNotBelow most h [] w o r e = absurd (cc e)
  latest-IsNotBelow most h (q ∷ []) w o r e =
      let same : q ≡ r = some_eq q r e in
      subst
        (λ (r : Row).
          IsWhole fl exact most r.energy_wh × (IsNotBelow q.energy_wh r.energy_wh × Unit {0}))
        same (w.0, (IsNotBelow-refl most q.energy_wh h w.0, tt))
  latest-IsNotBelow most h (q ∷ x ∷ rows) w o r e =
      let e' = sym (latest-cons q x rows) ∙ e in
      let ih = latest-IsNotBelow most h (x ∷ rows) w.1 o.1 r e' in
      (
        ih.0,
        (All-latest (λ (r : Row). IsNotBelow q.energy_wh r.energy_wh) (x ∷ rows) o.0 r e', ih.1),
      )

  pub stored_offset-IsWhole :
      (most : ℕ) (o : Option Float)
      → IsWholeOption fl exact most o
      → IsWhole fl exact most (elim o [ none ↦ num (pos 0) | some x ↦ x ])
  stored_offset-IsWhole most none w = record { value = 0; same = refl; few = omega arith }
  stored_offset-IsWhole most (some x) w = w

  some_latest : (q : Row) (rows : List Row) → latest (q ∷ rows) ≢ none
  some_latest q rows e = elim (Option-cases (latest rows)) [
    | inl f ↦ absurd (cc (e, f))
    | inr (y, f) ↦ absurd (cc (e, f))
  ]

  All-latest-none : (P : Row → Type 0) (rows : List Row) → latest rows ≡ none → All P rows
  All-latest-none P [] e = tt
  All-latest-none P (q ∷ []) e = absurd (cc e)
  All-latest-none P (q ∷ x ∷ rows) e = absurd (some_latest x rows (sym (latest-cons q x rows) ∙ e))

  -- What initEnergyState takes for the last reading.
  pub initial_last :
      (most : ℕ) (last : Float)
      → most ≤ whole_limit
      → IsWhole fl exact most last
      → (rows : List Row) → All (λ (r : Row). IsWhole fl exact most r.energy_wh) rows
      → IsSeries rows
      → (o : Option Row) → latest rows ≡ o
      → let x : Float = elim o [ none ↦ last | some r ↦ r.energy_wh ] in
        IsWhole fl exact most x × All (λ (q : Row). IsNotBelow q.energy_wh x) rows
  initial_last most last h w rows ws o none e = (w, All-latest-none _ rows e)
  initial_last most last h w rows ws o (some r) e = latest-IsNotBelow most h rows ws o r e
