-- ===== src/Scheduler/Compute/Cheapest.antt =====
-- The prices of the hours that computeSlot of internal/scheduler/scheduler.go takes and leaves out.
use mathlib.Core.List.{Memᴰ, Permᴰ}
use mathlib.Core.List.Perm
use mathlib.Core.Logic.{∥∥₁_elim}
use grosz.Prelude.{
  ℕ, suc, ◌<◌, ◌≡◌, ◌≢◌, refl, sym, ap, subst, ◌∙◌, ◌⊎◌, inl, inr, Bool, true, false, none, some,
  List, [], ◌∷◌, arith, ◌==◌, any, All, Ordered, All-map, All-Permᴰ, Bool-set, Bool-cases, some_eq,
}
use grosz.Prelude.Int.{ℤ, pos, ltb_ℤ}
use grosz.Std.{Float64, Calendar, Sorting, IsWeakOrderOn, IsNumber}
use grosz.Tariff.{Rate}
use grosz.Scheduler.Schedule.{Period, Slot}
use grosz.Scheduler.Compute.{
  price_before, select_hours, is_selected, selected_periods, rate_period, compute_slot, slot_of,
  hours_for,
}

true≢false : ◌≡◌ {A = Bool} true false → ⊥
true≢false h = cc

All-Memᴰ {ℓ κ} : {A : Type ℓ} (P : A → Type κ) {a : A} {xs : List A} → All P xs → Memᴰ a xs → P a
All-Memᴰ P h (Memᴰ.head e) = subst P (sym e) h.0
All-Memᴰ P h (Memᴰ.tail m) = All-Memᴰ P h.1 m

All-of_Memᴰ {ℓ κ} :
    {A : Type ℓ} (P : A → Type κ) (xs : List A) → ((a : A) → Memᴰ a xs → P a) → All P xs
All-of_Memᴰ P [] h = tt
All-of_Memᴰ P (x ∷ xs) h = (h x (Memᴰ.head refl), All-of_Memᴰ P xs (λ a m. h a (Memᴰ.tail m)))

module _ (fl : Float64) where
  open fl use {Float, num, lt, le, div}

  abbrev Distinct : Rate fl → Rate fl → Type 0
  Distinct a b = a.start ≢ b.start

  -- A list that starts with a selected rate, and the rates behind it.
  taken_head :
      (start : ℕ) (rest : List ℕ) (r : Rate fl)
      → r.start ≡ start
      → is_selected fl (start ∷ rest) r ≡ true
  unfolding is_selected
  taken_head start rest r e = ground arith

  selected_behind :
      (start : ℕ) (rest : List ℕ) (r : Rate fl)
      → start ≢ r.start
      → is_selected fl (start ∷ rest) r ≡ is_selected fl rest r
  unfolding is_selected
  selected_behind start rest r e = ground arith

  not_selected_behind :
      (start : ℕ) (rest : List ℕ) (r : Rate fl)
      → is_selected fl (start ∷ rest) r ≡ false
      → is_selected fl rest r ≡ false
  unfolding is_selected
  not_selected_behind start rest r e = ground arith

  select_hours_step :
      (needed : ℤ) (total : ℕ) (r : Rate fl) (rs : List (Rate fl))
      → (select_hours fl needed total (r ∷ rs) ≡ [])
        ⊎ (select_hours fl needed total (r ∷ rs) ≡ r.start ∷ select_hours fl needed (suc total) rs)
  unfolding select_hours
  select_hours_step needed total r rs = elim (Bool-cases (ltb_ℤ (pos total) needed)) [
    | inl e ↦ inr (rw e)
    | inr e ↦ inl (rw e)
  ]

  -- In a list that is sorted by price, a rate that the loop selects is no dearer than one that it
  -- does not.
  select_hours-cheapest :
      (needed : ℤ) (total : ℕ) (rs : List (Rate fl)) (a b : Rate fl)
      → Ordered (λ x y. price_before fl y x ≡ false) rs
      → Ordered Distinct rs
      → Memᴰ a rs
      → Memᴰ b rs
      → is_selected fl (select_hours fl needed total rs) a ≡ true
      → is_selected fl (select_hours fl needed total rs) b ≡ false
      → price_before fl b a ≡ false
  select_hours-cheapest needed total [] a b o d m n p q = elim m [ ]
  select_hours-cheapest needed total (r ∷ rs) a b o d m n p q =
      elim (select_hours_step needed total r rs) [
        | inl e ↦ absurd (none_taken (rw e at p))
        | inr e ↦
            found m n (rw e at p) (rw e at q)
              (λ m' n' p' q'. select_hours-cheapest needed (suc total) rs a b o.1 d.1 m' n' p' q')
      ]
    where
      none_taken : is_selected fl [] a ≡ true → ⊥
      none_taken h = unfold is_selected in cc

      rest : List ℕ
      rest = select_hours fl needed (suc total) rs

      found :
          Memᴰ a (r ∷ rs)
          → Memᴰ b (r ∷ rs)
          → is_selected fl (r.start ∷ rest) a ≡ true
          → is_selected fl (r.start ∷ rest) b ≡ false
          → (Memᴰ a rs
              → Memᴰ b rs
              → is_selected fl rest a ≡ true
              → is_selected fl rest b ≡ false
              → price_before fl b a ≡ false)
          → price_before fl b a ≡ false
      found m (Memᴰ.head g) p q ih =
          absurd
            (true≢false (sym (taken_head r.start rest b (ap (λ (x : Rate fl). x.start) g)) ∙ q))
      found (Memᴰ.head e) (Memᴰ.tail n) p q ih =
          rw e (All-Memᴰ (λ y. price_before fl y r ≡ false) o.0 n)
      found (Memᴰ.tail m) (Memᴰ.tail n) p q ih =
          ih m n (sym (selected_behind r.start rest a (All-Memᴰ (Distinct r) d.0 m)) ∙ p)
            (not_selected_behind r.start rest b q)

  -- A period of the slot starts when the rate does.
  abbrev pub is_taken : List (Period fl) → Rate fl → Bool
  is_taken ps r = any (λ p. p.start == r.start) ps

  is_taken_of_selected :
      (power : Float) (selected : List ℕ) (rs : List (Rate fl)) (r : Rate fl)
      → Memᴰ r rs
      → is_selected fl selected r ≡ true
      → is_taken (selected_periods fl power selected rs) r ≡ true
  unfolding selected_periods rate_period
  is_taken_of_selected power selected [] r m h = elim m [ ]
  is_taken_of_selected power selected (x ∷ rs) r (Memᴰ.head e) h =
      let same : is_selected fl selected x ≡ true = rw (← e) h in rw (same, e) (ground arith)
  is_taken_of_selected power selected (x ∷ rs) r (Memᴰ.tail m) h =
      let ih = is_taken_of_selected power selected rs r m h in
      elim (Bool-cases (is_selected fl selected x)) [
        | inl e ↦ rw e (rw ih (ground arith))
        | inr e ↦ rw e ih
      ]

  -- A period of the slot comes from a selected rate.
  abbrev Found : List ℕ → Period fl → List (Rate fl) → Type 0
  Found selected p l =
      (r : Rate fl) × Memᴰ r l × (is_selected fl selected r ≡ true) × (p.price ≡ r.price)

  rate_of_period :
      (power : Float) (selected : List ℕ) (rs : List (Rate fl)) (p : Period fl)
      → Memᴰ p (selected_periods fl power selected rs)
      → Found selected p rs
  unfolding selected_periods
  rate_of_period power selected [] p m = elim m [ ]
  rate_of_period power selected (x ∷ rs) p m =
      let behind = λ (n : Memᴰ p (selected_periods fl power selected rs)).
        later x (rate_of_period power selected rs p n) in
      elim (Bool-cases (is_selected fl selected x)) [
        | inl e ↦ found e (rw (e, selected_periods) at m) behind
        | inr e ↦ behind (rw (e, selected_periods) at m)
      ]
    where
      later : (y : Rate fl) → Found selected p rs → Found selected p (y ∷ rs)
      later y (r, n, h, q) = (r, Memᴰ.tail n, h, q)

      found :
          is_selected fl selected x ≡ true
          → Memᴰ p (rate_period fl power x ∷ selected_periods fl power selected rs)
          → (Memᴰ p (selected_periods fl power selected rs) → Found selected p (x ∷ rs))
          → Found selected p (x ∷ rs)
      found e (Memᴰ.head h) behind =
          (x, Memᴰ.head refl, e, unfold rate_period in ap (λ (y : Period fl). y.price) h)
      found e (Memᴰ.tail n) behind = behind n

  slot_of-periods :
      (cal : Calendar) (per_hour : Float) (deadline : ℕ) (ps : List (Period fl)) (slot : Slot fl)
      → slot_of fl cal per_hour deadline ps ≡ some slot
      → slot.periods ≡ ps
  unfolding slot_of
  slot_of-periods cal per_hour deadline [] slot h = cc
  slot_of-periods cal per_hour deadline (p ∷ ps) slot h =
      sym (ap (λ (s : Slot fl). s.periods) (some_eq _ _ h))

  Memᴰ-Permᴰ : {xs ys : List (Rate fl)} (a : Rate fl) → Permᴰ xs ys → Memᴰ a xs → Memᴰ a ys
  Memᴰ-Permᴰ {xs} {ys} a p m =
      All-Memᴰ (λ y. Memᴰ y ys)
        (All-Permᴰ (λ y. Memᴰ y ys) p (All-of_Memᴰ (λ y. Memᴰ y ys) ys (λ b n. n))) m

  Ordered-Permᴰ :
      (R : Rate fl → Rate fl → Type 0)
      → ((a b : Rate fl) → R a b → R b a)
      → {xs ys : List (Rate fl)} → Permᴰ xs ys
      → Ordered R ys
      → Ordered R xs
  Ordered-Permᴰ R flip Permᴰ.nil o = tt
  Ordered-Permᴰ R flip (Permᴰ.cons {a = a} {b = b} {l₁ = l} e d) o =
      (subst (λ z. All (R z) l) (sym e) (All-Permᴰ (R b) d o.0), Ordered-Permᴰ R flip d o.1)
  Ordered-Permᴰ R flip (Permᴰ.swap {a' = a'} {b' = b'} {l = l} e g) o = (
    (rw (e, g) (flip a' b' o.0.0), subst (λ z. All (R z) l) (sym e) o.1.0),
    (subst (λ z. All (R z) l) (sym g) o.0.1, o.1.1),
  )
  Ordered-Permᴰ R flip (Permᴰ.trans d e) o = Ordered-Permᴰ R flip d (Ordered-Permᴰ R flip e o)

  -- Rates in the order of their starts have different starts.
  abbrev pub InOrder : List (Rate fl) → Type 0
  InOrder rs = Ordered (λ a b. a.start < b.start) rs

  Distinct-of_order : (rs : List (Rate fl)) → InOrder rs → Ordered Distinct rs
  Distinct-of_order [] o = tt
  Distinct-of_order (r ∷ rs) o =
      (All-map (λ x (h : r.start < x.start). omega arith) rs o.0, Distinct-of_order rs o.1)

  Distinct-flip : (a b : Rate fl) → Distinct a b → Distinct b a
  Distinct-flip a b h e = h (sym e)

  cheapest_from :
      (needed : ℤ) (power : Float) (rates sorted : List (Rate fl)) (p : Period fl) (r : Rate fl)
      → InOrder rates
      → Ordered (λ x y. price_before fl y x ≡ false) sorted
      → Permᴰ sorted rates
      → Permᴰ rates sorted
      → let ps = selected_periods fl power (select_hours fl needed 0 sorted) rates in
        Memᴰ p ps → Memᴰ r rates → is_taken ps r ≡ false → lt r.price p.price ≡ false
  unfolding price_before
  cheapest_from needed power rates sorted p r order o d d' m n t =
      let sel = select_hours fl needed 0 sorted in
      let (a, n', h, e) = rate_of_period power sel rates p m in
      rw e (
        select_hours-cheapest needed 0 sorted a r o
          (Ordered-Permᴰ Distinct Distinct-flip d (Distinct-of_order rates order))
          (Memᴰ-Permᴰ a d' n') (Memᴰ-Permᴰ r d' n) h
          (elim (Bool-cases (is_selected fl sel r)) [
            | inl s ↦ absurd (true≢false (sym (is_taken_of_selected power sel rates r n s) ∙ t))
            | inr s ↦ s
          ]))

  slot_periods :
      (sorting : Sorting) (cal : Calendar) (rates : List (Rate fl)) (target power headroom : Float)
      (deadline : ℕ) (slot : Slot fl)
      → compute_slot fl sorting cal rates target power headroom deadline ≡ some slot
      → let needed = hours_for fl target headroom (div power (num (pos 1000))) in
        let sorted = sorting.sort (Rate fl) (price_before fl) rates in
        slot.periods ≡ selected_periods fl power (select_hours fl needed 0 sorted) rates
  unfolding compute_slot
  slot_periods sorting cal rates target power headroom deadline slot h =
      elim (Bool-cases (le (div power (num (pos 1000))) (num (pos 0)))) [
        | inl e ↦ absurd (none≢some (rw e at h))
        | inr e ↦ slot_of-periods cal (div power (num (pos 1000))) deadline _ slot (rw e at h)
      ]
    where
      none≢some : none ≡ some slot → ⊥
      none≢some k = cc

  price_before-IsWeakOrderOn :
      IsWeakOrderOn (λ (q : Rate fl). IsNumber fl q.price) (price_before fl)
  unfolding price_before
  price_before-IsWeakOrderOn =
      let weak = fl.lt-IsWeakOrder in
      record {
        irrefl_on = λ a. weak.irrefl_on a.price;
        asymm_on = λ a b. weak.asymm_on a.price b.price;
        trans_on = λ a b c. weak.trans_on a.price b.price c.price;
      }

  module _ (sorting : Sorting) (cal : Calendar) where
    -- A period of the slot is no dearer than any rate that the slot leaves out, if no price of the
    -- rates is a NaN, and the rates come in the order of their starts.
    pub compute_slot-cheapest :
        (rates : List (Rate fl)) (target power headroom : Float) (deadline : ℕ) (slot : Slot fl)
        (p : Period fl) (r : Rate fl)
        → All (λ (q : Rate fl). IsNumber fl q.price) rates
        → InOrder rates
        → compute_slot fl sorting cal rates target power headroom deadline ≡ some slot
        → Memᴰ p slot.periods
        → Memᴰ r rates
        → is_taken slot.periods r ≡ false
        → lt r.price p.price ≡ false
    compute_slot-cheapest rates target power headroom deadline slot p r numbers order h m n t =
        let less = price_before fl in
        let e = slot_periods sorting cal rates target power headroom deadline slot h in
        ∥∥₁_elim (sorting.sort-perm _ less rates) (Bool-set _ _) λ d.
          ∥∥₁_elim (Perm.symm ∣ d ∣₁) (Bool-set _ _) λ d'.
            cheapest_from (hours_for fl target headroom (div power (num (pos 1000)))) power rates _
              p r order (sorting.sort-Ordered _ less _ rates price_before-IsWeakOrderOn numbers) d
              d' (subst (Memᴰ p) e m) n (subst (λ ps. is_taken ps r ≡ false) e t)
