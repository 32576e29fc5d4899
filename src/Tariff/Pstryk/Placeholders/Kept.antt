-- ===== src/Tariff/Pstryk/Placeholders/Kept.antt =====
-- When filterPlaceholders of internal/tariff/pstryk.go drops the rates of tomorrow: its map of prices
-- against the number of rates that share a price.
use grosz.Prelude.{
  ℕ, ◌+◌, ◌≤◌, ◌≡◌, ◌⊎◌, ◌∙◌, sym, subst, refl, inl, inr, true, false, ◌&&◌, List, [], ◌∷◌, map,
  leb, ltb, if◌then◌else◌, length, arith, All, Ordered, Bool-cases,
}
use grosz.Prelude.Int.{pos}
use grosz.Std.{Float64, IsNumber}
use grosz.Tariff.{Rate}
use grosz.Tariff.Pstryk.Placeholders.{
  rounded, count_price, price_counts, max_count, nine_tenths, today_of, tomorrow_of, is_placeholder,
  filter_placeholders,
}

module _ (fl : Float64) where
  open fl use {Float, num, div, lt, eq, eq_sym, eq_trans}

  -- How many of the prices are this one.
  abbrev pub tally : Float → List Float → ℕ
  tally p [] = 0
  tally p (q ∷ qs) = (if eq q p then 1 else 0) + tally p qs

  -- The number of prices that are the same: no price occurs more often, and some price so often, if
  -- there is any.
  abbrev pub IsMost : ℕ → List Float → Type 0
  IsMost most ps =
      ((p : Float) → tally p ps ≤ most) × ((most ≡ 0) ⊎ ((p : Float) × (tally p ps ≡ most)))

  IsMost-unique : (m n : ℕ) (ps : List Float) → IsMost m ps → IsMost n ps → m ≤ n
  IsMost-unique m n ps (most, inl e) k = omega (arith, e)
  IsMost-unique m n ps (most, inr (p, e)) k = omega (arith, e, k.0 p)

  -- The count of a price in the map.
  count_of : Float → List (Float × ℕ) → ℕ
  count_of x [] = 0
  count_of x ((q, n) ∷ m) = let rest = count_of x m in if eq q x then n else rest

  eq_left : (p q x : Float) → eq q p ≡ true → eq q x ≡ eq p x
  eq_left p q x h = elim (Bool-cases (eq q x)) [
    | inl e ↦ e ∙ sym (eq_trans p q x (eq_sym q p h) e)
    | inr e ↦ elim (Bool-cases (eq p x)) [
      | inl f ↦ absurd (cc (e, eq_trans q p x h f))
      | inr f ↦ e ∙ sym f
    ]
  ]

  count_of-count_price :
      (p x : Float) (m : List (Float × ℕ))
      → count_of x (count_price fl p m) ≡ (if eq p x then 1 else 0) + count_of x m
  unfolding count_price count_of
  count_of-count_price p x [] = ground arith
  count_of-count_price p x ((q, n) ∷ m) = elim (Bool-cases (eq q p)) [
    | inl e ↦ let same = eq_left p q x e in rw e (ground (arith, same))
    | inr e ↦
        let ih = count_of-count_price p x m in
        elim (Bool-cases (eq q x)) [
          | inl f ↦ elim (Bool-cases (eq p x)) [
            | inl g ↦ absurd (cc (e, eq_trans q x p f (eq_sym p x g)))
            | inr g ↦ rw (e, f, g) (omega arith)
          ]
          | inr f ↦ rw (e, f) ih
        ]
  ]

  abbrev pub prices : List (Rate fl) → List Float
  prices rs = map (λ (r : Rate fl). rounded fl r.price) rs

  count_of-price_counts :
      (rs : List (Rate fl)) (m : List (Float × ℕ)) (x : Float)
      → count_of x (price_counts fl rs m) ≡ tally x (prices rs) + count_of x m
  unfolding price_counts
  count_of-price_counts [] m x = omega arith
  count_of-price_counts (r ∷ rs) m x =
      let ih = count_of-price_counts rs (count_price fl (rounded fl r.price) m) x in
      let step = count_of-count_price (rounded fl r.price) x m in omega (arith, ih, step)

  -- The keys of the map are numbers, and no two are equal.
  abbrev IsMap : List (Float × ℕ) → Type 0
  IsMap m =
      All (λ (a : Float × ℕ). eq a.0 a.0 ≡ true) m
      × Ordered (λ (a b : Float × ℕ). eq a.0 b.0 ≡ false) m

  count_price-apart :
      (p q : Float) (m : List (Float × ℕ))
      → eq q p ≡ false
      → All (λ (b : Float × ℕ). eq q b.0 ≡ false) m
      → All (λ (b : Float × ℕ). eq q b.0 ≡ false) (count_price fl p m)
  unfolding count_price
  count_price-apart p q [] h k = (h, tt)
  count_price-apart p q ((a, n) ∷ m) h k = elim (Bool-cases (eq a p)) [
    | inl e ↦ rw e k
    | inr e ↦ rw e (k.0, count_price-apart p q m h k.1)
  ]

  count_price-IsMap :
      (p : Float) (m : List (Float × ℕ)) → eq p p ≡ true → IsMap m → IsMap (count_price fl p m)
  unfolding count_price
  count_price-IsMap p [] h k = ((h, tt), (tt, tt))
  count_price-IsMap p ((q, n) ∷ m) h (numbers, apart) = elim (Bool-cases (eq q p)) [
    | inl e ↦ rw e (numbers, apart)
    | inr e ↦
        let ih = count_price-IsMap p m h (numbers.1, apart.1) in
        rw e ((numbers.0, ih.0), (count_price-apart p q m e apart.0, ih.1))
  ]

  price_counts-IsMap :
      (rs : List (Rate fl)) (m : List (Float × ℕ))
      → All (IsNumber fl) (prices rs)
      → IsMap m
      → IsMap (price_counts fl rs m)
  unfolding price_counts
  price_counts-IsMap [] m h k = k
  price_counts-IsMap (r ∷ rs) m h k =
      price_counts-IsMap rs (count_price fl (rounded fl r.price) m) h.1
        (count_price-IsMap (rounded fl r.price) m h.0 k)

  max_count-≤ :
      (m : List (Float × ℕ)) (n : ℕ)
      → (n ≤ max_count fl m n) × All (λ (a : Float × ℕ). a.1 ≤ max_count fl m n) m
  unfolding max_count
  max_count-≤ [] n = (omega arith, tt)
  max_count-≤ ((q, c) ∷ m) n =
      let ih = max_count-≤ m (if ltb n c then c else n) in
      let low = ih.0 in (ground (arith, low), (ground (arith, low), ih.1))

  count_of-≤ :
      (x : Float) (most : ℕ) (m : List (Float × ℕ))
      → All (λ (a : Float × ℕ). a.1 ≤ most) m
      → count_of x m ≤ most
  unfolding count_of
  count_of-≤ x most [] h = omega arith
  count_of-≤ x most ((q, n) ∷ m) h = ground (arith, h.0, count_of-≤ x most m h.1)

  -- A price of the map has this count, and what is not equal to any key is not equal to it.
  abbrev IsAttained : List (Float × ℕ) → ℕ → Type 0
  IsAttained m most =
      (p : Float) × (count_of p m ≡ most)
      × ((r : Float) → All (λ (b : Float × ℕ). eq r b.0 ≡ false) m → eq r p ≡ false)

  IsAttained-behind :
      (q : Float) (n most : ℕ) (m : List (Float × ℕ))
      → All (λ (b : Float × ℕ). eq q b.0 ≡ false) m
      → IsAttained m most
      → IsAttained ((q, n) ∷ m) most
  unfolding count_of
  IsAttained-behind q n most m apart (p, e, k) = (p, rw (k q apart) e, λ r h. k r h.1)

  max_count-IsAttained :
      (m : List (Float × ℕ)) (n : ℕ)
      → IsMap m
      → (max_count fl m n ≡ n) ⊎ IsAttained m (max_count fl m n)
  unfolding max_count
  max_count-IsAttained [] n k = inl refl
  max_count-IsAttained ((q, c) ∷ m) n (numbers, apart) = elim (Bool-cases (ltb n c)) [
    | inl e ↦ elim (max_count-IsAttained m c (numbers.1, apart.1)) [
      | inl f ↦ rw e (inr (q, unfold count_of in rw numbers.0 (sym f), λ r h. h.0))
      | inr a ↦ rw e (inr (IsAttained-behind q c (max_count fl m c) m apart.0 a))
    ]
    | inr e ↦ elim (max_count-IsAttained m n (numbers.1, apart.1)) [
      | inl f ↦ rw e (inl f)
      | inr a ↦ rw e (inr (IsAttained-behind q c (max_count fl m n) m apart.0 a))
    ]
  ]

  -- The count of the code is the number of prices that are the same.
  max_count-IsMost :
      (rs : List (Rate fl))
      → All (IsNumber fl) (prices rs)
      → IsMost (max_count fl (price_counts fl rs []) 0) (prices rs)
  max_count-IsMost rs numbers =
      let m = price_counts fl rs [] in
      let all = max_count-≤ m 0 in
      let counts : (p : Float) → count_of p m ≡ tally p (prices rs) =
        λ p. count_of-price_counts rs [] p ∙ nothing p (tally p (prices rs)) in
      (
        λ p. (let low = count_of-≤ p (max_count fl m 0) m all.1 in omega (arith, low, counts p)),
        elim (max_count-IsAttained m 0 (price_counts-IsMap rs [] numbers (tt, tt))) [
          | inl e ↦ inl e
          | inr (p, e, k) ↦ inr (p, sym (counts p) ∙ e)
        ],
      )
    where
      nothing : (p : Float) (n : ℕ) → n + count_of p [] ≡ n
      nothing p n = unfold count_of in omega arith

  -- The rates that are left when a number of the rates of tomorrow, at most, share a price: without
  -- those of tomorrow, if there are two of them at least, and more than nine tenths share one price.
  abbrev pub kept_of : ℕ → List (Rate fl) → ℕ → List (Rate fl)
  kept_of today_end rates most =
      let n = length (tomorrow_of fl today_end rates) in
      if leb 2 n && lt (nine_tenths fl) (div (num (pos most)) (num (pos n)))
      then today_of fl today_end rates
      else rates

  filter_placeholders-kept_of :
      (today_end : ℕ) (rates : List (Rate fl))
      → filter_placeholders fl today_end rates
        ≡ kept_of today_end rates
            (max_count fl (price_counts fl (tomorrow_of fl today_end rates) []) 0)
  unfolding filter_placeholders is_placeholder
  filter_placeholders-kept_of today_end rates =
      let few = length (tomorrow_of fl today_end rates) in
      elim (Bool-cases (ltb few 2)) [
        | inl e ↦ let f : leb 2 few ≡ false = ground (arith, e) in rw (e, f) refl
        | inr e ↦ let f : leb 2 few ≡ true = ground (arith, e) in rw (e, f) refl
      ]

  -- filterPlaceholders drops the rates of tomorrow, and keeps those of today in their order, exactly
  -- if there are two rates of tomorrow at least, and the greatest number of them that have the same
  -- price, to four places, is more than nine tenths of them; else it keeps all. None of these prices
  -- is a NaN.
  pub filter_placeholders-IsMost :
      (today_end : ℕ) (rates : List (Rate fl)) (most : ℕ)
      → All (IsNumber fl) (prices (tomorrow_of fl today_end rates))
      → IsMost most (prices (tomorrow_of fl today_end rates))
      → filter_placeholders fl today_end rates ≡ kept_of today_end rates most
  filter_placeholders-IsMost today_end rates most numbers h =
      let tomorrow = tomorrow_of fl today_end rates in
      let found = max_count-IsMost tomorrow numbers in
      let up =
        IsMost-unique most (max_count fl (price_counts fl tomorrow []) 0) (prices tomorrow) h
          found in
      let down =
        IsMost-unique (max_count fl (price_counts fl tomorrow []) 0) most (prices tomorrow) found
          h in
      let same : max_count fl (price_counts fl tomorrow []) 0 ≡ most = omega (arith, up, down) in
      subst (λ k. filter_placeholders fl today_end rates ≡ kept_of today_end rates k) same
        (filter_placeholders-kept_of today_end rates)
