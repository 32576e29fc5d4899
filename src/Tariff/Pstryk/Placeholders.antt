-- ===== src/Tariff/Pstryk/Placeholders.antt =====
-- filterPlaceholders of internal/tariff/pstryk.go.
pub mod Kept
use grosz.Prelude.{
  ℕ, suc, ◌+◌, ◌*◌, ◌≡◌, refl, Bool, true, false, not, List, [], ◌∷◌, ◌++◌, map, ltb, if◌then◌else◌,
  select, length,
}
use grosz.Prelude.Int.{pos}
use grosz.Std.{Float64}
use grosz.Tariff.{Rate}

module _ (fl : Float64) where
  open fl use {Float, num, mul, div, lt, eq, round}

  -- The map priceCounts; a key that is a NaN is equal to none, so each NaN is an entry of its own.
  pub count_price : Float → List (Float × ℕ) → List (Float × ℕ)
  count_price p [] = (p, 1) ∷ []
  count_price p ((q, n) ∷ m) =
      let rest = count_price p m in if eq q p then (q, suc n) ∷ m else (q, n) ∷ rest

  -- The price of a rate as a key: math.Round(p * 10000) / 10000.
  unfoldable pub rounded : Float → Float
  rounded p = div (round (mul p (num (pos 10000)))) (num (pos 10000))

  pub price_counts : List (Rate fl) → List (Float × ℕ) → List (Float × ℕ)
  unfolding count_price
  price_counts [] m = m
  price_counts (r ∷ rs) m = price_counts rs (count_price (rounded r.price) m)

  pub max_count : List (Float × ℕ) → ℕ → ℕ
  max_count [] n = n
  max_count ((q, c) ∷ m) n = max_count m (if ltb n c then c else n)

  -- `nine_tenths` is the constant 0.9.
  abbrev pub nine_tenths : Float
  nine_tenths = div (num (pos 9)) (num (pos 10))

  abbrev pub starts_by : ℕ → Rate fl → Bool
  starts_by today_end r = ltb r.start today_end

  -- More than 90 % of the prices are the same one.
  pub is_placeholder : List (Rate fl) → Bool
  unfolding price_counts max_count
  is_placeholder tomorrow =
      let most = max_count (price_counts tomorrow []) 0 in
      lt nine_tenths (div (num (pos most)) (num (pos (length tomorrow))))

  abbrev pub today_of : ℕ → List (Rate fl) → List (Rate fl)
  today_of today_end rates = select (starts_by today_end) rates

  abbrev pub tomorrow_of : ℕ → List (Rate fl) → List (Rate fl)
  tomorrow_of today_end rates = select (λ r. not (starts_by today_end r)) rates

  pub filter_placeholders : ℕ → List (Rate fl) → List (Rate fl)
  unfolding is_placeholder
  filter_placeholders today_end rates =
      if ltb (length (tomorrow_of today_end rates)) 2
      then rates
      else if is_placeholder (tomorrow_of today_end rates)
      then today_of today_end rates
      else rates
