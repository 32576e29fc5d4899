-- ===== src/Ocpp/Connector/Stopped.antt =====
-- StopTransaction of internal/ocpp/connector.go: what it leaves of the measurements.
use Prim.Native.String.{String}
use text.Mathlib.Text.{◌==◌ as same}
use text.Mathlib.TextEquality.{eq_iff}
use text.Mathlib.TextPositions.{eq_refl}
use grosz.Prelude.{
  ◌≡◌, refl, ap, subst, ◌∙◌, true, Option, none, some, List, [], ◌∷◌, arith, if◌then◌else◌, any,
  find_by-put_by_same, find_by-put_by_other, inl, inr, Bool-cases, Option-cases,
}
use grosz.Prelude.Int.{pos}
use grosz.Std.{Float64}
use grosz.Ocpp.Connector.{
  Measurement, Entry, with_zero, has_key, measurement_of, lookup, insert, Connector, zero_key,
  zero_keys, zero_base, stop_transaction,
}

-- The keys whose readings are of no use without a transaction.
abbrev pub zeroed_keys : List String
zeroed_keys =
    "Power.Active.Import" ∷ "Power.Active.Import.L1" ∷ "Power.Active.Import.L2"
    ∷ "Power.Active.Import.L3" ∷ "Current.Import" ∷ "Current.Import.L1" ∷ "Current.Import.L2"
    ∷ "Current.Import.L3" ∷ "Current.Offered" ∷ "Current.Offered.L1" ∷ "Current.Offered.L2"
    ∷ "Current.Offered.L3" ∷ []

module _ (fl : Float64) where
  open fl use {num}

  abbrev pub zero_value : Measurement fl → Measurement fl
  zero_value m = record m { value = num (pos 0) }

  abbrev pub zeroed : Option (Measurement fl) → Option (Measurement fl)
  zeroed none = none
  zeroed (some m) = some (zero_value m)

  found-insert :
      (k j : String) (v : Measurement fl) (m : List (Entry fl))
      → same k j ≡ true
      → lookup fl j (insert fl k v m) ≡ some v
  found-insert k j v m e =
      subst (λ i. lookup fl i (insert fl k v m) ≡ some v) ((eq_iff k j).0 e)
        (ap (measurement_of fl)
          (find_by-put_by_same (has_key fl k) (record { key = k; measurement = v }) (eq_refl k) m))

  lookup-insert :
      (k j : String) (v : Measurement fl) (m : List (Entry fl))
      → lookup fl j (insert fl k v m) ≡ (if same k j then some v else lookup fl j m)
  lookup-insert k j v m = elim (Bool-cases (same k j)) [
    | inl e ↦ found-insert k j v m e ∙ rw e
    | inr e ↦
        ap (measurement_of fl) (
          find_by-put_by_other (has_key fl k) (has_key fl j) (record { key = k; measurement = v }) e
            (λ x h. ground (arith, eq_iff x.key k, eq_iff x.key j, eq_iff k j)) m)
        ∙ rw e
  ]

  lookup-zero_key :
      (k j : String) (m : List (Entry fl))
      → lookup fl j (zero_key fl k m) ≡ (if same k j then zeroed (lookup fl j m) else lookup fl j m)
  unfolding zero_key
  lookup-zero_key k j m = elim (Option-cases (lookup fl k m)) [
    | inl e ↦ ap (λ o. lookup fl j (with_zero fl k o m)) e ∙ ground (arith, eq_iff k j, ap zeroed e)
    | inr (v, e) ↦
        ap (λ o. lookup fl j (with_zero fl k o m)) e
        ∙ lookup-insert k j (zero_value v) m
        ∙ ground (arith, eq_iff k j, ap zeroed e)
  ]

  zeroed_idem : (o : Option (Measurement fl)) → zeroed (zeroed o) ≡ zeroed o
  zeroed_idem none = refl
  zeroed_idem (some m) = refl

  lookup-zero_keys :
      (ks : List String) (j : String) (m : List (Entry fl))
      → lookup fl j (zero_keys fl ks m)
        ≡ (if any (λ k. same k j) ks then zeroed (lookup fl j m) else lookup fl j m)
  unfolding zero_keys
  lookup-zero_keys [] j m = refl
  lookup-zero_keys (k ∷ ks) j m =
      lookup-zero_keys ks j (zero_key fl k m)
      ∙ rw (lookup-zero_key k j m) (ground (arith, zeroed_idem (lookup fl j m)))

  -- After a transaction has stopped, the readings of power and current, with and without a phase, are
  -- 0 with their units and times kept, absent ones are still absent, and every other reading is as it
  -- was.
  pub lookup-stop_transaction :
      (c : Connector fl) (key : String)
      → lookup fl key (stop_transaction fl c).measurements ≡ (
          if any (λ k. same k key) zeroed_keys
          then zeroed (lookup fl key c.measurements)
          else lookup fl key c.measurements)
  unfolding stop_transaction zero_base
  lookup-stop_transaction c key = lookup-zero_keys zeroed_keys key c.measurements
