-- ===== src/Scheduler/Recompute/Frozen.antt =====
-- recompute of internal/scheduler/scheduler.go while a transaction is open.
use grosz.Prelude.{ℕ, ◌≡◌, ◌≢◌, refl, ap, true, false, List, [], ◌∷◌, ◌++◌, arith, ◌==◌, All}
use grosz.Std.{Float64, TimeText, Sorting, Calendar}
use grosz.Scheduler.State.{Surroundings, State, Effect, frozen}
use grosz.Scheduler.Recompute.Apply.{Digest}
use grosz.Scheduler.Recompute.{is_frozen, recompute}

same : (n : ℕ) → (n == n) ≡ true
same n = ground arith

differ : (a b : ℕ) → a ≢ b → (a == b) ≡ false
differ a b h = ground arith

module _ (fl : Float64) (text : TimeText) (digest : Digest fl) (sorting order_by : Sorting)
    (cal : Calendar) where
  -- A run of recomputes, with all that they send.
  unfoldable pub recompute_all :
      List (Surroundings fl text) → State fl text → State fl text × List (Effect fl text)
  recompute_all [] st = (st, [])
  recompute_all (env ∷ envs) st =
      let (st', effects) = recompute fl text sorting order_by cal digest env st in
      let (st'', more) = recompute_all envs st' in (st'', effects ++ more)

  -- The transaction is open at the connected charger.
  abbrev pub IsOpen : ℕ → Surroundings fl text → Type 0
  IsOpen txn env = (is_frozen fl text sorting order_by cal digest env ≡ true) × (env.txn_id ≡ txn)

  frozen_again :
      (txn : ℕ) (envs : List (Surroundings fl text)) (st : State fl text)
      → All (IsOpen txn) envs
      → st.recompute_frozen_txn_id ≡ txn
      → recompute_all envs st ≡ (st, [])
  unfolding recompute_all recompute
  frozen_again txn [] st h e = refl
  frozen_again txn (env ∷ envs) st h e =
      rw (h.0.0, h.0.1, recompute)
        (rw (e, same txn)
          (frozen_again txn envs (record st { recompute_frozen_txn_id = txn }) h.1 refl))

  -- While a transaction is open, however often recompute is called and whatever else it would see, it
  -- tells of the freeze once and changes nothing but the transaction that it remembers. It is called
  -- at least once, and did not remember that transaction before.
  pub recompute_all_frozen :
      (txn : ℕ) (env : Surroundings fl text) (envs : List (Surroundings fl text))
      (st : State fl text)
      → All (IsOpen txn) (env ∷ envs)
      → st.recompute_frozen_txn_id ≢ txn
      → recompute_all (env ∷ envs) st
        ≡ (record st { recompute_frozen_txn_id = txn }, frozen txn ∷ [])
  unfolding recompute_all recompute
  recompute_all_frozen txn env envs st h n =
      rw (h.0.0, h.0.1, recompute)
        (rw (differ _ txn n) (
          ap (λ r. (r.0, frozen txn ∷ r.1))
            (frozen_again txn envs (record st { recompute_frozen_txn_id = txn }) h.1 refl)))
