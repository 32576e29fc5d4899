-- ===== src/Tests/OcppWitnesses.antt =====
-- The theorems about internal/ocpp at concrete charge points.
use grosz.Prelude.{ℕ, ◌≡◌, true, not, ◌&&◌, ◌||◌, none, some, [], ◌∷◌, arith, any}
use grosz.Ocpp.StatusCheck.{ChargePoint, Tick, is_due, run}
use grosz.Ocpp.StatusCheck.Stale.{is_stale, has_connector, is_due_lem}
use grosz.Ocpp.StatusCheck.Spacing.{Spaced, run-Spaced}

abbrev charger : ChargePoint
charger = record { id = 1; connected = true; connectors = none ∷ some 40 ∷ [] }

is_due_lem_example : is_due 30 charger ≡ (
    charger.connected
    && (any (is_stale 30) charger.connectors || not (has_connector charger.connectors)))
is_due_lem_example = is_due_lem 30 charger

abbrev check_at : ℕ → Tick
check_at now = record { threshold = 10; now = now; has_store = true; charge_points = charger ∷ [] }

run-Spaced_example : Spaced 10 (run (check_at 100 ∷ check_at 105 ∷ check_at 110 ∷ []) (λ id. none))
run-Spaced_example =
    run-Spaced 10 (check_at 100 ∷ check_at 105 ∷ check_at 110 ∷ []) (λ id. none)
      (omega arith, (omega arith, (omega arith, tt)))
