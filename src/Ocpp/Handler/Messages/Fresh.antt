-- ===== src/Ocpp/Handler/Messages/Fresh.antt =====
-- The numbers that internal/ocpp gives to transactions, over restarts of the server.
use grosz.Prelude.{ℕ, ◌≡◌, ◌==◌, any, true, false}
use grosz.Std.{TimeText, Float64}
use grosz.Store.Sessions.{Row}
use grosz.Store.Sessions.Transactions.{Below}
use grosz.Store.ConnectorState.{NanoText}
use grosz.Ocpp.Server.{State}
use grosz.Ocpp.Handler.{Outcome}

module _ (fl : Float64) (text : TimeText) (nano : NanoText) where
  open fl use {Float, num, le, sub}

  -- The counter is above every transaction of the table.
  abbrev pub IsFresh : State fl text nano → Type 0
  IsFresh s = Below fl text s.next_txn_id s.sessions

  -- What a StartTransaction does with the number that the charger is told: no session had it before,
  -- and one session has it from now on.
  abbrev pub IsNewTransaction : State fl text nano → ℕ × Outcome fl text nano → Type 0
  IsNewTransaction s (txn, (s', effects)) =
      (any (λ (r : Row fl text). r.transaction_id == txn) s.sessions.rows ≡ false)
      × (any (λ (r : Row fl text). r.transaction_id == txn) s'.sessions.rows ≡ true)
