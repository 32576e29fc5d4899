-- ===== src/Tariff.antt =====
-- internal/tariff/tariff.go: a price for a period of time.
pub mod Pstryk
use grosz.Prelude.{ℕ}
use grosz.Std.{Float64}

pub record Rate (fl : Float64) : Type 0 where
  pub start : ℕ
  pub stop : ℕ
  pub price : fl.Float
