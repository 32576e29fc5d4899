-- ===== src/Ocpp/Status.antt =====
-- The status texts of a connector, in internal/ocpp and internal/scheduler.
use grosz.Prelude.{ℕ, Bool, ◌==◌}

-- The connector's status: those of OCPP 1.6, and the empty text of an unknown connector.
pub data Status : Type 0 where
  available preparing charging suspended_ev suspended_evse finishing reserved unavailable faulted
        unknown :
      Status

-- Texts are equal as their places in this list are.
abbrev place : Status → ℕ
place available = 0
place preparing = 1
place charging = 2
place suspended_ev = 3
place suspended_evse = 4
place finishing = 5
place reserved = 6
place unavailable = 7
place faulted = 8
place unknown = 9

abbrev pub same_status : Status → Status → Bool
same_status a b = place a == place b
