-- ===== src/Scheduler.antt =====
-- internal/scheduler: the choice of charging hours and the control of the charger.
pub mod Fragment
pub mod Schedule
pub mod Totals
pub mod Forces
pub mod Compute
pub mod InProgress
pub mod State
pub mod Recompute
pub mod Control
pub mod Actions
pub mod ModeChange
pub mod Profile
