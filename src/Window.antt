-- ===== src/Window.antt =====
-- Half-open windows of time, [start, stop): TimeWindow of internal/store/idle.go, and the interval
-- of fragmentRates in internal/scheduler/fragment.go. `covered` and the predicates under it describe
-- lists of windows; they model no code.
mod Defs
mod Laws
pub use Defs.*
pub use Laws.*
