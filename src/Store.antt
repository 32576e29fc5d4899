-- ===== src/Store.antt =====
-- internal/store: the tables that the program keeps in SQLite. A table is a list of rows, and a query
-- is a function on it; the driver's own failures (a closed or locked database) are not modelled.
pub mod Idle
pub mod Odometer
pub mod Meter
pub mod Sessions
pub mod Overrides
pub mod ConnectorState
pub mod Rates
pub mod PstrykConsumption
