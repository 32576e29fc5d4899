-- ===== src/Vehicle.antt =====
-- internal/vehicle: the client of the MyRenault API, which polls the car's battery.
pub mod Renault
pub mod SocLevel
pub mod SocTarget
pub mod Loop
pub mod Poll
pub mod Sound
