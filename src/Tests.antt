-- ===== src/Tests.antt =====
-- The theorems at concrete inputs, over a library that can be computed with.
mod Models
mod StoreWitnesses
mod SchedulerWitnesses
mod Evening
mod ActionWitnesses
mod OcppWitnesses
mod ControlWitnesses
mod SessionWitnesses
mod HandlerWitnesses
mod TariffWitnesses
mod WebWitnesses
mod VehicleWitnesses
mod MeterWitnesses
