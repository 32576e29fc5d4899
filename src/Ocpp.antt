-- ===== src/Ocpp.antt =====
-- internal/ocpp: the server that the charger connects to.
pub mod Status
pub mod Connector
pub mod Server
pub mod Handler
pub mod StatusCheck
pub mod Requests
