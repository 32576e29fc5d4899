-- ===== src/Web.antt =====
-- internal/web: the sessions of the web server.
pub mod Texts
pub mod Sessions
