-- ===== src/Auth.antt =====
-- The auth service: auth/.
pub mod Handler
pub mod Logging
pub mod Startup
pub mod Server
