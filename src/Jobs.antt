-- ===== src/Jobs.antt =====
-- The jobs service: jobs/. It implements no operation yet.
pub mod Interceptor
pub mod Logging
pub mod Startup
pub mod Server
