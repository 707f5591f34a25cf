-- ===== src/Projects.antt =====
-- The projects service: projects/, and its client in the sources service.
pub mod Model
pub mod Database
pub mod Repository
pub mod Service
pub mod Interceptor
pub mod Handler
pub mod Client
pub mod Logging
pub mod Startup
pub mod Server
