-- ===== src/Sources.antt =====
-- The sources service (sources/).
pub mod Proto
pub mod Model
pub mod Apperr
pub mod Ports
pub mod Events
pub mod Service
pub mod Spec
pub mod Rows
pub mod Database
pub mod Repository
pub mod Interceptor
pub mod Infrastructure
pub mod Concurrent
pub mod TestClient
pub mod Handler
pub mod Startup
pub mod Server
pub mod Migrate
