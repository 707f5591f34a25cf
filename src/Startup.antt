-- ===== src/Startup.antt =====
-- What the services start with alike: configuration, the database, and the gRPC server.
pub mod Config
pub mod Oidc
pub mod Database
pub mod Server
