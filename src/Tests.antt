-- ===== src/Tests.antt =====
-- Concrete runs, and the theorems at concrete data.
mod Memory
mod Upload
mod Concurrent
mod Races
mod TestClient
mod Logging
mod Startup
mod Started
mod Service
mod Handler
mod Projects
mod Auth
mod Servers
mod Infrastructure
mod Types
mod Apperr
