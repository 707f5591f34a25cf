-- ===== src/Logging.antt =====
-- The loggers: pkg/logger of the services, whose text is the same in the four of them but for the
-- default level. The lines name sources/pkg/logger.
pub mod Slices
pub mod Pretty
pub mod Setup
