-- ===== src/Runtime.antt =====
-- What the services take from Go and gRPC: error values, contexts and calls that change a state.
pub mod Errors
pub mod Context
pub mod Grpc
pub mod Calls
pub mod Process
pub mod Decimal
pub mod Json
pub mod Text
pub mod Split
