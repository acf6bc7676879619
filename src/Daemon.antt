-- ===== src/Daemon.antt =====
-- The daemon's goroutines: internal/signal.go, internal/logger.go, the loops of internal/server.go
-- and internal/database.go, and cmd/tftpcpd/main.go.
pub mod Signal
pub mod State
pub mod Step
pub mod Keeps
pub mod Balance
pub mod Invariant
pub mod Weight
pub mod Draining
pub mod Progress
pub mod Course
pub mod Logging
pub mod Shutdown
pub mod Startup
mod Tests
