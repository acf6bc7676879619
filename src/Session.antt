-- ===== src/Session.antt =====
-- internal/session.go: the state of one transfer and its operations.
pub mod Slice
pub mod State
pub mod Io
pub mod SendLoop
pub mod ReceiveLoop
pub mod Transfer
pub mod Brings
pub mod EndToEnd
pub mod Number
pub mod Options
pub mod Opening
pub mod Requesting
mod Tests
