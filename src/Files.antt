-- ===== src/Files.antt =====
-- The served files: the table of internal/database.go with the statements of internal/server.go,
-- and the methods of internal/session.go that work on them.
pub mod Table
pub mod World
pub mod Methods
pub mod Startup
pub mod Interleaving
pub mod Tests
