-- ===== src/Wire.antt =====
-- internal/bytes.go: the six TFTP messages, their opcodes and error codes, the errors of the codec.
-- `Encode` is `MessageAsBytes`, `Decode` is `BytesAsMessage`.
mod Defs
pub mod Encode
pub mod Decode
pub use Defs.*
mod Tests
