-- ===== src/Wire/Defs.antt =====
-- internal/bytes.go: constants, error values and message types.
use tftpcpd.Base.{ℕ, Bytes, List}

-- The error values of the file with `io.EOF`; `join` is `errors.Join`. `out_of_fuel` is the
-- model's own: it marks a loop that ran out of fuel.
pub data WireError : Type 0 where
  unknown_opcode unknown_message short_message unterminated_null_string eof out_of_fuel : WireError
  join : WireError → WireError → WireError

pub data Result {ℓ} (A : Type ℓ) : Type ℓ where
  ok : A → Result A
  err : WireError → Result A

infixl 5 ◌>>=◌
abbrev pub ◌>>=◌ {ℓ κ} : {A : Type ℓ} {B : Type κ} → Result A → (A → Result B) → Result B
ok a >>= f = f a
err e >>= f = err e

abbrev pub opcode_invalid : ℕ
opcode_invalid = 0

abbrev pub opcode_read_byte : ℕ
opcode_read_byte = 1

abbrev pub opcode_write_byte : ℕ
opcode_write_byte = 2

abbrev pub opcode_data_byte : ℕ
opcode_data_byte = 3

abbrev pub opcode_acknowledge_byte : ℕ
opcode_acknowledge_byte = 4

abbrev pub opcode_error_byte : ℕ
opcode_error_byte = 5

abbrev pub opcode_option_acknowledge_byte : ℕ
opcode_option_acknowledge_byte = 6

-- A `map[string]string` as its pairs in the order in which `range` visits them; a nil map is
-- empty.
abbrev pub Options : Type 0
Options = List (Bytes × Bytes)

pub record ReadMessage : Type 0 where
  pub filename : Bytes
  pub mode : Bytes
  pub options : Options

pub record WriteMessage : Type 0 where
  pub filename : Bytes
  pub mode : Bytes
  pub options : Options

pub record DataMessage : Type 0 where
  pub block_number : ℕ  -- uint16
  pub body : Bytes

pub record AcknowledgeMessage : Type 0 where
  pub block_number : ℕ  -- uint16

pub record ErrorMessage : Type 0 where
  pub error_code : ℕ  -- uint16
  pub explanation : Bytes

pub record OptionAcknowledgeMessage : Type 0 where
  pub options : Options

-- The dynamic types of the `any` that the codec passes; `other` is nil or any further type.
pub data Message : Type 0 where
  read_message : ReadMessage → Message
  write_message : WriteMessage → Message
  data_message : DataMessage → Message
  acknowledge_message : AcknowledgeMessage → Message
  error_message : ErrorMessage → Message
  option_acknowledge_message : OptionAcknowledgeMessage → Message
  other : Message
