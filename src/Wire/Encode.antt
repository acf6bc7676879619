-- ===== src/Wire/Encode.antt =====
-- internal/bytes.go: `MessageAsBytes` and its six helpers. A `*[]byte` is the slice before and
-- after the call.
pub mod Layout
use tftpcpd.Base.{ℕ, Bytes, List, [], ◌∷◌, ◌++◌, Option, none, some, ◌/◌, ◌%◌, to_lower}
use tftpcpd.Wire.Defs.{
  WireError, unknown_message, Options, ReadMessage, WriteMessage, DataMessage, AcknowledgeMessage,
  ErrorMessage, OptionAcknowledgeMessage, Message, read_message, write_message, data_message,
  acknowledge_message, error_message, option_acknowledge_message, other, opcode_read_byte,
  opcode_write_byte, opcode_data_byte, opcode_acknowledge_byte, opcode_error_byte,
  opcode_option_acknowledge_byte,
}

-- `byte(n>>8), byte(n)`
abbrev pub big_endian : ℕ → Bytes
big_endian n = (n / 256 % 256) ∷ (n % 256) ∷ []

-- `[]byte(s+"\x00")`
abbrev pub null_string : Bytes → Bytes
null_string s = s ++ (0 ∷ [])

pub data_message_as_bytes : DataMessage → Bytes → Bytes
data_message_as_bytes message _ =
    let opened = [] ++ (0 ∷ opcode_data_byte ∷ []) in
    (opened ++ big_endian message.block_number) ++ message.body

pub acknowledge_message_as_bytes : AcknowledgeMessage → Bytes → Bytes
acknowledge_message_as_bytes message _ =
    let opened = [] ++ (0 ∷ opcode_acknowledge_byte ∷ []) in
    opened ++ big_endian message.block_number

pub error_message_as_bytes : ErrorMessage → Bytes → Bytes
error_message_as_bytes message _ =
    let opened = [] ++ (0 ∷ opcode_error_byte ∷ []) in
    ((opened ++ big_endian message.error_code) ++ message.explanation) ++ (0 ∷ [])

module _ (map_lower : Bytes → Bytes) where
  -- the loop over the options, which the three helpers below share word for word
  append_options : Bytes → Options → Bytes
  append_options buf [] = buf
  append_options buf ((k, v) ∷ o) =
      append_options (buf ++ (null_string (to_lower map_lower k) ++ null_string v)) o

  pub read_message_as_bytes : ReadMessage → Bytes → Bytes
  read_message_as_bytes message _ =
      let opened = [] ++ (0 ∷ opcode_read_byte ∷ []) in
      let named = opened ++ null_string message.filename in
      append_options (named ++ null_string message.mode) message.options

  pub write_message_as_bytes : WriteMessage → Bytes → Bytes
  write_message_as_bytes message _ =
      let opened = [] ++ (0 ∷ opcode_write_byte ∷ []) in
      let named = opened ++ null_string message.filename in
      append_options (named ++ null_string message.mode) message.options

  pub option_acknowledge_message_as_bytes : OptionAcknowledgeMessage → Bytes → Bytes
  option_acknowledge_message_as_bytes message _ =
      append_options ([] ++ (0 ∷ opcode_option_acknowledge_byte ∷ [])) message.options

  unfoldable pub message_as_bytes : Message → Bytes → Bytes × Option WireError
  message_as_bytes (read_message m) buf = (read_message_as_bytes m buf, none)
  message_as_bytes (write_message m) buf = (write_message_as_bytes m buf, none)
  message_as_bytes (data_message m) buf = (data_message_as_bytes m buf, none)
  message_as_bytes (acknowledge_message m) buf = (acknowledge_message_as_bytes m buf, none)
  message_as_bytes (error_message m) buf = (error_message_as_bytes m buf, none)
  message_as_bytes (option_acknowledge_message m) buf =
      (option_acknowledge_message_as_bytes m buf, none)
  message_as_bytes other buf = (buf, some unknown_message)

-- Opens the whole encoder, for a run on a concrete message.
unfoldable pub encoding : Unit {0}
unfolding data_message_as_bytes acknowledge_message_as_bytes error_message_as_bytes append_options
    read_message_as_bytes write_message_as_bytes option_acknowledge_message_as_bytes
    message_as_bytes
encoding = tt
