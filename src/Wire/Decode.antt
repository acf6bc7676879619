-- ===== src/Wire/Decode.antt =====
-- internal/bytes.go: `BytesAsMessage`, its helpers, `popNullString` and the constructors
-- `NewReadMessage` and `NewWriteMessage`.
pub mod Pop
pub mod OptionMap
pub mod RoundTrip
pub mod Inverse
pub mod Total
use tftpcpd.Base.{
  ℕ, zero, suc, ◌+◌, ◌-◌, ◌*◌, ◌%◌, Bytes, Bool, true, false, not, ◌||◌, List, [], ◌∷◌, ◌++◌,
  Option, none, some, ltb, leb, ◌==◌, if◌then◌else◌, length, take, drop, equal, to_lower, file_of,
}
use tftpcpd.Wire.Defs.{
  WireError, unknown_opcode, short_message, unterminated_null_string, eof, out_of_fuel, join,
  Result, ok, err, ◌>>=◌, Options, ReadMessage, WriteMessage, DataMessage, AcknowledgeMessage,
  ErrorMessage, OptionAcknowledgeMessage, Message, read_message, write_message, data_message,
  acknowledge_message, error_message, option_acknowledge_message, opcode_read_byte,
  opcode_write_byte, opcode_data_byte, opcode_acknowledge_byte, opcode_error_byte,
  opcode_option_acknowledge_byte,
}

unfoldable pub new_read_message : Bytes → Bytes → Options → ReadMessage
new_read_message filename mode options = record {
  filename = file_of filename;
  mode = mode;
  options = options;
}

unfoldable pub new_write_message : Bytes → Bytes → Options → WriteMessage
new_write_message filename mode options = record {
  filename = file_of filename;
  mode = mode;
  options = options;
}

pub index_suc : Option ℕ → Option ℕ
index_suc none = none
index_suc (some i) = some (suc i)

-- `slices.Index(buf, 0)`, with `none` for -1
pub null_index : Bytes → Option ℕ
null_index [] = none
null_index (c ∷ cs) = if c == 0 then some 0 else index_suc (null_index cs)

-- What `popNullString` returns, and the slice that it leaves behind.
pub record Popped : Type 0 where
  pub string : Bytes
  pub failure : Option WireError
  pub rest : Bytes

pub pop_at : Bytes → Option ℕ → Popped
pop_at buf none = record { string = []; failure = some unterminated_null_string; rest = buf }
pop_at buf (some i) =
    if leb (length buf) (i + 1)
    then record { string = take i buf; failure = some eof; rest = [] }
    else record { string = take i buf; failure = none; rest = drop (i + 1) buf }

pub pop_null_string : Bytes → Popped
pop_null_string buf = pop_at buf (null_index buf)

-- `errors.Is(err, io.EOF)`
abbrev is_eof : WireError → Bool
is_eof eof = true
is_eof (join e f) = is_eof e || is_eof f
is_eof _ = false

-- `err != nil && !errors.Is(err, io.EOF)`: the error that is left, if there is one
abbrev past_eof : Option WireError → Option WireError
past_eof none = none
past_eof (some e) = if is_eof e then none else some e

-- `options[key] = val`; a new key comes last.
unfoldable pub insert : Bytes → Bytes → Options → Options
insert k v [] = (k, v) ∷ []
insert k v ((j, w) ∷ o) = if equal j k then (j, v) ∷ o else (j, w) ∷ insert k v o

-- `buf[i]`; every use stands behind a check of the length.
abbrev byte_at : Bytes → ℕ → ℕ
byte_at [] i = 0
byte_at (c ∷ cs) zero = c
byte_at (c ∷ cs) (suc i) = byte_at cs i

-- `n += uint16(buf[0]) << 8; n += uint16(buf[1])`, from 0
abbrev pub word_of : Bytes → ℕ
word_of buf = (byte_at buf 0 * 256 % 65536 + byte_at buf 1) % 65536

pub bytes_as_data_message : Bytes → Result DataMessage
bytes_as_data_message buf =
    if ltb (length buf) 2
    then err short_message
    else ok (record {
      block_number = word_of buf;
      body = if leb 2 (length buf) then drop 2 buf else [];
    })

pub bytes_as_acknowledge_message : Bytes → Result AcknowledgeMessage
bytes_as_acknowledge_message buf =
    if ltb (length buf) 2 then err short_message else ok (record { block_number = word_of buf })

pub explanation_of : ℕ → Popped → Result ErrorMessage
explanation_of error_code popped = elim (past_eof popped.failure) [
  | some e ↦ err unterminated_null_string
  | none ↦ ok (record { error_code = error_code; explanation = popped.string })
]

pub bytes_as_error_message : Bytes → Result ErrorMessage
bytes_as_error_message buf =
    if ltb (length buf) (1 + 1 + 5 + 1)
    then err short_message
    else explanation_of (word_of buf) (pop_null_string (drop 2 buf))

module _ (map_lower : Bytes → Bytes) where
  -- the loop of `bytesAsOptionMap`; each round takes at least one byte
  pub option_loop : ℕ → Bytes → Options → Result Options
  option_loop zero buf options = err out_of_fuel
  option_loop (suc fuel) buf options =
      let key = pop_null_string buf in
      let val = pop_null_string key.rest in
      elim (length buf == 0) [
        | true ↦ ok options
        | false ↦ elim key.failure [
          | some e ↦ err (join e unterminated_null_string)
          | none ↦ elim (past_eof val.failure) [
            | some e ↦ err (join e unterminated_null_string)
            | none ↦
                option_loop fuel val.rest
                  (insert (to_lower map_lower key.string) val.string options)
          ]
        ]
      ]

  pub bytes_as_option_map : Bytes → Result Options
  bytes_as_option_map buf = option_loop (suc (length buf)) buf []

  -- The body that `bytesAsReadMessage` and `bytesAsWriteMessage` share word for word: the file
  -- name, the mode and the options of a request.
  pub request_mode : Bytes → Popped → Result (Bytes × Bytes × Options)
  request_mode filename popped = elim popped.failure [
    | none ↦ elim (bytes_as_option_map popped.rest) [
      | ok options ↦ ok (filename, to_lower map_lower popped.string, options)
      | err e ↦ err e
    ]
    | some e ↦
        if is_eof e
        then ok (filename, to_lower map_lower popped.string, [])
        else err (join e unterminated_null_string)
  ]

  pub request_filename : Popped → Result (Bytes × Bytes × Options)
  request_filename popped = elim popped.failure [
    | some e ↦ err (join e unterminated_null_string)
    | none ↦ request_mode popped.string (pop_null_string popped.rest)
  ]

  pub bytes_as_request : Bytes → Result (Bytes × Bytes × Options)
  bytes_as_request buf =
      if ltb (length buf) (1 + 1 + 5 + 1)
      then err short_message
      else request_filename (pop_null_string buf)

  pub bytes_as_read_message : Bytes → Result ReadMessage
  bytes_as_read_message buf = do
    (filename, mode, options) ← bytes_as_request buf
    ok (new_read_message filename mode options)

  pub bytes_as_write_message : Bytes → Result WriteMessage
  bytes_as_write_message buf = do
    (filename, mode, options) ← bytes_as_request buf
    ok (new_write_message filename mode options)

  pub bytes_as_option_acknowledge_message : Bytes → Result OptionAcknowledgeMessage
  bytes_as_option_acknowledge_message buf =
      if ltb (length buf) (1 + 1 + 1 + 1)
      then err short_message
      else (do options ← bytes_as_option_map buf; ok (record { options = options }))

  -- the `switch` on the second byte
  pub dispatch : ℕ → Bytes → Result Message
  dispatch opcode buf =
      if opcode == opcode_read_byte
      then (do m ← bytes_as_read_message buf; ok (read_message m))
      else if opcode == opcode_write_byte
      then (do m ← bytes_as_write_message buf; ok (write_message m))
      else if opcode == opcode_data_byte
      then (do m ← bytes_as_data_message buf; ok (data_message m))
      else if opcode == opcode_acknowledge_byte
      then (do m ← bytes_as_acknowledge_message buf; ok (acknowledge_message m))
      else if opcode == opcode_error_byte
      then (do m ← bytes_as_error_message buf; ok (error_message m))
      else if opcode == opcode_option_acknowledge_byte
      then (do m ← bytes_as_option_acknowledge_message buf; ok (option_acknowledge_message m))
      else err unknown_opcode

  unfoldable pub bytes_as_message : Bytes → Result Message
  bytes_as_message buf =
      if ltb (length buf) 2
      then err short_message
      else if not (byte_at buf 0 == 0)
      then err unknown_opcode
      else dispatch (byte_at buf 1) (drop 2 buf)

-- Opens the whole decoder, for a run on concrete bytes.
unfoldable pub decoding : Unit {0}
unfolding null_index index_suc pop_at pop_null_string bytes_as_data_message
    bytes_as_acknowledge_message explanation_of bytes_as_error_message option_loop
    bytes_as_option_map request_mode request_filename bytes_as_request new_read_message
    new_write_message bytes_as_read_message bytes_as_write_message
    bytes_as_option_acknowledge_message dispatch bytes_as_message insert
decoding = tt
