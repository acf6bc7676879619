-- ===== src/Wire/Decode/Inverse.antt =====
-- What a successful `BytesAsMessage` says of the bytes it was given.
use tftpcpd.Base.{
  ℕ, ◌<◌, Bytes, true, [], ◌∷◌, ◌++◌, ◌≡◌, ◌≢◌, refl, sym, ap, ◌∙◌, ◌⊎◌, inl, inr, arith, lacks,
  file_of, file_of-lacks, file_of-lacks_of, take, All,
}
use tftpcpd.Wire.Defs.{
  WireError, Result, ok, err, Options, Message, read_message, write_message, data_message,
  ReadMessage, WriteMessage, acknowledge_message, error_message, DataMessage, AcknowledgeMessage,
  option_acknowledge_message, other,
}
use tftpcpd.Wire.Encode.{big_endian, message_as_bytes}
use tftpcpd.Wire.Encode.Layout.{message_as_bytes-layout}
use tftpcpd.Wire.Decode.{
  pop_null_string, request_mode, request_filename, bytes_as_request, dispatch, bytes_as_message,
  bytes_as_read_message, bytes_as_write_message, bytes_as_data_message,
  bytes_as_acknowledge_message, bytes_as_error_message, bytes_as_option_acknowledge_message,
  new_read_message, new_write_message, Popped, word_of,
}
use tftpcpd.Wire.Decode.Pop.{popped_of, unterminated_of, pop_null_string-cases}

-- A result with its equation.
Result-cases :
    (r : Result (Bytes × Bytes × Options))
    → ((t : Bytes × Bytes × Options) × (r ≡ ok t)) ⊎ ((e : WireError) × (r ≡ err e))
Result-cases (ok t) = inl (t, refl)
Result-cases (err e) = inr (e, refl)

-- A file name that stays in its directory: no separator and no null byte.
abbrev pub IsFileName : Bytes → Type 0
IsFileName name = (lacks b'/' name ≡ true) × (lacks 0 name ≡ true)

abbrev pub IsLocal : Message → Type 0
IsLocal (read_message m) = IsFileName m.filename
IsLocal (write_message m) = IsFileName m.filename
IsLocal _ = Unit

module _ (map_lower : Bytes → Bytes) where
  -- Which helper decoded the message, and from which opcode.
  abbrev DecodedBy : ℕ → Bytes → Message → Type 0
  DecodedBy opcode buf (read_message m) =
      (opcode ≡ 1) × (bytes_as_read_message map_lower buf ≡ ok m)
  DecodedBy opcode buf (write_message m) =
      (opcode ≡ 2) × (bytes_as_write_message map_lower buf ≡ ok m)
  DecodedBy opcode buf (data_message m) = (opcode ≡ 3) × (bytes_as_data_message buf ≡ ok m)
  DecodedBy opcode buf (acknowledge_message m) =
      (opcode ≡ 4) × (bytes_as_acknowledge_message buf ≡ ok m)
  DecodedBy opcode buf (error_message m) = (opcode ≡ 5) × (bytes_as_error_message buf ≡ ok m)
  DecodedBy opcode buf (option_acknowledge_message m) =
      (opcode ≡ 6) × (bytes_as_option_acknowledge_message map_lower buf ≡ ok m)
  DecodedBy opcode buf other = ⊥

  dispatch-DecodedBy :
      (opcode : ℕ) (buf : Bytes) (m : Message)
      → dispatch map_lower opcode buf ≡ ok m
      → DecodedBy opcode buf m
  unfolding dispatch
  dispatch-DecodedBy opcode buf (read_message m) h = ground arith
  dispatch-DecodedBy opcode buf _ h = ground arith

  record Opened (buf : Bytes) (m : Message) : Type 0 where
    opcode : ℕ
    rest : Bytes
    split : buf ≡ 0 ∷ opcode ∷ rest
    decoded : DecodedBy opcode rest m

  bytes_as_message-Opened :
      (buf : Bytes) (m : Message) → bytes_as_message map_lower buf ≡ ok m → Opened buf m
  unfolding bytes_as_message
  bytes_as_message-Opened [] m h = absurd (ground arith)
  bytes_as_message-Opened (x ∷ []) m h = absurd (ground arith)
  bytes_as_message-Opened (x ∷ opcode ∷ rest) m h = record {
    opcode = opcode;
    rest = rest;
    split = ground arith;
    decoded = dispatch-DecodedBy opcode rest m (ground arith);
  }

  request_mode-filename :
      (s : Bytes) (p : Popped) {f mode : Bytes} {o : Options}
      → request_mode map_lower s p ≡ ok (f, mode, o)
      → f ≡ s
  unfolding request_mode
  request_mode-filename s p h = ground arith

  request_filename-filename :
      (s rest : Bytes) {f mode : Bytes} {o : Options}
      → request_filename map_lower (popped_of s rest) ≡ ok (f, mode, o)
      → f ≡ s
  unfolding request_filename
  request_filename-filename s [] h = cc
  request_filename-filename s (c ∷ cs) h = request_mode-filename s (pop_null_string (c ∷ cs)) h

  request_filename_refuses :
      (buf : Bytes) (r : Bytes × Bytes × Options)
      → request_filename map_lower (unterminated_of buf) ≢ ok r
  unfolding request_filename
  request_filename_refuses buf r h = cc

  bytes_as_request-filename :
      (buf : Bytes) {f mode : Bytes} {o : Options}
      → bytes_as_request map_lower buf ≡ ok (f, mode, o)
      → lacks 0 f ≡ true
  unfolding bytes_as_request
  bytes_as_request-filename buf {f} {mode} {o} h =
      let found : request_filename map_lower (pop_null_string buf) ≡ ok (f, mode, o) =
        ground arith in
      elim (pop_null_string-cases buf) [
        | inl none_left ↦ absurd (request_filename_refuses buf (f, mode, o) (rw none_left at found))
        | inr (s, e) ↦ rw (request_filename-filename s.string s.rest (rw e at found)) s.string_lacks
      ]

  bytes_as_read_message-filename :
      (buf : Bytes) (m : ReadMessage)
      → bytes_as_read_message map_lower buf ≡ ok m
      → (f : Bytes) × (m.filename ≡ file_of f) × (lacks 0 f ≡ true)
  unfolding bytes_as_read_message new_read_message
  bytes_as_read_message-filename buf m h = elim (Result-cases (bytes_as_request map_lower buf)) [
    | inl ((f, mode, o), e) ↦ (f, ground arith, bytes_as_request-filename buf e)
    | inr (x, e) ↦ absurd (ground arith)
  ]

  bytes_as_write_message-filename :
      (buf : Bytes) (m : WriteMessage)
      → bytes_as_write_message map_lower buf ≡ ok m
      → (f : Bytes) × (m.filename ≡ file_of f) × (lacks 0 f ≡ true)
  unfolding bytes_as_write_message new_write_message
  bytes_as_write_message-filename buf m h = elim (Result-cases (bytes_as_request map_lower buf)) [
    | inl ((f, mode, o), e) ↦ (f, ground arith, bytes_as_request-filename buf e)
    | inr (x, e) ↦ absurd (ground arith)
  ]

  -- Whatever bytes a client sends, a read or write request that is decoded names a file with no
  -- separator and no null byte in its name.
  pub bytes_as_message-IsLocal :
      (buf : Bytes) (m : Message) → bytes_as_message map_lower buf ≡ ok m → IsLocal m
  bytes_as_message-IsLocal buf m h = local m (bytes_as_message-Opened buf m h)
    where
      file_name : (f name : Bytes) → name ≡ file_of f → lacks 0 f ≡ true → IsFileName name
      file_name f name e k = rw e (file_of-lacks f, file_of-lacks_of 0 f k)

      local : (m : Message) → Opened buf m → IsLocal m
      local (read_message m) o =
          let (f, e, k) = bytes_as_read_message-filename o.rest m o.decoded.1 in
          file_name f m.filename e k
      local (write_message m) o =
          let (f, e, k) = bytes_as_write_message-filename o.rest m o.decoded.1 in
          file_name f m.filename e k
      local _ o = tt

  big_endian-word_of :
      (hi lo : ℕ) (rest : Bytes)
      → hi < 256
      → lo < 256
      → big_endian (word_of (hi ∷ lo ∷ rest)) ≡ hi ∷ lo ∷ []
  big_endian-word_of hi lo rest h l = ground arith

  bytes_as_data_message-inverse :
      (buf : Bytes) (d : DataMessage)
      → bytes_as_data_message buf ≡ ok d
      → All (λ b. b < 256) buf
      → big_endian d.block_number ++ d.body ≡ buf
  unfolding bytes_as_data_message
  bytes_as_data_message-inverse [] d h all = absurd (ground arith)
  bytes_as_data_message-inverse (x ∷ []) d h all = absurd (ground arith)
  bytes_as_data_message-inverse (hi ∷ lo ∷ rest) d h all =
      ground (arith, big_endian-word_of hi lo rest)

  bytes_as_acknowledge_message-inverse :
      (buf : Bytes) (a : AcknowledgeMessage)
      → bytes_as_acknowledge_message buf ≡ ok a
      → All (λ b. b < 256) buf
      → big_endian a.block_number ≡ take 2 buf
  unfolding bytes_as_acknowledge_message
  bytes_as_acknowledge_message-inverse [] a h all = absurd (ground arith)
  bytes_as_acknowledge_message-inverse (x ∷ []) a h all = absurd (ground arith)
  bytes_as_acknowledge_message-inverse (hi ∷ lo ∷ rest) a h all =
      ground (arith, big_endian-word_of hi lo rest)

  -- A data message is decoded without loss: encoding it again gives the bytes that were received,
  -- whatever the buffer held before.
  pub message_as_bytes-data_message :
      (buf old : Bytes) (d : DataMessage)
      → bytes_as_message map_lower buf ≡ ok (data_message d)
      → All (λ b. b < 256) buf
      → (message_as_bytes map_lower (data_message d) old).0 ≡ buf
  message_as_bytes-data_message buf old d h all =
      let o = bytes_as_message-Opened buf (data_message d) h in
      message_as_bytes-layout map_lower (data_message d) (λ e. cc) old
      ∙ ap (λ r. 0 ∷ 3 ∷ r)
          (bytes_as_data_message-inverse o.rest d o.decoded.1 (rw o.split at all).1.1)
      ∙ (rw (← o.decoded.0) (sym o.split))

  -- An acknowledgement is read from the first four bytes of the datagram: encoding it again gives
  -- those, and what follows them is ignored.
  pub message_as_bytes-acknowledge_message :
      (buf old : Bytes) (a : AcknowledgeMessage)
      → bytes_as_message map_lower buf ≡ ok (acknowledge_message a)
      → All (λ b. b < 256) buf
      → (message_as_bytes map_lower (acknowledge_message a) old).0 ≡ take 4 buf
  message_as_bytes-acknowledge_message buf old a h all =
      let o = bytes_as_message-Opened buf (acknowledge_message a) h in
      message_as_bytes-layout map_lower (acknowledge_message a) (λ e. cc) old
      ∙ ap (λ r. 0 ∷ 4 ∷ r)
          (bytes_as_acknowledge_message-inverse o.rest a o.decoded.1 (rw o.split at all).1.1)
      ∙ ap (λ c. 0 ∷ c ∷ take 2 o.rest) (sym o.decoded.0)
      ∙ ap (take 4) (sym o.split)
