-- ===== src/Wire/Decode/RoundTrip.antt =====
-- `BytesAsMessage` after `MessageAsBytes`.
use tftpcpd.Base.{
  ℕ, suc, ◌+◌, ◌*◌, ◌/◌, ◌%◌, ◌≤◌, ◌<◌, Bytes, true, [], ◌∷◌, ◌++◌, none, ◌≡◌, ◌≢◌, refl, ◌∙◌,
  arith, length, length-append, lacks, to_lower, file_of-eq_self, le→ltb,
}
use tftpcpd.Wire.Defs.{
  ok, Options, Message, read_message, write_message, data_message, acknowledge_message,
  error_message, ErrorMessage, option_acknowledge_message, other,
}
use tftpcpd.Wire.Encode.{big_endian, message_as_bytes}
use tftpcpd.Wire.Encode.Layout.{option_bytes, request_bytes, layout, message_as_bytes-layout}
use tftpcpd.Wire.Decode.{
  bytes_as_option_map, request_mode, request_filename, bytes_as_request, dispatch, bytes_as_message,
  bytes_as_read_message, bytes_as_write_message, bytes_as_data_message,
  bytes_as_acknowledge_message, bytes_as_error_message, explanation_of,
  bytes_as_option_acknowledge_message, new_read_message, new_write_message,
}
use tftpcpd.Wire.Decode.Pop.{popped_of, pop_null_string-append}
use tftpcpd.Wire.Decode.OptionMap.{IsOptions, popped_of-key, bytes_as_option_map-option_bytes}

module _ (map_lower : Bytes → Bytes) where
  -- The fields of a request that survive the wire.
  pub record IsRequest (filename mode : Bytes) (o : Options) : Type 0 where
    pub filename_text : lacks 0 filename ≡ true
    pub filename_base : lacks b'/' filename ≡ true
    pub mode_text : lacks 0 mode ≡ true
    pub mode_lower : to_lower map_lower mode ≡ mode
    pub options_text : IsOptions map_lower [] o
    pub long_enough : 8 ≤ length (request_bytes map_lower filename mode o)

  pub record IsError (m : ErrorMessage) : Type 0 where
    pub code_range : m.error_code < 65536
    pub explanation_text : lacks 0 m.explanation ≡ true
    pub long_enough : 5 ≤ length m.explanation

  -- Which messages the decoder gives back as they were.
  abbrev pub CanDecode : Message → Type 0
  CanDecode (read_message m) = IsRequest m.filename m.mode m.options
  CanDecode (write_message m) = IsRequest m.filename m.mode m.options
  CanDecode (data_message m) = m.block_number < 65536
  CanDecode (acknowledge_message m) = m.block_number < 65536
  CanDecode (error_message m) = IsError m
  CanDecode (option_acknowledge_message m) =
      IsOptions map_lower [] m.options × (4 ≤ length (option_bytes map_lower m.options))
  CanDecode other = ⊥

  request_mode-options :
      (filename mode rest : Bytes) (o : Options)
      → to_lower map_lower mode ≡ mode
      → bytes_as_option_map map_lower rest ≡ ok o
      → request_mode map_lower filename (record { string = mode; failure = none; rest = rest })
        ≡ ok (filename, mode, o)
  unfolding request_mode
  request_mode-options filename mode rest o hm ho = ground arith

  request_mode-popped_of :
      (filename mode : Bytes) (o : Options)
      → IsRequest filename mode o
      → request_mode map_lower filename (popped_of mode (option_bytes map_lower o))
        ≡ ok (filename, mode, o)
  request_mode-popped_of filename mode [] h = unfold request_mode in rw (h.mode_lower)
  request_mode-popped_of filename mode ((k, v) ∷ o) h =
      let all = option_bytes map_lower ((k, v) ∷ o) in
      rw (popped_of-key mode (to_lower map_lower k) (v ++ (0 ∷ option_bytes map_lower o))) (
        request_mode-options filename mode all ((k, v) ∷ o) h.mode_lower
          (bytes_as_option_map-option_bytes map_lower ((k, v) ∷ o) h.options_text))

  bytes_as_request-request_bytes :
      (filename mode : Bytes) (o : Options)
      → IsRequest filename mode o
      → bytes_as_request map_lower (request_bytes map_lower filename mode o)
        ≡ ok (filename, mode, o)
  unfolding bytes_as_request
  bytes_as_request-request_bytes filename mode o h =
      let rest = mode ++ (0 ∷ option_bytes map_lower o) in
      rw (le→ltb (length (request_bytes map_lower filename mode o)) 8 h.long_enough) (
        rw
          (
            pop_null_string-append filename rest h.filename_text,
            popped_of-key filename mode (option_bytes map_lower o),
          )
          (unfold request_filename in
            rw (pop_null_string-append mode (option_bytes map_lower o) h.mode_text)
              (request_mode-popped_of filename mode o h)))

  word : (n : ℕ) → n < 65536 → (n / 256 % 256 * 256 % 65536 + n % 256) % 65536 ≡ n
  word n h = omega arith

  explanation_of-popped_of :
      (n : ℕ) (s : Bytes)
      → explanation_of n (popped_of s []) ≡ ok (record { error_code = n; explanation = s })
  unfolding explanation_of
  explanation_of-popped_of n s = refl

  bytes_as_error_message-layout :
      (m : ErrorMessage)
      → IsError m
      → bytes_as_error_message (big_endian m.error_code ++ (m.explanation ++ (0 ∷ []))) ≡ ok m
  unfolding bytes_as_error_message
  bytes_as_error_message-layout m h =
      rw
        (le→ltb (suc (suc (length (m.explanation ++ (0 ∷ []))))) 8
          (omega (arith, h.long_enough, length-append m.explanation (0 ∷ []))))
        (rw (pop_null_string-append m.explanation [] h.explanation_text) (
          rw (word m.error_code h.code_range)
            (explanation_of-popped_of m.error_code m.explanation)))

  bytes_as_option_acknowledge_message-layout :
      (o : Options)
      → IsOptions map_lower [] o
      → 4 ≤ length (option_bytes map_lower o)
      → bytes_as_option_acknowledge_message map_lower (option_bytes map_lower o)
        ≡ ok (record { options = o })
  unfolding bytes_as_option_acknowledge_message
  bytes_as_option_acknowledge_message-layout o h long =
      rw (le→ltb (length (option_bytes map_lower o)) 4 long)
        (rw (bytes_as_option_map-option_bytes map_lower o h))

  bytes_as_message-dispatch :
      (opcode : ℕ) (rest : Bytes)
      → bytes_as_message map_lower (0 ∷ opcode ∷ rest) ≡ dispatch map_lower opcode rest
  unfolding bytes_as_message
  bytes_as_message-dispatch opcode rest = ground arith

  pub bytes_as_message-layout :
      (m : Message) → CanDecode m → bytes_as_message map_lower (layout map_lower m) ≡ ok m
  bytes_as_message-layout (read_message m) h =
      bytes_as_message-dispatch 1 _
      ∙ (unfold dispatch bytes_as_read_message new_read_message in
          rw (
            bytes_as_request-request_bytes m.filename m.mode m.options h,
            file_of-eq_self m.filename h.filename_base,
          ))
  bytes_as_message-layout (write_message m) h =
      bytes_as_message-dispatch 2 _
      ∙ (unfold dispatch bytes_as_write_message new_write_message in
          rw (
            bytes_as_request-request_bytes m.filename m.mode m.options h,
            file_of-eq_self m.filename h.filename_base,
          ))
  bytes_as_message-layout (data_message m) h =
      bytes_as_message-dispatch 3 _
      ∙ (unfold dispatch bytes_as_data_message in ground (arith, word m.block_number))
  bytes_as_message-layout (acknowledge_message m) h =
      bytes_as_message-dispatch 4 _
      ∙ (unfold dispatch bytes_as_acknowledge_message in ground (arith, word m.block_number))
  bytes_as_message-layout (error_message m) h =
      bytes_as_message-dispatch 5 _ ∙ (unfold dispatch in rw (bytes_as_error_message-layout m h))
  bytes_as_message-layout (option_acknowledge_message m) h =
      bytes_as_message-dispatch 6 _
      ∙ (unfold dispatch in rw (bytes_as_option_acknowledge_message-layout m.options h.0 h.1))
  bytes_as_message-layout other h = absurd h

  CanDecode-ne-other : (m : Message) → CanDecode m → m ≢ other
  CanDecode-ne-other m h e = rw e at h

  -- A message is decoded from its own encoding, unchanged, whatever the buffer held before, where
  -- it is such as the format can carry and as long as the decoder asks for: null-terminated texts
  -- hold no null byte, a file name has no separator, the mode and the option keys are in lower
  -- case and the keys distinct, 16-bit fields are in range; a request's name, mode and options
  -- with their null bytes are at least 8 bytes, the pairs of an acknowledgement of options at
  -- least 4, and an error's explanation at least 5.
  pub bytes_as_message-message_as_bytes :
      (m : Message) (buf : Bytes)
      → CanDecode m
      → bytes_as_message map_lower (message_as_bytes map_lower m buf).0 ≡ ok m
  bytes_as_message-message_as_bytes m buf h =
      rw (message_as_bytes-layout map_lower m (CanDecode-ne-other m h) buf)
        (bytes_as_message-layout m h)
