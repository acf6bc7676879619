-- ===== src/Wire/Encode/Layout.antt =====
-- The layout of an encoded message, bracketed to the right: the byte structures that the comments
-- above the message types of internal/bytes.go draw.
use tftpcpd.Base.{
  Bytes, [], ◌∷◌, ◌++◌, ◌≡◌, ◌≢◌, refl, sym, ◌∙◌, append-nil, append_assoc, to_lower, none,
}
use tftpcpd.Wire.Defs.{
  Options, Message, read_message, write_message, data_message, acknowledge_message, error_message,
  option_acknowledge_message, other,
}
use tftpcpd.Wire.Encode.{
  big_endian, append_options, read_message_as_bytes, write_message_as_bytes, data_message_as_bytes,
  acknowledge_message_as_bytes, error_message_as_bytes, option_acknowledge_message_as_bytes,
  message_as_bytes,
}

module _ (map_lower : Bytes → Bytes) where
  -- The pairs of the options, each as two null-terminated strings.
  abbrev pub option_bytes : Options → Bytes
  option_bytes [] = []
  option_bytes ((k, v) ∷ o) = to_lower map_lower k ++ (0 ∷ (v ++ (0 ∷ option_bytes o)))

  abbrev pub request_bytes : Bytes → Bytes → Options → Bytes
  request_bytes filename mode o = filename ++ (0 ∷ (mode ++ (0 ∷ option_bytes o)))

  abbrev pub layout : Message → Bytes
  layout (read_message m) = 0 ∷ 1 ∷ request_bytes m.filename m.mode m.options
  layout (write_message m) = 0 ∷ 2 ∷ request_bytes m.filename m.mode m.options
  layout (data_message m) = 0 ∷ 3 ∷ (big_endian m.block_number ++ m.body)
  layout (acknowledge_message m) = 0 ∷ 4 ∷ big_endian m.block_number
  layout (error_message m) = 0 ∷ 5 ∷ (big_endian m.error_code ++ (m.explanation ++ (0 ∷ [])))
  layout (option_acknowledge_message m) = 0 ∷ 6 ∷ option_bytes m.options
  layout other = []

  append_options-option_bytes :
      (buf : Bytes) (o : Options) → append_options map_lower buf o ≡ buf ++ option_bytes o
  unfolding append_options
  append_options-option_bytes buf [] = sym (append-nil buf)
  append_options-option_bytes buf ((k, v) ∷ o) =
      append_options-option_bytes (buf ++ ((to_lower map_lower k ++ 0 ∷ []) ++ (v ++ 0 ∷ []))) o
      ∙ simp append_assoc

  pub message_as_bytes-layout :
      (m : Message) → m ≢ other → (buf : Bytes) → (message_as_bytes map_lower m buf).0 ≡ layout m
  unfolding message_as_bytes read_message_as_bytes write_message_as_bytes data_message_as_bytes
      acknowledge_message_as_bytes error_message_as_bytes option_acknowledge_message_as_bytes
  message_as_bytes-layout (read_message m) h buf = simp (append_options-option_bytes, append_assoc)
  message_as_bytes-layout (write_message m) h buf = simp (append_options-option_bytes, append_assoc)
  message_as_bytes-layout (data_message m) h buf = refl
  message_as_bytes-layout (acknowledge_message m) h buf = refl
  message_as_bytes-layout (error_message m) h buf = refl
  message_as_bytes-layout (option_acknowledge_message m) h buf =
      simp (append_options-option_bytes, append_assoc)
  message_as_bytes-layout other h buf = absurd (h refl)

  -- `MessageAsBytes` of a message writes its layout and returns no error.
  pub message_as_bytes_lem :
      (m : Message)
      → m ≢ other
      → (buf : Bytes) → message_as_bytes map_lower m buf ≡ (layout m, none)
  message_as_bytes_lem m h buf = λ i. (message_as_bytes-layout m h buf i, no_error m h i)
    where
      no_error : (m : Message) → m ≢ other → (message_as_bytes map_lower m buf).1 ≡ none
      no_error (read_message m) h = unfold message_as_bytes in refl
      no_error (write_message m) h = unfold message_as_bytes in refl
      no_error (data_message m) h = unfold message_as_bytes in refl
      no_error (acknowledge_message m) h = unfold message_as_bytes in refl
      no_error (error_message m) h = unfold message_as_bytes in refl
      no_error (option_acknowledge_message m) h = unfold message_as_bytes in refl
      no_error other h = absurd (h refl)
