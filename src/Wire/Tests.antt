-- ===== src/Wire/Tests.antt =====
-- Runs of the codec, and the theorems about it at concrete inputs.
use tftpcpd.Base.{
  ◌<◌, Bytes, [], ◌∷◌, ◌++◌, ◌≡◌, ◌≢◌, refl, arith, codes, to_lower, file_of, equal, lacks, none,
  All,
}
use tftpcpd.Wire.Defs.{
  ok, err, out_of_fuel, Message, read_message, data_message, acknowledge_message,
}
use tftpcpd.Wire.Encode.{message_as_bytes, encoding}
use tftpcpd.Wire.Decode.{bytes_as_message, decoding}
use tftpcpd.Wire.Decode.OptionMap.{has_key}
use tftpcpd.Wire.Decode.RoundTrip.{CanDecode, bytes_as_message-message_as_bytes}
use tftpcpd.Wire.Decode.Inverse.{IsLocal, bytes_as_message-IsLocal, message_as_bytes-data_message}
use tftpcpd.Wire.Decode.Total.{bytes_as_message-ne-out_of_fuel}

-- Text outside ASCII is not looked at in these runs.
abbrev same : Bytes → Bytes
same s = s

abbrev request : Message
request = read_message (record {
  filename = codes "boot.img";
  mode = codes "octet";
  options = (codes "blksize", codes "1024") ∷ (codes "tsize", codes "0") ∷ [];
})

abbrev request_bytes : Bytes
request_bytes =
    0
    ∷ 1
    ∷ (codes "boot.img"
        ++ (0
            ∷ (codes "octet"
                ++ (0
                    ∷ (codes "blksize"
                        ++ (0
                            ∷ (codes "1024"
                                ++ (0 ∷ (codes "tsize" ++ (0 ∷ (codes "0" ++ (0 ∷ []))))))))))))

request_encodes : message_as_bytes same request [] ≡ (request_bytes, none)
unfolding encoding to_lower
request_encodes = refl

request_decodes : bytes_as_message same request_bytes ≡ ok request
unfolding decoding to_lower file_of equal
request_decodes = refl

request-CanDecode : CanDecode same request
unfolding to_lower lacks has_key equal
request-CanDecode = record {
  filename_text = refl;
  filename_base = refl;
  mode_text = refl;
  mode_lower = refl;
  options_text = (refl, refl, refl, refl, (refl, refl, refl, refl, tt));
  long_enough = omega arith;
}

bytes_as_message-message_as_bytes_example :
    bytes_as_message same (message_as_bytes same request (7 ∷ [])).0 ≡ ok request
bytes_as_message-message_as_bytes_example =
    bytes_as_message-message_as_bytes same request (7 ∷ []) request-CanDecode

bytes_as_message-IsLocal_example : IsLocal request
bytes_as_message-IsLocal_example =
    bytes_as_message-IsLocal same request_bytes request request_decodes

bytes_as_message-ne-out_of_fuel_example : bytes_as_message same request_bytes ≢ err out_of_fuel
bytes_as_message-ne-out_of_fuel_example = bytes_as_message-ne-out_of_fuel same request_bytes

-- Block 258, which carries three bytes.
abbrev data_bytes : Bytes
data_bytes = 0 ∷ 3 ∷ 1 ∷ 2 ∷ codes "abc"

data_decodes :
    bytes_as_message same data_bytes
    ≡ ok (data_message (record { block_number = 258; body = codes "abc" }))
unfolding decoding
data_decodes = refl

data_in_range : All (λ b. b < 256) data_bytes
data_in_range = (
  omega arith,
  (omega arith, (omega arith, (omega arith, (omega arith, (omega arith, (omega arith, tt)))))),
)

message_as_bytes-data_message_example :
    (message_as_bytes same (data_message (record { block_number = 258; body = codes "abc" })) []).0
    ≡ data_bytes
message_as_bytes-data_message_example =
    message_as_bytes-data_message same data_bytes []
      (record { block_number = 258; body = codes "abc" }) data_decodes data_in_range

-- An acknowledgement of block 258, with a byte too many.
abbrev acknowledgement_bytes : Bytes
acknowledgement_bytes = 0 ∷ 4 ∷ 1 ∷ 2 ∷ 9 ∷ []

acknowledgement_decodes :
    bytes_as_message same acknowledgement_bytes
    ≡ ok (acknowledge_message (record { block_number = 258 }))
unfolding decoding
acknowledgement_decodes = refl

acknowledgement_in_range : All (λ b. b < 256) acknowledgement_bytes
acknowledgement_in_range =
    (omega arith, (omega arith, (omega arith, (omega arith, (omega arith, tt)))))
