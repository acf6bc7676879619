-- ===== src/Wire/Decode/Total.antt =====
-- The loop over the options ends: the fuel that the model gives it is never used up.
use tftpcpd.Base.{
  ℕ, zero, suc, ◌<◌, Bytes, Bool, true, false, [], ◌∷◌, ◌≡◌, ◌≢◌, refl, ap, ◌⊎◌, inl, inr, arith,
  ◌==◌, if◌then◌else◌, length, length-append, to_lower,
}
use tftpcpd.Wire.Defs.{
  out_of_fuel, Result, ok, err, Options, Message, read_message, write_message, data_message,
  acknowledge_message, error_message, option_acknowledge_message, ◌>>=◌,
}
use tftpcpd.Wire.Decode.{
  pop_null_string, insert, option_loop, bytes_as_option_map, request_mode, request_filename,
  bytes_as_request, dispatch, bytes_as_message, bytes_as_read_message, bytes_as_write_message,
  bytes_as_data_message, bytes_as_acknowledge_message, bytes_as_error_message, explanation_of,
  bytes_as_option_acknowledge_message,
}
use tftpcpd.Wire.Decode.Pop.{popped_of, unterminated_of, pop_null_string-cases}

-- A string that is found leaves a shorter buffer.
length-popped_of : (s rest : Bytes) → length (popped_of s rest).rest ≡ length rest
length-popped_of s [] = refl
length-popped_of s (c ∷ cs) = refl

length-pop_null_string :
    (buf : Bytes)
    → (length (pop_null_string buf).rest < length buf) ⊎ (pop_null_string buf ≡ unterminated_of buf)
length-pop_null_string buf = elim (pop_null_string-cases buf) [
  | inl e ↦ inr e
  | inr (s, e) ↦ inl (
      rw e (
        omega (
          arith,
          length-popped_of s.string s.rest,
          ap (length {A = ℕ}) s.splits,
          length-append s.string (0 ∷ s.rest),
        )))
]

wrap_ne :
    {A : Type 0} (r : Result A) (f : A → Message)
    → r ≢ err out_of_fuel
    → (r >>= λ m. ok (f m)) ≢ err out_of_fuel
wrap_ne (ok a) f h e = cc
wrap_ne (err x) f h e = ground arith

if_ne :
    (b : Bool) {r s : Result Message}
    → r ≢ err out_of_fuel
    → s ≢ err out_of_fuel
    → (if b then r else s) ≢ err out_of_fuel
if_ne true h k = h
if_ne false h k = k

module _ (map_lower : Bytes → Bytes) where
  option_loop-ne-out_of_fuel :
      (fuel : ℕ) (buf : Bytes) (o : Options)
      → length buf < fuel
      → option_loop map_lower fuel buf o ≢ err out_of_fuel
  unfolding option_loop
  option_loop-ne-out_of_fuel zero buf o lt = elim lt [ ]
  option_loop-ne-out_of_fuel (suc fuel) buf o lt =
      let key = pop_null_string buf in
      let val = pop_null_string key.rest in
      ground (
        arith,
        length-pop_null_string buf,
        length-pop_null_string key.rest,
        option_loop-ne-out_of_fuel fuel val.rest
            (insert (to_lower map_lower key.string) val.string o),
      )

  bytes_as_option_map-ne-out_of_fuel :
      (buf : Bytes) → bytes_as_option_map map_lower buf ≢ err out_of_fuel
  unfolding bytes_as_option_map
  bytes_as_option_map-ne-out_of_fuel buf =
      option_loop-ne-out_of_fuel (suc (length buf)) buf [] (omega arith)

  bytes_as_request-ne-out_of_fuel : (buf : Bytes) → bytes_as_request map_lower buf ≢ err out_of_fuel
  unfolding bytes_as_request request_filename request_mode
  bytes_as_request-ne-out_of_fuel buf =
      let rest = (pop_null_string (pop_null_string buf).rest).rest in
      ground (arith, bytes_as_option_map-ne-out_of_fuel rest)

  bytes_as_read_message-ne-out_of_fuel :
      (buf : Bytes) → bytes_as_read_message map_lower buf ≢ err out_of_fuel
  unfolding bytes_as_read_message
  bytes_as_read_message-ne-out_of_fuel buf = ground (arith, bytes_as_request-ne-out_of_fuel buf)

  bytes_as_write_message-ne-out_of_fuel :
      (buf : Bytes) → bytes_as_write_message map_lower buf ≢ err out_of_fuel
  unfolding bytes_as_write_message
  bytes_as_write_message-ne-out_of_fuel buf = ground (arith, bytes_as_request-ne-out_of_fuel buf)

  bytes_as_error_message-ne-out_of_fuel :
      (buf : Bytes) → bytes_as_error_message buf ≢ err out_of_fuel
  unfolding bytes_as_error_message explanation_of
  bytes_as_error_message-ne-out_of_fuel buf = ground arith

  bytes_as_option_acknowledge_message-ne-out_of_fuel :
      (buf : Bytes) → bytes_as_option_acknowledge_message map_lower buf ≢ err out_of_fuel
  unfolding bytes_as_option_acknowledge_message
  bytes_as_option_acknowledge_message-ne-out_of_fuel buf =
      ground (arith, bytes_as_option_map-ne-out_of_fuel buf)

  dispatch-ne-out_of_fuel :
      (opcode : ℕ) (buf : Bytes) → dispatch map_lower opcode buf ≢ err out_of_fuel
  unfolding dispatch
  dispatch-ne-out_of_fuel opcode buf =
      if_ne (opcode == 1)
        (wrap_ne (bytes_as_read_message map_lower buf) read_message
          (bytes_as_read_message-ne-out_of_fuel buf))
        (if_ne (opcode == 2)
          (wrap_ne (bytes_as_write_message map_lower buf) write_message
            (bytes_as_write_message-ne-out_of_fuel buf))
          (if_ne (opcode == 3)
            (wrap_ne (bytes_as_data_message buf) data_message
              (unfold bytes_as_data_message in ground arith))
            (if_ne (opcode == 4)
              (wrap_ne (bytes_as_acknowledge_message buf) acknowledge_message
                (unfold bytes_as_acknowledge_message in ground arith))
              (if_ne (opcode == 5)
                (wrap_ne (bytes_as_error_message buf) error_message
                  (bytes_as_error_message-ne-out_of_fuel buf))
                (if_ne (opcode == 6)
                  (wrap_ne (bytes_as_option_acknowledge_message map_lower buf)
                    option_acknowledge_message
                    (bytes_as_option_acknowledge_message-ne-out_of_fuel buf))
                  (λ e. cc))))))

  -- On every buffer the decoder ends with a message or one of the source's errors: its loop never
  -- runs out of the fuel that the model gives it.
  pub bytes_as_message-ne-out_of_fuel :
      (buf : Bytes) → bytes_as_message map_lower buf ≢ err out_of_fuel
  unfolding bytes_as_message
  bytes_as_message-ne-out_of_fuel [] = ground arith
  bytes_as_message-ne-out_of_fuel (x ∷ []) = ground arith
  bytes_as_message-ne-out_of_fuel (x ∷ opcode ∷ buf) =
      ground (arith, dispatch-ne-out_of_fuel opcode buf)
