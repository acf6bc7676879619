-- ===== src/Wire/Decode/OptionMap.antt =====
-- `bytesAsOptionMap` on encoded options, and on any bytes.
use tftpcpd.Base.{
  ℕ, zero, suc, ◌≤◌, ◌<◌, Bytes, Bool, true, false, ◌||◌, [], ◌∷◌, ◌++◌, none, ◌≡◌, refl, ap, ◌∙◌,
  arith, ◌==◌, length, length-append, lacks, equal, to_lower, append-nil, append_assoc,
}
use tftpcpd.Wire.Defs.{ok, Options}
use tftpcpd.Wire.Encode.Layout.{option_bytes}
use tftpcpd.Wire.Decode.{
  past_eof, insert, Popped, pop_null_string, option_loop, bytes_as_option_map,
}
use tftpcpd.Wire.Decode.Pop.{popped_of, pop_null_string-append}

unfoldable pub has_key : Bytes → Options → Bool
has_key k [] = false
has_key k ((j, w) ∷ o) = equal j k || has_key k o

insert_fresh : (k v : Bytes) (o : Options) → has_key k o ≡ false → insert k v o ≡ o ++ ((k, v) ∷ [])
unfolding insert has_key
insert_fresh k v [] h = refl
insert_fresh k v ((j, w) ∷ o) h = ground (arith, insert_fresh k v o)

-- What follows a key: the value is popped with or without `io.EOF`, which the caller treats alike.
popped_of-value :
    (v rest : Bytes)
    → ((popped_of v rest).string ≡ v)
      × (past_eof (popped_of v rest).failure ≡ none)
      × ((popped_of v rest).rest ≡ rest)
popped_of-value v [] = (refl, refl, refl)
popped_of-value v (c ∷ cs) = (refl, refl, refl)

pub popped_of-key :
    (k v rest : Bytes)
    → popped_of k (v ++ (0 ∷ rest)) ≡ record { string = k; failure = none; rest = v ++ (0 ∷ rest) }
popped_of-key k [] rest = refl
popped_of-key k (c ∷ v) rest = refl

length-null : (s rest : Bytes) → (length (s ++ (0 ∷ rest)) == 0) ≡ false
length-null s rest = ground (arith, length-append s (0 ∷ rest))

module _ (map_lower : Bytes → Bytes) where
  -- One round of the loop that finds a key and a value.
  pub option_loop_round :
      (fuel : ℕ) (buf : Bytes) (o : Options) (key val : Popped)
      → (length buf == 0) ≡ false
      → pop_null_string buf ≡ key
      → pop_null_string key.rest ≡ val
      → key.failure ≡ none
      → past_eof val.failure ≡ none
      → option_loop map_lower (suc fuel) buf o
        ≡ option_loop map_lower fuel val.rest (insert (to_lower map_lower key.string) val.string o)
  unfolding option_loop
  option_loop_round fuel buf o key val some_byte hk hv fk fv = ground arith

  option_loop_pair :
      (fuel : ℕ) (k v rest : Bytes) (o : Options)
      → lacks 0 k ≡ true
      → lacks 0 v ≡ true
      → option_loop map_lower (suc fuel) (k ++ (0 ∷ (v ++ (0 ∷ rest)))) o
        ≡ option_loop map_lower fuel rest (insert (to_lower map_lower k) v o)
  option_loop_pair fuel k v rest o hk hv =
      let (same, fine, left) = popped_of-value v rest in
      option_loop_round fuel (k ++ (0 ∷ (v ++ (0 ∷ rest)))) o
        (record { string = k; failure = none; rest = v ++ (0 ∷ rest) }) (popped_of v rest)
        (length-null k (v ++ (0 ∷ rest)))
        (pop_null_string-append k (v ++ (0 ∷ rest)) hk ∙ popped_of-key k v rest)
        (pop_null_string-append v rest hv) refl fine
      ∙ rw (same, left)

  -- A map that the encoder writes and the decoder reads back: `seen` holds the pairs before it.
  abbrev pub IsOptions : Options → Options → Type 0
  IsOptions seen [] = Unit
  IsOptions seen ((k, v) ∷ o) =
      (lacks 0 k ≡ true)
      × (lacks 0 v ≡ true)
      × (to_lower map_lower k ≡ k)
      × (has_key k seen ≡ false)
      × IsOptions (seen ++ ((k, v) ∷ [])) o

  option_loop-option_bytes :
      (fuel : ℕ) (seen o : Options)
      → IsOptions seen o
      → length o < fuel
      → option_loop map_lower fuel (option_bytes map_lower o) seen ≡ ok (seen ++ o)
  option_loop-option_bytes zero seen o h lt = elim lt [ ]
  option_loop-option_bytes (suc fuel) seen [] h lt = unfold option_loop in rw append-nil
  option_loop-option_bytes (suc fuel) seen ((k, v) ∷ o) h lt = rw (h.2) (
      option_loop_pair fuel k v (option_bytes map_lower o) seen h.0 h.1
      ∙ rw (h.2, insert_fresh k v seen h.3)
          (option_loop-option_bytes fuel (seen ++ ((k, v) ∷ [])) o h.4 (omega arith)
            ∙ ap ok (append_assoc seen ((k, v) ∷ []) o)))

  length-option_bytes : (o : Options) → length o ≤ length (option_bytes map_lower o)
  length-option_bytes [] = omega arith
  length-option_bytes ((k, v) ∷ o) = omega (
    arith,
    length-option_bytes o,
    length-append (to_lower map_lower k) (0 ∷ (v ++ (0 ∷ option_bytes map_lower o))),
    length-append v (0 ∷ option_bytes map_lower o),
  )

  -- The decoder reads back the pairs that the encoder wrote, in order.
  pub bytes_as_option_map-option_bytes :
      (o : Options)
      → IsOptions [] o
      → bytes_as_option_map map_lower (option_bytes map_lower o) ≡ ok o
  unfolding bytes_as_option_map
  bytes_as_option_map-option_bytes o h =
      option_loop-option_bytes (suc (length (option_bytes map_lower o))) [] o h
        (omega (arith, length-option_bytes o))
