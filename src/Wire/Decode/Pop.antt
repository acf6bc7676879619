-- ===== src/Wire/Decode/Pop.antt =====
-- What `popNullString` returns on each kind of buffer.
use tftpcpd.Base.{
  ℕ, suc, Bytes, true, [], ◌∷◌, ◌++◌, none, some, ◌≡◌, refl, ap, ◌∙◌, ◌⊎◌, inl, inr, arith, ◌==◌,
  Bool-cases, length, length-append, take, drop, lacks,
}
use native.Mathlib.Numerals.{add-one}
use tftpcpd.Wire.Defs.{unterminated_null_string, eof}
use tftpcpd.Wire.Decode.{index_suc, null_index, Popped, pop_at, pop_null_string}

-- The two results for a string that is there.
abbrev pub popped_of : Bytes → Bytes → Popped
popped_of s [] = record { string = s; failure = some eof; rest = [] }
popped_of s (c ∷ cs) = record { string = s; failure = none; rest = c ∷ cs }

null_index-append :
    (s rest : Bytes) → lacks 0 s ≡ true → null_index (s ++ (0 ∷ rest)) ≡ some (length s)
unfolding null_index index_suc lacks
null_index-append [] rest h = refl
null_index-append (c ∷ s) rest h = ground (arith, null_index-append s rest)

take-length : (s rest : Bytes) → take (length s) (s ++ rest) ≡ s
take-length [] rest = refl
take-length (c ∷ s) rest = ap (◌∷◌ c) (take-length s rest)

drop-length : (s : Bytes) (c : ℕ) (rest : Bytes) → drop (suc (length s)) (s ++ (c ∷ rest)) ≡ rest
drop-length [] c rest = refl
drop-length (d ∷ s) c rest = drop-length s c rest

-- A null-terminated string is popped whole, and what follows it is left.
pub pop_null_string-append :
    (s rest : Bytes) → lacks 0 s ≡ true → pop_null_string (s ++ (0 ∷ rest)) ≡ popped_of s rest
unfolding pop_null_string pop_at
pop_null_string-append s [] h = ground (
  arith,
  null_index-append s [] h,
  length-append s (0 ∷ []),
  take-length s (0 ∷ []),
  drop-length s 0 [],
)
pop_null_string-append s (c ∷ rest) h =
    rw (null_index-append s (c ∷ rest) h, pop_at)
      (rw (take-length s (0 ∷ c ∷ rest), add-one, drop-length s 0 (c ∷ rest))
        (ground (arith, length-append s (0 ∷ c ∷ rest))))

abbrev pub unterminated_of : Bytes → Popped
unterminated_of buf = record { string = []; failure = some unterminated_null_string; rest = buf }

-- A null byte splits the buffer; without one the index is absent.
pub record Split (buf : Bytes) : Type 0 where
  pub string : Bytes
  pub rest : Bytes
  pub string_lacks : lacks 0 string ≡ true
  pub splits : buf ≡ string ++ (0 ∷ rest)

null_index-cases : (buf : Bytes) → (null_index buf ≡ none) ⊎ Split buf
unfolding null_index index_suc lacks
null_index-cases [] = inl refl
null_index-cases (c ∷ buf) = elim (Bool-cases (c == 0)) [
  | inl e ↦ inr (record { string = []; rest = buf; string_lacks = refl; splits = ground arith })
  | inr ne ↦ elim (null_index-cases buf) [
    | inl absent ↦ inl (rw ne (rw absent refl))
    | inr sp ↦ inr (record {
      string = c ∷ sp.string;
      rest = sp.rest;
      string_lacks = rw ne sp.string_lacks;
      splits = ap (◌∷◌ c) sp.splits;
    })
  ]
]

-- What `popNullString` can return: the string up to the first null byte, or a refusal that leaves
-- the buffer alone.
pub pop_null_string-cases :
    (buf : Bytes)
    → (pop_null_string buf ≡ unterminated_of buf)
      ⊎ ((s : Split buf) × (pop_null_string buf ≡ popped_of s.string s.rest))
pop_null_string-cases buf = elim (null_index-cases buf) [
  | inl absent ↦ inl (unfold pop_null_string pop_at in rw absent)
  | inr s ↦
      inr (s, ap pop_null_string s.splits ∙ pop_null_string-append s.string s.rest s.string_lacks)
]
