-- ===== src/Session/Options.antt =====
-- internal/session.go: `UpdateOptions`, with `Path` of internal/database.go.
pub mod Laws
pub mod Keys
pub mod Buffers
use tftpcpd.Base.{
  ℕ, zero, ◌-◌, ◌%◌, ◌^◌, Bytes, Bool, true, false, ◌||◌, [], ◌∷◌, ◌++◌, Option, none, some, codes,
  equal, to_lower, ltb, ◌==◌, if◌then◌else◌,
}
use tftpcpd.Wire.{Options}
use tftpcpd.Wire.Decode.{insert}
use tftpcpd.Session.State.{
  Operation, read_as_server, Session, u16, invalid_blksize, invalid_tsize, size_unknown, Outcome,
  done, failed, panic, ◌>>=◌, Runtime,
}
use tftpcpd.Session.Number.{ℤ, pos, negsuc, parse_int, format_int}

-- `fileModel.Path`
unfoldable pub path_of : Bytes → ℕ → Bytes
path_of filename time_started = filename ++ (b'.' ∷ format_int (pos time_started))

-- `v < low || v > high`
pub outside : ℕ → ℕ → ℤ → Bool
outside low high (pos n) = ltb n low || ltb high n
outside low high (negsuc n) = true

-- The conversions to an unsigned type of `2 ^ w` values.
abbrev pub to_unsigned : ℕ → ℤ → ℕ
to_unsigned w (pos n) = n % 2 ^ w
to_unsigned w (negsuc n) = 2 ^ w - 1 - n % 2 ^ w

pub set_block_size : Bytes → ℤ → Options → Session → Outcome Options
set_block_size value n o s =
    if outside 8 65464 n
    then failed invalid_blksize s
    else done (insert (codes "blksize") value o) (record s { block_size = to_unsigned 16 n })

pub set_timeout : Bytes → ℤ → Options → Session → Outcome Options
set_timeout value n o s =
    if outside 1 255 n
    then done o s
    else done (insert (codes "timeout") value o) (record s { timeout = to_unsigned 64 n })

pub set_transfer_size : ℤ → Options → Session → Outcome Options
set_transfer_size n o s =
    done (insert (codes "tsize") (format_int n) o) (record s { transfer_size = to_unsigned 64 n })

-- What `Lstat` in the served directory says: the size of a file, or an error.
abbrev pub Lstat : Type 0
Lstat = Bytes → Option ℕ

-- A size of 0 in a read request asks for the size of the file.
pub find_size : Lstat → Options → Session → Outcome Options
find_size lstat o s = elim s.operation [
  | read_as_server ↦ elim (lstat (path_of s.filename s.unix_micro)) [
    | none ↦ failed size_unknown s
    | some size ↦ set_transfer_size (pos size) o s
  ]
  | _ ↦ failed invalid_tsize s
]

pub set_size : Lstat → ℤ → Options → Session → Outcome Options
set_size lstat (pos zero) o s = find_size lstat o s
set_size lstat n o s = set_transfer_size n o s

-- The `switch` on the key, with a value that parsed.
pub apply_option : Lstat → Bytes → Bytes → ℤ → Options → Session → Outcome Options
apply_option lstat key value n o s =
    if equal key (codes "blksize")
    then set_block_size value n o s
    else if equal key (codes "timeout")
    then set_timeout value n o s
    else if equal key (codes "tsize")
    then set_size lstat n o s
    else done o s

module _ (rt : Runtime) (lstat : Lstat) where
  -- One pass of the loop over the options. A value that is no decimal int64 panics.
  pub update_option : Bytes → Bytes → Options → Session → Outcome Options
  update_option key value o s = elim (parse_int value) [
    | none ↦ panic
    | some n ↦ apply_option lstat (to_lower rt.map_lower key) value n o s
  ]

  -- The loop, over the pairs that are still to be visited, with the map as it has become.
  pub update_each : Options → Options → Session → Outcome Options
  update_each [] o s = done o s
  update_each ((key, value) ∷ later) o s =
      update_option key value o s >>= λ p t. update_each later p t

  -- `UpdateOptions`. The map is the one of the request, and is written in place.
  unfoldable pub update_options : Options → Session → Outcome (Unit {0})
  unfolding update_each update_option apply_option set_block_size set_timeout set_size find_size
      set_transfer_size outside
  update_options options s =
      update_each options options s >>= λ o t. done tt (record t { options = o })
