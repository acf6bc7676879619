-- ===== src/Session/Slice.antt =====
-- Go slices with the array behind them, as internal/session.go uses them for `SendBuf` and
-- `ReceiveBuf`: making, reslicing, and what a message written to `(*buf)[:0]` leaves.
pub mod Laws
use tftpcpd.Base.{
  ℕ, ◌+◌, Bytes, [], ◌++◌, Option, none, some, leb, if◌then◌else◌, length, take, drop, replicate,
}

-- The bytes that the slice shows, and those that its array holds behind them.
pub record Slice : Type 0 where
  pub shown : Bytes
  pub behind : Bytes

abbrev pub len : Slice → ℕ
len b = length b.shown

abbrev pub array : Slice → Bytes
array b = b.shown ++ b.behind

-- `cap(b)`
abbrev pub capacity : Slice → ℕ
capacity b = length b.shown + length b.behind

-- `make([]byte, n)`
unfoldable pub make : ℕ → Slice
make n = record { shown = replicate n 0; behind = [] }

-- `b[:n]`, which panics (`none`) past the capacity.
unfoldable pub reslice : ℕ → Slice → Option Slice
reslice n b =
    if leb n (capacity b)
    then some (record { shown = take n (array b); behind = drop n (array b) })
    else none

-- The slice after `bytes` were appended to `b[:0]`: in place if they fit, else in a new array,
-- behind which lies what `spare` says.
unfoldable pub overwrite : (ℕ → ℕ → Bytes) → Bytes → Slice → Slice
overwrite spare bytes b =
    if leb (length bytes) (capacity b)
    then record { shown = bytes; behind = drop (length bytes) (array b) }
    else record { shown = bytes; behind = spare (capacity b) (length bytes) }

-- `n, _ := read(b)` followed by `b = b[:n]`: the slice after `bytes`, no longer than `b`, were copied to its front.
unfoldable pub copy_front : Bytes → Slice → Slice
copy_front bytes b = record { shown = bytes; behind = drop (length bytes) (array b) }
