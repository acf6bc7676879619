-- ===== src/Base/Text.antt =====
-- Go strings and byte slices as lists of numbers, and the calls of `slices`, `strings` and
-- `path/filepath` that the code makes on them.
use Prim.Native.Nat.{ℕ, ◌+◌}
use Prim.Native.Char.{code}
use Prim.Native.String.{String}
use mathlib.Core.Path.{◌≡◌, refl, sym}
use mathlib.Core.Logic.{◌↔◌}
use mathlib.Core.Bool.{Bool, true, false, ◌&&◌}
use mathlib.Core.List.{List, [], ◌∷◌, ◌++◌, map, append-nil, append_assoc}
use native.Mathlib.Omega.{arith}
use tftpcpd.Base.Test.{ltb, leb, ◌==◌, if◌then◌else◌}

abbrev pub Bytes : Type 0
Bytes = List ℕ

-- A text literal as its code points; every literal of the development is ASCII.
abbrev pub codes : String → Bytes
codes String.[] = []
codes (String.◌∷◌ c s) = code c ∷ codes s

-- Equality of two strings.
unfoldable pub equal : Bytes → Bytes → Bool
equal [] [] = true
equal [] (d ∷ ds) = false
equal (c ∷ cs) [] = false
equal (c ∷ cs) (d ∷ ds) = if c == d then equal cs ds else false

-- The test is equality.
pub equal_iff : (s t : Bytes) → (equal s t ≡ true) ↔ (s ≡ t)
unfolding equal
equal_iff [] t = ground arith
equal_iff (c ∷ cs) [] = ground arith
equal_iff (c ∷ cs) (d ∷ ds) = ground (arith, equal_iff cs ds)

-- The byte `c` does not occur.
unfoldable pub lacks : ℕ → Bytes → Bool
lacks c [] = true
lacks c (x ∷ xs) = if x == c then false else lacks c xs

is_ascii : Bytes → Bool
is_ascii [] = true
is_ascii (c ∷ cs) = ltb c 128 && is_ascii cs

-- One ASCII letter.
lower_byte : ℕ → ℕ
lower_byte c = if leb b'A' c && leb c b'Z' then c + 32 else c

-- `strings.ToLower`: ASCII text letter by letter; other text through the Unicode tables, which
-- the argument `map_lower` stands for.
unfoldable pub to_lower : (Bytes → Bytes) → Bytes → Bytes
unfolding is_ascii lower_byte
to_lower map_lower s = if is_ascii s then map lower_byte s else map_lower s

-- The second result of `filepath.Split` on Unix: what follows the last separator.
file_loop : Bytes → Bytes → Bytes
file_loop kept [] = kept
file_loop kept (c ∷ cs) = file_loop (if c == b'/' then [] else kept ++ c ∷ []) cs

unfoldable pub file_of : Bytes → Bytes
unfolding file_loop
file_of path = file_loop [] path

lacks-concat :
    (c : ℕ) (xs ys : Bytes) → lacks c xs ≡ true → lacks c ys ≡ true → lacks c (xs ++ ys) ≡ true
unfolding lacks
lacks-concat c [] ys h k = k
lacks-concat c (x ∷ xs) ys h k = ground (arith, lacks-concat c xs ys)

-- What the loop keeps after one more byte.
abbrev keep_byte : Bytes → ℕ → Bytes
keep_byte kept c = if c == b'/' then [] else kept ++ c ∷ []

keep_byte-lacks :
    (b : ℕ) (kept : Bytes) (c : ℕ)
    → lacks b kept ≡ true
    → lacks b (c ∷ []) ≡ true
    → lacks b (keep_byte kept c) ≡ true
unfolding lacks
keep_byte-lacks b kept c h k = ground (arith, lacks-concat b kept (c ∷ []))

file_loop-lacks :
    (b : ℕ) (kept path : Bytes)
    → lacks b kept ≡ true
    → lacks b path ≡ true
    → lacks b (file_loop kept path) ≡ true
unfolding file_loop
file_loop-lacks b kept [] h k = h
file_loop-lacks b kept (c ∷ cs) h k =
    let parts : (lacks b (c ∷ []) ≡ true) × (lacks b cs ≡ true) = unfold lacks in ground arith in
    file_loop-lacks b (keep_byte kept c) cs (keep_byte-lacks b kept c h parts.0) parts.1

file_loop-lacks_separator :
    (kept path : Bytes) → lacks b'/' kept ≡ true → lacks b'/' (file_loop kept path) ≡ true
unfolding file_loop
file_loop-lacks_separator kept [] h = h
file_loop-lacks_separator kept (c ∷ cs) h =
    file_loop-lacks_separator (keep_byte kept c) cs (step kept c h)
  where
    step : (kept : Bytes) (c : ℕ) → lacks b'/' kept ≡ true → lacks b'/' (keep_byte kept c) ≡ true
    step kept c h = unfold lacks in ground (arith, lacks-concat b'/' kept (c ∷ []))

-- The file part holds no separator.
pub file_of-lacks : (path : Bytes) → lacks b'/' (file_of path) ≡ true
unfolding file_of lacks
file_of-lacks path = file_loop-lacks_separator [] path refl

-- The file part holds no byte that the path lacks.
pub file_of-lacks_of : (b : ℕ) (path : Bytes) → lacks b path ≡ true → lacks b (file_of path) ≡ true
unfolding file_of lacks
file_of-lacks_of b path h = file_loop-lacks b [] path refl h

file_loop-eq : (kept path : Bytes) → lacks b'/' path ≡ true → file_loop kept path ≡ kept ++ path
unfolding file_loop lacks
file_loop-eq kept [] h = sym (append-nil kept)
file_loop-eq kept (c ∷ cs) h =
    ground (arith, file_loop-eq (kept ++ c ∷ []) cs, append_assoc kept (c ∷ []) cs)

-- A name with no separator is its own file part.
pub file_of-eq_self : (path : Bytes) → lacks b'/' path ≡ true → file_of path ≡ path
unfolding file_of
file_of-eq_self path h = file_loop-eq [] path h
