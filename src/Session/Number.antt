-- ===== src/Session/Number.antt =====
-- `strconv.ParseInt(s, 10, 64)` and `strconv.FormatInt(n, 10)`, as internal/session.go uses them.
pub mod Dotted
use tftpcpd.Base.{
  ℕ, zero, suc, ◌+◌, ◌-◌, ◌*◌, ◌/◌, ◌%◌, ◌^◌, Bytes, Bool, ◌&&◌, [], ◌∷◌, Option, none, some, ltb,
  leb, ◌==◌, if◌then◌else◌,
}

-- `negsuc n` is -(n + 1).
pub data ℤ : Type 0 where
  pos : ℕ → ℤ
  negsuc : ℕ → ℤ

is_digit : ℕ → Bool
is_digit c = leb b'0' c && leb c b'9'

digits_value : ℕ → Bytes → Option ℕ
unfolding is_digit
digits_value acc [] = some acc
digits_value acc (c ∷ cs) =
    let rest = digits_value (acc * 10 + (c - b'0')) cs in if is_digit c then rest else none

-- The digits after the sign; there is at least one.
magnitude_of : Bytes → Option ℕ
unfolding digits_value
magnitude_of [] = none
magnitude_of (c ∷ cs) = digits_value 0 (c ∷ cs)

positive : Option ℕ → Option ℤ
positive none = none
positive (some n) = if ltb n (2 ^ 63) then some (pos n) else none

negative : Option ℕ → Option ℤ
negative none = none
negative (some zero) = some (pos zero)
negative (some (suc n)) = if ltb n (2 ^ 63) then some (negsuc n) else none

-- The two errors, for syntax and for range, are both `none`.
unfoldable pub parse_int : Bytes → Option ℤ
unfolding magnitude_of positive negative
parse_int [] = none
parse_int (c ∷ cs) =
    if c == b'+'
    then positive (magnitude_of cs)
    else if c == b'-'
    then negative (magnitude_of cs)
    else positive (magnitude_of (c ∷ cs))

-- The decimal digits in front of `acc`; the fuel is more than the number, so than its digits.
decimal : ℕ → ℕ → Bytes → Bytes
decimal zero n acc = acc
decimal (suc fuel) n acc =
    let digit = b'0' + n % 10 in
    let rest = decimal fuel (n / 10) (digit ∷ acc) in if ltb n 10 then digit ∷ acc else rest

unfoldable pub format_int : ℤ → Bytes
unfolding decimal
format_int (pos n) = decimal (suc n) n []
format_int (negsuc n) = b'-' ∷ decimal (suc (suc n)) (suc n) []
