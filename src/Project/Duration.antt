-- ===== src/Project/Duration.antt =====
-- `ParseDuration` of internal/warnly/project.go, with `strconv.Atoi` and the product of two int64.
use warnly.Base.{
  ℕ, ◌+◌, ◌-◌, ◌*◌, ◌%◌, ◌^◌, Bool, ◌&&◌, Option, none, some, [], ◌∷◌, if◌then◌else◌, ◌==◌, leb,
  ltb, Bytes, length, take, get_last?, Result, ok, or_err, ◌>>?◌,
}
use warnly.Base.Int.{ℤ, pos, negsuc, sub_ℕ}

abbrev pub is_digit : ℕ → Bool
is_digit c = leb b'0' c && leb c b'9'

-- The decimal digits read so far are worth `n`.
unfoldable pub digits : Bytes → ℕ → Option ℕ
digits [] n = some n
digits (c ∷ s) n = let rest = digits s (n * 10 + (c - b'0')) in if is_digit c then rest else none

unfoldable pub some_digits : Bytes → Option ℕ
unfolding digits
some_digits [] = none
some_digits (c ∷ s) = digits (c ∷ s) 0

abbrev pub positive : Option ℕ → Option ℤ
positive none = none
positive (some n) = if ltb n (2 ^ 63) then some (pos n) else none

abbrev pub negative : Option ℕ → Option ℤ
negative none = none
negative (some n) = if leb n (2 ^ 63) then some (sub_ℕ 0 n) else none

-- A sign or none, at least one digit, and a value that an int64 holds.
unfoldable pub atoi : Bytes → Option ℤ
unfolding some_digits
atoi [] = none
atoi (c ∷ s) =
    if c == b'-'
    then negative (some_digits s)
    else if c == b'+'
    then positive (some_digits s)
    else positive (some_digits (c ∷ s))

-- `unitMap`, in nanoseconds.
unfoldable pub unit_map : ℕ → Option ℕ
unit_map c =
    if c == b'h'
    then some (3600 * 10 ^ 9)
    else if c == b'm'
    then some (60 * 10 ^ 9)
    else if c == b's'
    then some (10 ^ 9)
    else if c == b'd'
    then some (24 * 3600 * 10 ^ 9)
    else if c == b'w'
    then some (7 * 24 * 3600 * 10 ^ 9)
    else none

-- An int64 as its bits, and back.
unfoldable pub word : ℤ → ℕ
word (pos n) = n % 2 ^ 64
word (negsuc n) = (2 ^ 64 - (n + 1) % 2 ^ 64) % 2 ^ 64

unfoldable pub int64_of : ℕ → ℤ
int64_of n = if ltb n (2 ^ 63) then pos n else sub_ℕ n (2 ^ 64)

unfoldable pub mul64 : ℤ → ℕ → ℤ
unfolding word int64_of
mul64 a n = int64_of (word a * n % 2 ^ 64)

-- `if duration < 0 { duration = -duration }`: the smallest int64 stays.
unfoldable pub absolute : ℤ → ℤ
unfolding word int64_of
absolute (pos n) = pos n
absolute (negsuc n) = int64_of ((n + 1) % 2 ^ 64)

pub data DurationError : Type 0 where
  bad_number unknown_unit : DurationError

unfoldable pub parse_count : Bytes → ℕ → Result DurationError ℤ
unfolding atoi unit_map mul64 absolute
parse_count count unit = or_err (atoi count) bad_number >>? λ n.
    or_err (unit_map unit) unknown_unit >>? λ nanos. ok (mul64 (absolute n) nanos)

unfoldable pub parse_duration : Bytes → Result DurationError ℤ
unfolding parse_count
parse_duration input = elim (get_last? input) [
  | none ↦ ok (pos 0)
  | some unit ↦ parse_count (take (length input - 1) input) unit
]
