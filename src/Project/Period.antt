-- ===== src/Project/Period.antt =====
-- How long `ParseDuration` takes a period to be.
use warnly.Base.{
  ℕ, ◌+◌, ◌-◌, ◌*◌, ◌^◌, ◌≤◌, ◌<◌, ◌≡◌, refl, ap, ◌∙◌, some, [], ◌∷◌, ◌++◌, Bytes, length,
  get_last?, take-append, length-append, lt→ltb, ok, arith,
}
use warnly.Base.Int.{ℤ, pos, negsuc, pos_part, neg_part}
use warnly.Project.Duration.{
  atoi, unit_map, word, int64_of, mul64, absolute, parse_count, parse_duration,
}
use warnly.Project.Pages.{mod_small, mul64-pos}

get_last?-append : (s : Bytes) (c : ℕ) → get_last? (s ++ c ∷ []) ≡ some c
get_last?-append [] c = refl
get_last?-append (x ∷ []) c = refl
get_last?-append (x ∷ y ∷ s) c = get_last?-append (y ∷ s) c

last_but_one : (s : Bytes) (c : ℕ) → length (s ++ c ∷ []) - 1 ≡ length s
last_but_one s c = omega (arith, length-append s (c ∷ []))

-- The amount, without its sign.
abbrev pub amount : ℤ → ℕ
amount z = pos_part z + neg_part z

absolute-amount : (z : ℤ) → amount z < 2 ^ 63 → absolute z ≡ pos (amount z)
unfolding absolute int64_of
absolute-amount (pos n) h = ap pos (omega arith)
absolute-amount (negsuc n) h =
    rw
      (
        absolute,
        int64_of,
        mod_small (n + 1) (omega (arith, h)),
        lt→ltb (n + 1) (2 ^ 63) (omega (arith, h)),
      )
      (ap pos (omega arith))

parse_duration-count :
    (count : Bytes) (unit : ℕ) (z : ℤ) (nanos : ℕ)
    → atoi count ≡ some z
    → unit_map unit ≡ some nanos
    → amount z < 2 ^ 63
    → parse_duration (count ++ unit ∷ []) ≡ ok (mul64 (pos (amount z)) nanos)
unfolding parse_duration parse_count
parse_duration-count count unit z nanos read known small =
    rw
      (
        parse_duration,
        get_last?-append count unit,
        last_but_one count unit,
        take-append count (unit ∷ []),
        parse_count,
        read,
        known,
        absolute-amount z small,
      )
      refl

-- A number and the letter of a unit are read as so many of the unit, without the number's sign,
-- where an int64 holds as many nanoseconds.
pub parse_duration_exact :
    (count : Bytes) (unit : ℕ) (z : ℤ) (nanos : ℕ)
    → atoi count ≡ some z
    → unit_map unit ≡ some nanos
    → amount z < 2 ^ 63
    → amount z * nanos < 2 ^ 63
    → parse_duration (count ++ unit ∷ []) ≡ ok (pos (amount z * nanos))
parse_duration_exact count unit z nanos read known small fits =
    parse_duration-count count unit z nanos read known small
    ∙ ap (λ d. ok d) (mul64-pos (amount z) nanos (omega (arith, small)) fits)

int64_of-large : (p : ℕ) → 2 ^ 63 ≤ p → p < 2 ^ 64 → int64_of p ≡ negsuc (2 ^ 64 - p - 1)
unfolding int64_of
int64_of-large p over below = ground (arith, over, below)

mul64-wrapped :
    (a b : ℕ)
    → a < 2 ^ 64
    → 2 ^ 63 ≤ a * b
    → a * b < 2 ^ 64
    → mul64 (pos a) b ≡ negsuc (2 ^ 64 - a * b - 1)
unfolding mul64 word
mul64-wrapped a b small over below =
    rw (mul64, word, mod_small a small, mod_small (a * b) below) (int64_of-large (a * b) over below)

-- Where the nanoseconds are more than an int64 holds, but less than twice as many, the duration
-- that is returned is negative: by as much as is missing to 2^64.
pub parse_duration_negative :
    (count : Bytes) (unit : ℕ) (z : ℤ) (nanos : ℕ)
    → atoi count ≡ some z
    → unit_map unit ≡ some nanos
    → amount z < 2 ^ 63
    → 2 ^ 63 ≤ amount z * nanos
    → amount z * nanos < 2 ^ 64
    → parse_duration (count ++ unit ∷ []) ≡ ok (negsuc (2 ^ 64 - amount z * nanos - 1))
parse_duration_negative count unit z nanos read known small over below =
    parse_duration-count count unit z nanos read known small
    ∙ ap (λ d. ok d) (mul64-wrapped (amount z) nanos (omega (arith, small)) over below)
