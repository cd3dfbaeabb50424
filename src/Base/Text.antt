-- ===== src/Base/Text.antt =====
-- Go strings are sequences of bytes: a list of numbers, with its comparisons and cuts.
use Prim.Native.Nat.{ℕ}
use Prim.Native.Char.{code}
use Prim.Native.String.{String}
use mathlib.Core.Path.{◌≡◌, refl}
use mathlib.Core.Logic.{◌↔◌}
use mathlib.Core.Bool.{Bool, true, false, ◌&&◌}
use mathlib.Core.List.{List, [], ◌∷◌, ◌++◌}
use native.Mathlib.Omega.{arith}
use warnly.Base.Tests.{◌==◌, if◌then◌else◌}

abbrev pub Bytes : Type 0
Bytes = List ℕ

-- The bytes of an ASCII text of the source.
abbrev pub text : String → Bytes
text String.[] = []
text (String.◌∷◌ c s) = code c ∷ text s

-- `a == b` on strings.
abbrev pub bytes_eq : Bytes → Bytes → Bool
bytes_eq [] [] = true
bytes_eq [] (y ∷ ys) = false
bytes_eq (x ∷ xs) [] = false
bytes_eq (x ∷ xs) (y ∷ ys) = x == y && bytes_eq xs ys

pub bytes_eq_refl : (s : Bytes) → bytes_eq s s ≡ true
bytes_eq_refl [] = refl
bytes_eq_refl (x ∷ xs) = ground (arith, bytes_eq_refl xs)

pub bytes_eq_sound : (s t : Bytes) → bytes_eq s t ≡ true → s ≡ t
bytes_eq_sound [] [] h = refl
bytes_eq_sound [] (y ∷ ys) h = cc
bytes_eq_sound (x ∷ xs) [] h = cc
bytes_eq_sound (x ∷ xs) (y ∷ ys) h = ground (arith, bytes_eq_sound xs ys)

pub bytes_eq_iff : (s t : Bytes) → (bytes_eq s t ≡ true) ↔ (s ≡ t)
bytes_eq_iff s t = (bytes_eq_sound s t, λ e. rw e (bytes_eq_refl t))

-- `s == ""`.
abbrev pub is_empty : Bytes → Bool
is_empty [] = true
is_empty (x ∷ xs) = false

-- `strings.Contains(s, c)` for a text of one byte.
abbrev pub contains_byte : ℕ → Bytes → Bool
contains_byte c [] = false
contains_byte c (x ∷ xs) = let rest = contains_byte c xs in if x == c then true else rest

-- What follows the last `c`, or the whole text: `s[strings.LastIndex(s, c)+1:]`.
abbrev pub after_last : ℕ → Bytes → Bytes
after_last c [] = []
after_last c (x ∷ xs) =
    let rest = after_last c xs in
    if contains_byte c xs then rest else (if x == c then xs else x ∷ xs)

-- What precedes the first `c`, and what follows it: `strings.Cut(s, c)` where `c` occurs.
abbrev pub before_first : ℕ → Bytes → Bytes
before_first c [] = []
before_first c (x ∷ xs) = let rest = before_first c xs in if x == c then [] else x ∷ rest

abbrev pub after_first : ℕ → Bytes → Bytes
after_first c [] = []
after_first c (x ∷ xs) = let rest = after_first c xs in if x == c then xs else rest

pub before_first-append :
    (c : ℕ) (s t : Bytes) → contains_byte c s ≡ false → before_first c (s ++ c ∷ t) ≡ s
before_first-append c [] t h = ground arith
before_first-append c (x ∷ s) t h = ground (arith, before_first-append c s t)

pub after_first-append :
    (c : ℕ) (s t : Bytes) → contains_byte c s ≡ false → after_first c (s ++ c ∷ t) ≡ t
after_first-append c [] t h = ground arith
after_first-append c (x ∷ s) t h = ground (arith, after_first-append c s t)

pub contains_byte-append : (c : ℕ) (s t : Bytes) → contains_byte c (s ++ c ∷ t) ≡ true
contains_byte-append c [] t = ground arith
contains_byte-append c (x ∷ s) t = ground (arith, contains_byte-append c s t)

-- `strings.Join`.
abbrev pub join : Bytes → List Bytes → Bytes
join sep [] = []
join sep (x ∷ []) = x
join sep (x ∷ y ∷ ys) = x ++ (sep ++ join sep (y ∷ ys))
