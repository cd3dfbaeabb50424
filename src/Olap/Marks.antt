-- ===== src/Olap/Marks.antt =====
-- Counting the placeholders of a statement of internal/ch/ch.go.
use warnly.Base.{
  ℕ, ◌+◌, suc, ◌==◌, ◌≡◌, refl, ap, List, [], ◌∷◌, ◌++◌, if◌then◌else◌, Bytes, length, arith,
}
use warnly.Olap.Statement.{Statement, placeholders}

-- How often '?' stands in a text.
abbrev pub marks : Bytes → ℕ
marks [] = 0
marks (c ∷ cs) = let rest = marks cs in if c == b'?' then suc rest else rest

pub marks-append : (a b : Bytes) → marks (a ++ b) ≡ marks a + marks b
marks-append [] b = omega arith
marks-append (c ∷ cs) b = ground (arith, marks-append cs b)

pub marks-placeholders : (items : List ℕ) → marks (placeholders items) ≡ length items
unfolding placeholders
marks-placeholders [] = refl
marks-placeholders (i ∷ []) = refl
marks-placeholders (i ∷ j ∷ js) = ap suc (marks-placeholders (j ∷ js))

-- As many arguments as placeholders.
abbrev pub IsBound : Statement → Type 0
IsBound s = marks s.sql ≡ length s.args
