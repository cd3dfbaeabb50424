-- ===== src/Query/RoundTrip.antt =====
-- Queries that are written with quotes are read back.
use warnly.Base.{
  ℕ, ◌≡◌, true, false, ◌&&◌, List, [], ◌∷◌, ◌++◌, ◌==◌, leb, Bytes, text, is_empty, contains_byte,
  length, All,
}
use warnly.Query.Parse.{QueryToken, is_quote, starts_with, ends_with, Scan}

-- What a user can ask for: a text, or that a field is or is not a value.
pub data Term : Type 0 where
  raw : Bytes → Term
  is : Bytes → Bytes → Term
  is_not : Bytes → Bytes → Term

abbrev pub token_of : Term → QueryToken
token_of (raw v) = record { key = []; operator = []; value = v; is_raw_text = true }
token_of (is k v) = record { key = k; operator = text "is"; value = v; is_raw_text = false }
token_of (is_not k v) = record { key = k; operator = text "is not"; value = v; is_raw_text = false }

-- What stands before the opening quote.
abbrev pub head_of : Term → Bytes
head_of (raw v) = []
head_of (is k v) = k ++ b':' ∷ []
head_of (is_not k v) = k ++ b':' ∷ b'!' ∷ []

abbrev pub content_of : Term → Bytes
content_of (raw v) = v
content_of (is k v) = v
content_of (is_not k v) = v

-- Each term with its value in double quotes and a blank behind it.
abbrev pub render : List Term → Bytes
render [] = []
render (t ∷ ts) = head_of t ++ (b'"' ∷ (content_of t ++ (b'"' ∷ b' ' ∷ render ts)))

-- A byte that may stand in a key outside quotes.
abbrev pub IsPlainByte : ℕ → Type 0
IsPlainByte c = (is_quote c ≡ false) × ((c == b' ') ≡ false) × ((c == b':') ≡ false)

-- A value in which no double quote stands, and that is not itself in single quotes.
abbrev pub IsQuotable : Bytes → Type 0
IsQuotable v =
    (contains_byte b'"' v ≡ false)
    × ((leb 2 (length v) && (starts_with b'\'' v && ends_with b'\'' v)) ≡ false)

-- A term that can be written down: a text is not empty and has no colon, and a value that a field
-- is to be does not begin with the sign for "is not".
abbrev pub IsWritable : Term → Type 0
IsWritable (raw v) = IsQuotable v × (is_empty v ≡ false) × (contains_byte b':' v ≡ false)
IsWritable (is k v) = IsQuotable v × All IsPlainByte k × (starts_with b'!' v ≡ false)
IsWritable (is_not k v) = IsQuotable v × All IsPlainByte k

-- The scan between two quotes, and outside of them.
abbrev outside : List QueryToken → Bytes → Scan QueryToken
outside parts current = record {
  parts = parts;
  current = current;
  in_quotes = false;
  quote_char = 0;
}

abbrev inside : List QueryToken → Bytes → Scan QueryToken
inside parts current = record {
  parts = parts;
  current = current;
  in_quotes = true;
  quote_char = b'"';
}
