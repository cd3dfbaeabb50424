-- ===== src/Query/Parse.antt =====
-- `ParseQuery` and `parseToken` of internal/warnly/project.go, and the parser of filters with
-- `convertTokensToCriteria` of internal/svc/project/project.go.
use warnly.Base.{
  ℕ, ◌-◌, Bool, true, false, not, ◌&&◌, ◌||◌, Option, none, some, List, [], ◌∷◌, ◌++◌, map,
  if◌then◌else◌, ◌==◌, leb, Bytes, text, bytes_eq, is_empty, contains_byte, before_first,
  after_first, length, take, drop, get_last?,
}

pub record QueryToken : Type 0 where
  pub key : Bytes
  pub operator : Bytes
  pub value : Bytes
  pub is_raw_text : Bool

-- A quote of either kind.
abbrev pub is_quote : ℕ → Bool
is_quote c = c == b'"' || c == b'\''

abbrev pub starts_with : ℕ → Bytes → Bool
starts_with c [] = false
starts_with c (x ∷ xs) = x == c

abbrev pub ends_with : ℕ → Bytes → Bool
ends_with c s = elim (get_last? s) [ none ↦ false | some x ↦ x == c ]

-- A pair of quotes of one kind around a text of at least two bytes is taken off: `unquote`, which
-- `parseToken` spells out.
unfoldable pub unquote : Bytes → Bytes
unquote s =
    if leb 2 (length s)
      && (starts_with b'"' s && ends_with b'"' s || starts_with b'\'' s && ends_with b'\'' s)
    then take (length s - 2) (drop 1 s)
    else s

-- The operator and the value of what follows the colon.
unfoldable pub operator_of : Bytes → Bytes
operator_of rest = if starts_with b'!' rest then text "is not" else text "is"

unfoldable pub value_of : Bytes → Bytes
unfolding unquote
value_of rest = unquote (if starts_with b'!' rest then drop 1 rest else rest)

unfoldable pub parse_token : Bytes → QueryToken
unfolding operator_of value_of unquote
parse_token token =
    if contains_byte b':' token
    then record {
      key = before_first b':' token;
      operator = operator_of (after_first b':' token);
      value = value_of (after_first b':' token);
      is_raw_text = false;
    }
    else record { key = []; operator = []; value = unquote token; is_raw_text = true }

-- The variables of the loop of `ParseQuery`, which has what a part becomes as an argument here.
pub record Scan (T : Type 0) : Type 0 where
  pub parts : List T
  pub current : Bytes
  pub in_quotes : Bool
  pub quote_char : ℕ

abbrev pub start_scan : {T : Type 0} → Scan T
start_scan = record { parts = []; current = []; in_quotes = false; quote_char = 0 }

module _ {T : Type 0} (finish : Bytes → T) where
  unfoldable pub flush : Scan T → Scan T
  flush s =
      if is_empty s.current
      then s
      else record s { parts = s.parts ++ finish s.current ∷ []; current = [] }

  -- One round of the loop.
  unfoldable pub scan_byte : ℕ → Scan T → Scan T
  scan_byte c s =
      if not s.in_quotes && is_quote c
      then record s { in_quotes = true; quote_char = c }
      else if s.in_quotes && c == s.quote_char
      then record s { in_quotes = false; quote_char = 0 }
      else if not s.in_quotes && c == b' '
      then flush s
      else record s { current = s.current ++ c ∷ [] }

  unfoldable pub scan_bytes : Bytes → Scan T → Scan T
  scan_bytes [] s = s
  scan_bytes (c ∷ query) s = scan_bytes query (scan_byte c s)

unfoldable pub parse_query : Bytes → List QueryToken
unfolding flush scan_bytes
parse_query query = (flush parse_token (scan_bytes parse_token query start_scan)).parts

-- `parseQuotedFields`.
unfoldable pub parse_quoted_fields : Bytes → List Bytes
unfolding flush scan_bytes
parse_quoted_fields s = (flush (λ part. part) (scan_bytes (λ part. part) s start_scan)).parts

-- `parseQueryTokens`: at most three parts.
unfoldable pub field_token : Bytes → QueryToken
unfolding unquote
field_token part =
    if contains_byte b':' part
    then (if contains_byte b':' (after_first b':' part)
        then record {
          key = before_first b':' part;
          operator = before_first b':' (after_first b':' part);
          value = unquote (after_first b':' (after_first b':' part));
          is_raw_text = false;
        }
        else record {
          key = before_first b':' part;
          operator = [];
          value = unquote (after_first b':' part);
          is_raw_text = false;
        })
    else record { key = []; operator = []; value = unquote part; is_raw_text = true }

unfoldable pub parse_query_tokens : Bytes → List QueryToken
unfolding field_token parse_quoted_fields
parse_query_tokens query = map field_token (parse_quoted_fields query)

pub record Filter : Type 0 where
  pub key : Bytes
  pub operator : Bytes
  pub value : Bytes

unfoldable pub filter_operator : Bytes → Bytes
filter_operator op =
    if is_empty op then text "is" else if bytes_eq op (text "!") then text "is not" else op

-- `ParseQuery` of the service: raw text is skipped.
unfoldable pub filters_of : List QueryToken → List Filter
unfolding filter_operator
filters_of [] = []
filters_of (t ∷ tokens) =
    let rest = filters_of tokens in
    if t.is_raw_text
    then rest
    else record { key = t.key; operator = filter_operator t.operator; value = t.value } ∷ rest

unfoldable pub parse_filters : Bytes → List Filter
unfolding filters_of parse_query_tokens
parse_filters query = filters_of (parse_query_tokens query)

pub record QueryValue : Type 0 where
  pub value : Bytes
  pub is_not : Bool

-- A map from keys: a later entry of a key takes the place of an earlier one.
unfoldable pub set_key : {V : Type 0} → Bytes → V → List (Bytes × V) → List (Bytes × V)
set_key k v [] = (k, v) ∷ []
set_key k v ((j, w) ∷ m) =
    let rest = set_key k v m in if bytes_eq j k then (k, v) ∷ m else (j, w) ∷ rest

unfoldable pub get_key : {V : Type 0} → Bytes → List (Bytes × V) → Option V
get_key k [] = none
get_key k ((j, v) ∷ m) = let rest = get_key k m in if bytes_eq j k then some v else rest

-- The loop of `convertTokensToCriteria`: the raw texts joined by blanks, and the map of values.
unfoldable pub convert :
    List QueryToken → Bytes → List (Bytes × QueryValue) → Bytes × List (Bytes × QueryValue)
unfolding set_key
convert [] raw structured = (raw, structured)
convert (t ∷ tokens) raw structured =
    convert tokens
      (if t.is_raw_text then (if is_empty raw then t.value else raw ++ b' ' ∷ t.value) else raw)
      (if t.is_raw_text
        then structured
        else set_key t.key
            (record { value = t.value; is_not = bytes_eq t.operator (text "is not") }) structured)

unfoldable pub convert_tokens_to_criteria : List QueryToken → Bytes × List (Bytes × QueryValue)
unfolding convert
convert_tokens_to_criteria tokens = convert tokens [] []
