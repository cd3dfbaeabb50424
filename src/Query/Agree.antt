-- ===== src/Query/Agree.antt =====
-- The two loops of internal/warnly/project.go and internal/svc/project/project.go cut a query alike.
use warnly.Base.{
  ℕ, ◌≡◌, refl, ap, ◌∙◌, not, ◌&&◌, [], ◌∷◌, map, ◌==◌, Bytes, is_empty, Bool-cases, inl, inr,
}
use mathlib.Core.List.{map-append}
use warnly.Query.Parse.{
  QueryToken, is_quote, Scan, start_scan, flush, scan_byte, scan_bytes, parse_token, parse_query,
  parse_quoted_fields,
}

module _ {T : Type 0} (f : Bytes → T) where
  -- The same scan with its parts turned into tokens.
  finished : Scan Bytes → Scan T
  finished s = record {
    parts = map f s.parts;
    current = s.current;
    in_quotes = s.in_quotes;
    quote_char = s.quote_char;
  }

  flush-finished : (s : Scan Bytes) → flush f (finished s) ≡ finished (flush (λ part. part) s)
  unfolding flush finished
  flush-finished s = elim (Bool-cases (is_empty s.current)) [
    | inl e ↦ rw e refl
    | inr e ↦ rw e (rw (map-append f s.parts (s.current ∷ [])) refl)
  ]

  scan_byte-finished :
      (c : ℕ) (s : Scan Bytes)
      → scan_byte f c (finished s) ≡ finished (scan_byte (λ part. part) c s)
  unfolding scan_byte finished
  scan_byte-finished c s = elim (Bool-cases (not s.in_quotes && is_quote c)) [
    | inl opens ↦ rw (opens, scan_byte, finished) refl
    | inr same ↦ elim (Bool-cases (s.in_quotes && c == s.quote_char)) [
      | inl closes ↦ rw (same, closes, scan_byte, finished) refl
      | inr inside ↦ elim (Bool-cases (not s.in_quotes && c == b' ')) [
        | inl blank ↦ rw (same, inside, blank, scan_byte, finished) (flush-finished s)
        | inr taken ↦ rw (same, inside, taken, scan_byte, finished) refl
      ]
    ]
  ]

  scan_bytes-finished :
      (query : Bytes) (s : Scan Bytes)
      → scan_bytes f query (finished s) ≡ finished (scan_bytes (λ part. part) query s)
  unfolding scan_bytes
  scan_bytes-finished [] s = refl
  scan_bytes-finished (c ∷ query) s =
      ap (scan_bytes f query) (scan_byte-finished c s)
      ∙ scan_bytes-finished query (scan_byte (λ part. part) c s)

-- `ParseQuery` parses the very parts into which `parseQuotedFields` cuts the query.
pub parse_query-parse_quoted_fields :
    (query : Bytes) → parse_query query ≡ map parse_token (parse_quoted_fields query)
unfolding parse_query parse_quoted_fields finished
parse_query-parse_quoted_fields query =
    ap (λ (s : Scan QueryToken). (flush parse_token s).parts)
      (scan_bytes-finished parse_token query start_scan)
    ∙ ap (λ (s : Scan QueryToken). s.parts)
        (flush-finished parse_token (scan_bytes (λ part. part) query start_scan))
