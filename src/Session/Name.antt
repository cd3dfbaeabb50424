-- ===== src/Session/Name.antt =====
-- `isCookieNameValid` of internal/session/session.go. The names are read byte by byte: a rune
-- above 0x7e, or a byte that is no rune, is outside the table either way.
use warnly.Base.{ℕ, Bool, not, ◌&&◌, ltb, Bytes, text, contains_byte, any, is_empty}

-- The bytes that `isTokenTable` maps to true.
abbrev pub token_table : Bytes
token_table = text "!#$%&'*+-.0123456789ABCDEFGHIJKLMNOPQRSTUWVXYZ^_`abcdefghijklmnopqrstuvwxyz|~"

-- The table has 127 entries.
unfoldable pub is_token : ℕ → Bool
is_token i = ltb i 127 && contains_byte i token_table

unfoldable pub is_not_token : ℕ → Bool
unfolding is_token
is_not_token i = not (is_token i)

unfoldable pub is_cookie_name_valid : Bytes → Bool
unfolding is_not_token
is_cookie_name_valid raw = not (is_empty raw) && not (any is_not_token raw)
