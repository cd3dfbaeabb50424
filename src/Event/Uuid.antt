-- ===== src/Event/Uuid.antt =====
-- The text of a UUID, of internal/warnly/binary_uuid.go.
use warnly.Base.{
  ℕ, ◌+◌, ◌-◌, ◌/◌, ◌%◌, [], ◌∷◌, ◌++◌, if◌then◌else◌, ◌==◌, ltb, Bytes, length, take, drop,
}

abbrev pub hex_digit : ℕ → ℕ
hex_digit n = if ltb n 10 then b'0' + n else b'a' + (n - 10)

-- `hex.Encode`.
unfoldable pub hex : Bytes → Bytes
hex [] = []
hex (b ∷ bs) = hex_digit (b / 16) ∷ hex_digit (b % 16) ∷ hex bs

-- `encodeHex`: five groups.
unfoldable pub encode_hex : Bytes → Bytes
unfolding hex
encode_hex u =
    hex (take 4 u)
    ++ b'-' ∷ []
    ++ hex (take 2 (drop 4 u))
    ++ b'-' ∷ []
    ++ hex (take 2 (drop 6 u))
    ++ b'-' ∷ []
    ++ hex (take 2 (drop 8 u))
    ++ b'-' ∷ []
    ++ hex (drop 10 u)

-- `String`.
unfoldable pub uuid_string : Bytes → Bytes
unfolding encode_hex
uuid_string u = if length u == 16 then encode_hex u else []
