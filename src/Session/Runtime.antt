-- ===== src/Session/Runtime.antt =====
-- What session.go takes from other packages (crypto/hmac, crypto/aes, crypto/cipher,
-- encoding/base64, strconv, fxamacker/cbor), with the documented facts that it relies on.
use warnly.Base.{ℕ, ◌<◌, ◌^◌, ◌≡◌, ◌≢◌, Bool, true, false, Option, some, []}
use warnly.Base.{Bytes, contains_byte, length}
use warnly.Base.Int.{ℤ, pos}

-- A `cipher.Block` is named by the key that made it.
abbrev pub Block : Type 0
Block = Bytes

pub record Runtime (V : Type 0) : Type 0 where
  -- cbor: encode a value; decode into a destination, which a failure may leave changed.
  pub serialize : V → Option Bytes
  pub deserialize : Bytes → V → Bool × V
  -- hmac with sha256: a key and a message.
  pub hmac : Bytes → Bytes → Bytes
  -- base64.URLEncoding.
  pub base64 : Bytes → Bytes
  pub unbase64 : Bytes → Option Bytes
  -- `%d` of an int64, and strconv.ParseInt in base 10.
  pub format_int : ℤ → Bytes
  pub parse_int : Bytes → Option ℤ
  -- aes.NewCipher, and the CTR key stream on a text.
  pub new_cipher : Bytes → Option Block
  pub block_size : Block → ℕ
  pub ctr : Block → Bytes → Bytes → Bytes

abbrev pub pipe : ℕ
pipe = b'|'

pub record Laws {V : Type 0} (rt : Runtime V) : Type 0 where
  pub decodes : (v dst : V) (b : Bytes) → rt.serialize v ≡ some b → rt.deserialize b dst ≡ (true, v)
  pub nonempty : (v : V) (b : Bytes) → rt.serialize v ≡ some b → b ≢ []
  pub unbase64-base64 : (b : Bytes) → rt.unbase64 (rt.base64 b) ≡ some b
  pub base64_plain : (b : Bytes) → contains_byte pipe (rt.base64 b) ≡ false
  pub parse-format : (n : ℕ) → n < 2 ^ 63 → rt.parse_int (rt.format_int (pos n)) ≡ some (pos n)
  pub format_plain : (z : ℤ) → contains_byte pipe (rt.format_int z) ≡ false
  pub ctr-ctr : (k : Block) (iv b : Bytes) → rt.ctr k iv (rt.ctr k iv b) ≡ b
  pub length-ctr : (k : Block) (iv b : Bytes) → length (rt.ctr k iv b) ≡ length b
