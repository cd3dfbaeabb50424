-- ===== src/Session/Cookie.antt =====
-- SecureCookie of internal/session/session.go: a value is serialised, encrypted if there is a
-- block cipher, and signed together with the cookie's name and the time.
use warnly.Base.{
  ℕ, ◌+◌, ◌-◌, Bool, false, not, ◌&&◌, Option, none, some, [], ◌∷◌, ◌++◌, if◌then◌else◌, ◌==◌, ltb,
  Bytes, length, take, drop, contains_byte, before_first, after_first, bytes_eq,
}
use warnly.Base.{Result, ok, err, or_err, Action, ◌>>?◌}
use warnly.Base.Int.{ℤ, pos, ltb_ℤ, sub64}
use warnly.Session.Runtime.{Runtime, Block, pipe}

pub data Error : Type 0 where
  hash_key_not_set serialization encryption encoded_too_long value_too_long : Error
  base64_decode invalid_hmac mac_invalid invalid_timestamp too_new too_old : Error
  invalid_length deserializing no_codecs invalid_name : Error

-- `max_length`, `max_age` and `min_age` are int and int64; the encoders, the hash and the clock
-- are fields of the source's struct that are parameters here.
pub record SecureCookie : Type 0 where
  pub err_field : Option Error
  pub block : Option Block
  pub hash_key : Option Bytes
  pub block_key : Option Bytes
  pub max_length : ℕ
  pub max_age : ℤ
  pub min_age : ℤ

abbrev is_zero : ℤ → Bool
is_zero (pos n) = n == 0
is_zero _ = false

-- `verifyTimestamp`: `t1` is the cookie's time, `t2` the present.
unfoldable pub verify_timestamp : ℤ → ℤ → ℤ → ℤ → Result Error (Unit {0})
verify_timestamp t1 t2 min_age max_age =
    if not (is_zero min_age) && ltb_ℤ (sub64 t2 min_age) t1
    then err too_new
    else if not (is_zero max_age) && ltb_ℤ t1 (sub64 t2 max_age)
    then err too_old
    else ok tt

-- `bytes.SplitN(b, "|", 3)` where it has three parts.
unfoldable pub split3 : Bytes → Option (Bytes × Bytes × Bytes)
split3 b =
    if contains_byte pipe b && contains_byte pipe (after_first pipe b)
    then some (
      before_first pipe b,
      before_first pipe (after_first pipe b),
      after_first pipe (after_first pipe b),
    )
    else none

-- `s.maxLength != 0 && len(b) > s.maxLength`.
unfoldable pub check_length : ℕ → Bytes → Error → Result Error Bytes
check_length most b e = if not (most == 0) && ltb most (length b) then err e else ok b

module _ {V : Type 0} (rt : Runtime V) where
  -- `BlockFunc(aes.NewCipher)`: a key that the cipher refuses leaves the block unset.
  unfoldable pub block_func : SecureCookie → Bytes → SecureCookie
  block_func s key = elim (rt.new_cipher key) [ some b ↦ record s { block = some b } | none ↦ s ]

  abbrev plain_cookie : Option Bytes → Option Bytes → SecureCookie
  plain_cookie hash_key block_key = record {
    err_field = none;
    block = none;
    hash_key = hash_key;
    block_key = block_key;
    max_length = 4096;
    max_age = pos 2592000;
    min_age = pos 0;
  }

  unfoldable pub new_secure_cookie : Option Bytes → Option Bytes → SecureCookie
  new_secure_cookie hash_key none = plain_cookie hash_key none
  new_secure_cookie hash_key (some key) = block_func (plain_cookie hash_key (some key)) key

  -- `iv` is what `GenerateRandomKey(block.BlockSize())` returned.
  unfoldable pub encrypt : Block → Option Bytes → Bytes → Result Error Bytes
  encrypt block none value = err encryption
  encrypt block (some iv) value = ok (iv ++ rt.ctr block iv value)

  unfoldable pub decrypt : Block → Bytes → Result Error Bytes
  decrypt block value =
      if ltb (rt.block_size block) (length value)
      then ok (rt.ctr block (take (rt.block_size block) value) (drop (rt.block_size block) value))
      else err invalid_length

  unfoldable pub encrypt_if : Option Block → Option Bytes → Bytes → Result Error Bytes
  encrypt_if none iv b = ok b
  encrypt_if (some block) iv b = encrypt block iv b

  unfoldable pub decrypt_if : Option Block → Bytes → Result Error Bytes
  decrypt_if none b = ok b
  decrypt_if (some block) b = decrypt block b

  -- The text "name|date|value|".
  unfoldable pub dated : Bytes → ℤ → Bytes → Bytes
  dated name time value = name ++ (pipe ∷ (rt.format_int time ++ (pipe ∷ (value ++ (pipe ∷ [])))))

  -- The cookie's text before the last encoding: the MAC is added, the name is taken off.
  unfoldable pub seal : Bytes → Bytes → ℤ → Bytes → Bytes
  seal key name time value =
      let b = dated name time value in
      drop (length name + 1) (b ++ rt.hmac key (take (length b - 1) b))

  unfoldable pub encode_with :
      SecureCookie → Bytes → V → ℤ → Option Bytes → Bytes → Result Error Bytes
  encode_with s name value time iv key = or_err (rt.serialize value) serialization >>? λ b.
      encrypt_if s.block iv b >>? λ c.
      check_length s.max_length (rt.base64 (seal key name time (rt.base64 c))) encoded_too_long

  unfoldable pub encode : SecureCookie → Bytes → V → ℤ → Option Bytes → Result Error Bytes
  unfolding encode_with
  encode s name value time iv = elim s.err_field [
    | some e ↦ err e
    | none ↦ elim s.hash_key [
      | none ↦ err hash_key_not_set
      | some key ↦ encode_with s name value time iv key
    ]
  ]

  unfoldable pub verify_mac : Bytes → Bytes → Bytes → Result Error (Unit {0})
  verify_mac key value mac =
      let mac2 = rt.hmac key value in
      if length mac == length mac2 && bytes_eq mac mac2 then ok tt else err mac_invalid

  unfoldable pub split_and_verify : Bytes → Bytes → Bytes → Result Error (Bytes × Bytes)
  split_and_verify b name key = or_err (split3 b) invalid_hmac >>? λ parts.
      verify_mac key (name ++ (pipe ∷ take (length b - length parts.2 - 1) b)) parts.2 >>? λ _.
      ok (parts.0, parts.1)

  -- The checks of `Decode` up to the serialised value.
  unfoldable pub opened : SecureCookie → Bytes → Bytes → ℤ → Bytes → Result Error Bytes
  opened s name value now key = check_length s.max_length value value_too_long >>? λ _.
      or_err (rt.unbase64 value) base64_decode >>? λ b. split_and_verify b name key >>? λ parts.
      or_err (rt.parse_int parts.0) invalid_timestamp >>? λ t1.
      verify_timestamp t1 now s.min_age s.max_age >>? λ _.
      or_err (rt.unbase64 parts.1) base64_decode >>? λ c. decrypt_if s.block c

  unfoldable pub deserialize : Bytes → Action V Error (Unit {0})
  deserialize b dst =
      let (done, dst') = rt.deserialize b dst in (if done then ok tt else err deserializing, dst')

  -- `Decode` writes its destination only in the last step.
  unfoldable pub decode : SecureCookie → Bytes → Bytes → ℤ → Action V Error (Unit {0})
  unfolding deserialize
  decode s name value now dst = elim s.err_field [
    | some e ↦ (err e, dst)
    | none ↦ elim s.hash_key [
      | none ↦ (err hash_key_not_set, dst)
      | some key ↦ elim (opened s name value now key) [
        | err e ↦ (err e, dst)
        | ok b ↦ deserialize b dst
      ]
    ]
  ]
