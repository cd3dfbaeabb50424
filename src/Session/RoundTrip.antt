-- ===== src/Session/RoundTrip.antt =====
-- What `Encode` writes, `Decode` reads back.
use warnly.Base.{
  ℕ, suc, ◌+◌, ◌-◌, ◌≤◌, ◌<◌, ◌^◌, ◌≡◌, ◌≢◌, refl, true, false, Option, none, some, [], ◌∷◌, ◌++◌,
  append_assoc, ltb, lt→ltb, Bytes, length, take, drop, contains_byte, bytes_eq_refl, ==_refl,
  length-append, take-append, drop-append, before_first-append, after_first-append,
  contains_byte-append, arith, inl, inr, Result, ok, err, or_err, >>?-eq-ok, or_err-eq-ok,
  Option-cases,
}
use warnly.Base.Int.{ℤ, pos, sub64}
use warnly.Session.Runtime.{Runtime, Laws, Block, pipe}
use warnly.Session.Cookie.{
  Error, too_old, hash_key_not_set, serialization, encoded_too_long, value_too_long, SecureCookie,
  verify_timestamp, split3, encrypt_if, decrypt_if, decrypt, encrypt, encode, encode_with, decode,
  dated, seal, verify_mac, check_length, split_and_verify, opened,
}

take-init : (xs : Bytes) (c : ℕ) → take (length (xs ++ c ∷ []) - 1) (xs ++ c ∷ []) ≡ xs
take-init xs c =
    let e : length (xs ++ c ∷ []) - 1 ≡ length xs = omega (arith, length-append xs (c ∷ [])) in
    rw e (take-append xs (c ∷ []))

take-head :
    (xs : Bytes) (c : ℕ) (m : Bytes) → take (length (xs ++ c ∷ m) - length m - 1) (xs ++ c ∷ m) ≡ xs
take-head xs c m =
    let e : length (xs ++ c ∷ m) - length m - 1 ≡ length xs =
      omega (arith, length-append xs (c ∷ m)) in
    rw e (take-append xs (c ∷ m))

drop-past : (xs : Bytes) (c : ℕ) (ys : Bytes) → drop (length xs + 1) (xs ++ c ∷ ys) ≡ ys
drop-past [] c ys = refl
drop-past (x ∷ xs) c ys =
    let e : suc (length xs) + 1 ≡ suc (length xs + 1) = omega arith in rw e (drop-past xs c ys)

split3-join :
    (a b m : Bytes)
    → contains_byte pipe a ≡ false
    → contains_byte pipe b ≡ false
    → split3 (a ++ pipe ∷ (b ++ pipe ∷ m)) ≡ some (a, b, m)
unfolding split3
split3-join a b m ha hb = rw (
  contains_byte-append pipe a (b ++ pipe ∷ m),
  after_first-append pipe a (b ++ pipe ∷ m) ha,
  before_first-append pipe a (b ++ pipe ∷ m) ha,
  contains_byte-append pipe b m,
  after_first-append pipe b m hb,
  before_first-append pipe b m hb,
)

module _ {V : Type 0} (rt : Runtime V) where
  -- The text under the MAC.
  abbrev signed : Bytes → ℤ → Bytes → Bytes
  signed name time value = name ++ (pipe ∷ (rt.format_int time ++ (pipe ∷ value)))

  dated_lem :
      (name : Bytes) (time : ℤ) (value : Bytes)
      → dated rt name time value ≡ signed name time value ++ (pipe ∷ [])
  unfolding dated
  dated_lem name time value = simp append_assoc

  seal_lem :
      (key name : Bytes) (time : ℤ) (value : Bytes)
      → seal rt key name time value
        ≡ rt.format_int time ++ (pipe ∷ (value ++ (pipe ∷ rt.hmac key (signed name time value))))
  unfolding seal
  seal_lem key name time value =
      rw (dated_lem name time value, take-init (signed name time value) pipe)
        (simp append_assoc (drop-past name pipe _))

-- The window of `verifyTimestamp`, for a cookie written at `m` and read at `n`.
verify_timestamp_fresh :
    (m n a : ℕ)
    → m ≤ n
    → n < 2 ^ 63
    → a < 2 ^ 63
    → n ≤ m + a
    → verify_timestamp (pos m) (pos n) (pos 0) (pos a) ≡ ok tt
unfolding verify_timestamp sub64
verify_timestamp_fresh m n a h hn ha w = ground arith

verify_timestamp_late :
    (m n a : ℕ)
    → 0 < a
    → n < 2 ^ 63
    → m + a < n
    → verify_timestamp (pos m) (pos n) (pos 0) (pos a) ≡ err too_old
unfolding verify_timestamp sub64
verify_timestamp_late m n a h hn late = ground arith

ne_ok : {A : Type 0} {b : A} (e : Error) → ◌≡◌ {A = Result Error A} (err e) (ok b) → ⊥
ne_ok e h = cc

check_length-base :
    (most : ℕ) (b c : Bytes) (e f : Error)
    → check_length most b e ≡ ok c
    → (b ≡ c) × (check_length most b f ≡ ok b)
unfolding check_length
check_length-base most b c e f h = ground arith

length_pos : (b : Bytes) → b ≢ [] → 0 < length b
length_pos [] h = absurd (h refl)
length_pos (x ∷ b) h = omega arith

decrypt-encrypt :
    {V : Type 0} (rt : Runtime V) (laws : Laws rt) (block : Block) (iv b : Bytes)
    → length iv ≡ rt.block_size block
    → b ≢ []
    → decrypt rt block (iv ++ rt.ctr block iv b) ≡ ok b
unfolding decrypt
decrypt-encrypt rt laws block iv b size full =
    let long : ltb (rt.block_size block) (length (iv ++ rt.ctr block iv b)) ≡ true = lt→ltb _ _ (
      omega (
        arith,
        length-append iv (rt.ctr block iv b),
        laws.length-ctr block iv b,
        length_pos b full,
      )) in
    let head : take (rt.block_size block) (iv ++ rt.ctr block iv b) ≡ iv =
      rw (← size) (take-append iv (rt.ctr block iv b)) in
    let tail : drop (rt.block_size block) (iv ++ rt.ctr block iv b) ≡ rt.ctr block iv b =
      rw (← size) (drop-append iv (rt.ctr block iv b)) in
    rw (long, head, tail, laws.ctr-ctr block iv b)

pub verify_mac_self :
    {V : Type 0} (rt : Runtime V) (key value : Bytes)
    → verify_mac rt key value (rt.hmac key value) ≡ ok tt
unfolding verify_mac
verify_mac_self rt key value =
    rw (==_refl (length (rt.hmac key value)), bytes_eq_refl (rt.hmac key value))

pub take-signed :
    (a v m : Bytes)
    → take (length (a ++ pipe ∷ (v ++ pipe ∷ m)) - length m - 1) (a ++ pipe ∷ (v ++ pipe ∷ m))
      ≡ a ++ pipe ∷ v
take-signed a v m = rw (append_assoc a (pipe ∷ v) (pipe ∷ m)) at (take-head (a ++ pipe ∷ v) pipe m)

split_and_verify-sealed :
    {V : Type 0} (rt : Runtime V) (laws : Laws rt) (key name value : Bytes) (time : ℤ)
    → contains_byte pipe value ≡ false
    → split_and_verify rt
        (rt.format_int time ++ (pipe ∷ (value ++ (pipe ∷ rt.hmac key (signed rt name time value)))))
        name
        key
      ≡ ok (rt.format_int time, value)
unfolding split_and_verify
split_and_verify-sealed rt laws key name value time plain =
    rw
      (split3-join (rt.format_int time) value (rt.hmac key (signed rt name time value))
        (laws.format_plain time) plain)
      (rw (
        take-signed (rt.format_int time) value (rt.hmac key (signed rt name time value)),
        verify_mac_self rt key (signed rt name time value),
      ))

module _ {V : Type 0} (rt : Runtime V) (laws : Laws rt) where
  -- What `Encode` produced on its successful path.
  record Written (s : SecureCookie) (name : Bytes) (value : V) (time : ℤ) (iv : Option Bytes)
      (cookie key : Bytes) : Type 0 where
    plain : Bytes
    payload : Bytes
    serialized : rt.serialize value ≡ some plain
    encrypted : encrypt_if rt s.block iv plain ≡ ok payload
    sealed : rt.base64 (seal rt key name time (rt.base64 payload)) ≡ cookie
    short : check_length s.max_length cookie value_too_long ≡ ok cookie

  encode_with-Written :
      (s : SecureCookie) (name : Bytes) (value : V) (time : ℤ) (iv : Option Bytes)
      (cookie key : Bytes)
      → encode_with rt s name value time iv key ≡ ok cookie
      → Written s name value time iv cookie key
  unfolding encode_with
  encode_with-Written s name value time iv cookie key h =
      let (b, hb, h1) = >>?-eq-ok (or_err (rt.serialize value) serialization) _ h in
      let (c, hc, h2) = >>?-eq-ok (encrypt_if rt s.block iv b) _ h1 in
      let (same, short) =
        check_length-base s.max_length _ cookie encoded_too_long value_too_long h2 in
      record {
        plain = b;
        payload = c;
        serialized = or_err-eq-ok _ serialization hb;
        encrypted = hc;
        sealed = same;
        short = rw same at short;
      }

  decrypt_if-encrypt_if :
      (block : Option Block) (iv : Bytes) (b c : Bytes)
      → ((k : Block) → block ≡ some k → length iv ≡ rt.block_size k)
      → b ≢ []
      → encrypt_if rt block (some iv) b ≡ ok c
      → decrypt_if rt block c ≡ ok b
  unfolding encrypt_if decrypt_if encrypt
  decrypt_if-encrypt_if none iv b c size full h = cc
  decrypt_if-encrypt_if (some k) iv b c size full h =
      let e : iv ++ rt.ctr k iv b ≡ c = cc in
      rw (← e) (decrypt-encrypt rt laws k iv b (size k refl) full)

  opened-Written :
      (s : SecureCookie) (name : Bytes) (value : V) (m n a : ℕ) (iv cookie key : Bytes)
      → s.min_age ≡ pos 0
      → s.max_age ≡ pos a
      → m ≤ n
      → n < 2 ^ 63
      → a < 2 ^ 63
      → n ≤ m + a
      → ((k : Block) → s.block ≡ some k → length iv ≡ rt.block_size k)
      → (w : Written s name value (pos m) (some iv) cookie key)
      → opened rt s name cookie (pos n) key ≡ ok w.plain
  unfolding opened
  opened-Written s name value m n a iv cookie key young old mn hn ha fresh size w =
      rw
        (
          w.short,
          ← w.sealed,
          laws.unbase64-base64 _,
          seal_lem rt key name (pos m) (rt.base64 w.payload),
          split_and_verify-sealed rt laws key name (rt.base64 w.payload) (pos m)
              (laws.base64_plain _),
          laws.parse-format m (omega arith),
          young,
          old,
          verify_timestamp_fresh m n a mn hn ha fresh,
          laws.unbase64-base64 _,
        )
        (decrypt_if-encrypt_if s.block iv w.plain w.payload size
          (laws.nonempty value _ w.serialized) w.encrypted)

  -- A cookie that `Encode` wrote at time m under a name, and that is read by the same codec under
  -- that name at a time n with m ≤ n ≤ m + a, where a is the codec's maximal age, no minimal age
  -- is set and the iv has the size of a block, is accepted, and the destination becomes the value,
  -- whatever it held before.
  pub decode-encode :
      (s : SecureCookie) (name : Bytes) (value dst : V) (m n a : ℕ) (iv cookie : Bytes)
      → s.min_age ≡ pos 0
      → s.max_age ≡ pos a
      → m ≤ n
      → n < 2 ^ 63
      → a < 2 ^ 63
      → n ≤ m + a
      → ((k : Block) → s.block ≡ some k → length iv ≡ rt.block_size k)
      → encode rt s name value (pos m) (some iv) ≡ ok cookie
      → decode rt s name cookie (pos n) dst ≡ (ok tt, value)
  unfolding encode decode
  decode-encode s name value dst m n a iv cookie young old mn hn ha fresh size h =
      elim (Option-cases s.err_field) [
        | inr (e, broken) ↦ absurd (ne_ok e (rw (broken, encode) at h))
        | inl sound ↦ elim (Option-cases s.hash_key) [
          | inl unkeyed ↦ absurd (ne_ok hash_key_not_set (rw (sound, unkeyed, encode) at h))
          | inr (key, keyed) ↦
              let w =
                encode_with-Written s name value (pos m) (some iv) cookie key
                  (rw (sound, keyed, encode) at h) in
              rw (
                sound,
                keyed,
                decode,
                opened-Written s name value m n a iv cookie key young old mn hn ha fresh size w,
                laws.decodes value dst w.plain w.serialized,
              )
        ]
      ]

  -- The same cookie, read when it is older than the maximal age, is refused for its age, and the
  -- destination is left alone.
  pub decode-encode_expired :
      (s : SecureCookie) (name : Bytes) (value dst : V) (m n a : ℕ) (iv : Option Bytes)
      (cookie : Bytes)
      → s.min_age ≡ pos 0
      → s.max_age ≡ pos a
      → 0 < a
      → n < 2 ^ 63
      → m + a < n
      → encode rt s name value (pos m) iv ≡ ok cookie
      → decode rt s name cookie (pos n) dst ≡ (err too_old, dst)
  unfolding encode decode opened
  decode-encode_expired s name value dst m n a iv cookie young old pos_a hn late h =
      elim (Option-cases s.err_field) [
        | inr (e, broken) ↦ absurd (ne_ok e (rw (broken, encode) at h))
        | inl sound ↦ elim (Option-cases s.hash_key) [
          | inl unkeyed ↦ absurd (ne_ok hash_key_not_set (rw (sound, unkeyed, encode) at h))
          | inr (key, keyed) ↦
              let w =
                encode_with-Written s name value (pos m) iv cookie key
                  (rw (sound, keyed, encode) at h) in
              rw (
                sound,
                keyed,
                decode,
                opened,
                w.short,
                ← w.sealed,
                laws.unbase64-base64 _,
                seal_lem rt key name (pos m) (rt.base64 w.payload),
                split_and_verify-sealed rt laws key name (rt.base64 w.payload) (pos m)
                    (laws.base64_plain _),
                laws.parse-format m (omega arith),
                young,
                old,
                verify_timestamp_late m n a pos_a hn late,
              )
        ]
      ]
