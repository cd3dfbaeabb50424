-- ===== src/Notifier/Secret.antt =====
-- `EncryptSecret` and `DecryptSecret`: AES-GCM under a derived key, the nonce in front, in base64.
use warnly.Base.{
  ℕ, ◌<◌, ◌≡◌, refl, Bool, true, false, Option, some, [], ◌∷◌, ◌++◌, if◌then◌else◌, ltb, arith,
  Bytes, is_empty, length, take, drop, length-append, take-append, drop-append, Bool-cases, inl,
  inr, Result, ok, err, or_err, ◌>>?◌,
}

-- crypto/sha256, crypto/aes, crypto/cipher and encoding/base64.
pub record Crypto : Type 0 where
  pub sha256 : Bytes → Bytes
  pub new_cipher : Bytes → Bool
  pub new_gcm : Bytes → Bool
  pub nonce_size : ℕ
  pub gcm_seal : Bytes → Bytes → Bytes → Bytes
  pub gcm_open : Bytes → Bytes → Bytes → Option Bytes
  pub base64 : Bytes → Bytes
  pub unbase64 : Bytes → Option Bytes

pub record Laws (c : Crypto) : Type 0 where
  pub open-seal :
      (key nonce plain : Bytes) → c.gcm_open key nonce (c.gcm_seal key nonce plain) ≡ some plain
  pub unbase64-base64 : (b : Bytes) → c.unbase64 (c.base64 b) ≡ some b
  pub base64_nonempty : (b : Bytes) → is_empty b ≡ false → is_empty (c.base64 b) ≡ false
  pub nonce_pos : 0 < c.nonce_size

pub data SecretError : Type 0 where
  create_cipher create_gcm generate_nonce decode_base64 too_short decrypt_failed : SecretError

abbrev check : Bool → SecretError → Result SecretError (Unit {0})
check true e = ok tt
check false e = err e

module _ (c : Crypto) where
  -- `deriveKey`.
  unfoldable pub derive_key : Bytes → Bytes
  derive_key key = c.sha256 key

  -- `nonce` is what the random source gave, if it gave a nonce.
  unfoldable pub encrypt_secret : Bytes → Option Bytes → Bytes → Result SecretError Bytes
  encrypt_secret key nonce secret =
      if is_empty secret
      then ok []
      else (check (c.new_cipher key) create_cipher >>? λ _.
          check (c.new_gcm key) create_gcm >>? λ _.
          or_err nonce generate_nonce >>? λ n. ok (c.base64 (n ++ c.gcm_seal key n secret)))

  unfoldable pub open_data : Bytes → Bytes → Result SecretError Bytes
  open_data key sealed =
      if ltb (length sealed) c.nonce_size
      then err too_short
      else or_err (c.gcm_open key (take c.nonce_size sealed) (drop c.nonce_size sealed))
          decrypt_failed

  unfoldable pub decrypt_secret : Bytes → Bytes → Result SecretError Bytes
  unfolding open_data
  decrypt_secret key encrypted =
      if is_empty encrypted
      then ok []
      else (or_err (c.unbase64 encrypted) decode_base64 >>? λ sealed.
          check (c.new_cipher key) create_cipher >>? λ _.
          check (c.new_gcm key) create_gcm >>? λ _. open_data key sealed)

  module _ (laws : Laws c) where
    open_data-sealed :
        (key nonce secret : Bytes)
        → length nonce ≡ c.nonce_size
        → open_data key (nonce ++ c.gcm_seal key nonce secret) ≡ ok secret
    unfolding open_data
    open_data-sealed key nonce secret size =
        let long : ltb (length (nonce ++ c.gcm_seal key nonce secret)) c.nonce_size ≡ false =
          ground (arith, length-append nonce (c.gcm_seal key nonce secret)) in
        let head : take c.nonce_size (nonce ++ c.gcm_seal key nonce secret) ≡ nonce =
          rw (← size) (take-append nonce _) in
        let tail : drop c.nonce_size (nonce ++ c.gcm_seal key nonce secret)
            ≡ c.gcm_seal key nonce secret =
          rw (← size) (drop-append nonce _) in
        rw (long, head, tail, laws.open-seal key nonce secret)

    nonce_full : (n b : Bytes) → 0 < length n → is_empty (n ++ b) ≡ false
    nonce_full [] b h = absurd (omega arith)
    nonce_full (x ∷ n) b h = refl

    -- A secret that was encrypted under a key with a nonce of the right size is read back under
    -- the same key; the empty secret too, which is stored as no text.
    pub decrypt_secret-encrypt_secret :
        (key nonce secret stored : Bytes)
        → length nonce ≡ c.nonce_size
        → encrypt_secret key (some nonce) secret ≡ ok stored
        → decrypt_secret key stored ≡ ok secret
    unfolding encrypt_secret decrypt_secret
    decrypt_secret-encrypt_secret key nonce [] stored size h = ground arith
    decrypt_secret-encrypt_secret key nonce (x ∷ secret) stored size h =
        elim (Bool-cases (c.new_cipher key)) [
          | inr no_cipher ↦ absurd (refused (rw (no_cipher, encrypt_secret) at h))
          | inl cipher ↦ elim (Bool-cases (c.new_gcm key)) [
            | inr no_gcm ↦ absurd (refused (rw (cipher, no_gcm, encrypt_secret) at h))
            | inl gcm ↦
                let e : c.base64 (nonce ++ c.gcm_seal key nonce (x ∷ secret)) ≡ stored =
                  ok_eq (rw (cipher, gcm, encrypt_secret) at h) in
                rw
                  (
                    ← e,
                    laws.base64_nonempty _ (
                        nonce_full nonce (c.gcm_seal key nonce (x ∷ secret))
                          (rw size laws.nonce_pos)),
                    laws.unbase64-base64 _,
                    cipher,
                    gcm,
                  )
                  (open_data-sealed key nonce (x ∷ secret) size)
          ]
        ]
      where
        refused :
            {e : SecretError} {a : Bytes} → ◌≡◌ {A = Result SecretError Bytes} (err e) (ok a) → ⊥
        refused k = cc

        ok_eq : {a b : Bytes} → ◌≡◌ {A = Result SecretError Bytes} (ok a) (ok b) → a ≡ b
        ok_eq k = cc
