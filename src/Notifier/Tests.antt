-- ===== src/Notifier/Tests.antt =====
-- The round trip of secrets at a toy cipher.
use warnly.Base.{
  ◌+◌, ◌-◌, ◌≡◌, refl, ap, true, false, some, [], ◌∷◌, ◌++◌, Bytes, text, is_empty, length, ok,
  arith,
}
use warnly.Notifier.Secret.{Crypto, Laws, encrypt_secret}

abbrev shift : Bytes → Bytes
shift [] = []
shift (x ∷ xs) = (x + 1) ∷ shift xs

abbrev unshift : Bytes → Bytes
unshift [] = []
unshift (x ∷ xs) = (x - 1) ∷ unshift xs

unshift-shift : (b : Bytes) → unshift (shift b) ≡ b
unshift-shift [] = refl
unshift-shift (x ∷ xs) = ground (arith, unshift-shift xs)

shift_nonempty : (b : Bytes) → is_empty b ≡ false → is_empty (shift b) ≡ false
shift_nonempty [] h = h
shift_nonempty (x ∷ xs) h = refl

abbrev toy : Crypto
toy = record {
  sha256 = λ b. length b ∷ [];
  new_cipher = λ key. true;
  new_gcm = λ key. true;
  nonce_size = 2;
  gcm_seal = λ key nonce plain. shift plain;
  gcm_open = λ key nonce sealed. some (unshift sealed);
  base64 = shift;
  unbase64 = λ b. some (unshift b);
}

toy-Laws : Laws toy
toy-Laws = record {
  open-seal = λ key nonce plain. ap some (unshift-shift plain);
  unbase64-base64 = λ b. ap some (unshift-shift b);
  base64_nonempty = shift_nonempty;
  nonce_pos = omega arith;
}

abbrev nonce : Bytes
nonce = 9 ∷ 8 ∷ []

abbrev stored : Bytes
stored = shift (nonce ++ shift (text "hook"))

stored_lem : encrypt_secret toy (text "key") (some nonce) (text "hook") ≡ ok stored
unfolding encrypt_secret
stored_lem = refl
