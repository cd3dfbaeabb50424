-- ===== src/Session/Tests.antt =====
-- The session theorems at a concrete codec, with toy functions in place of the libraries.
use warnly.Base.{
  bytes_eq_iff, ◌≡◌, ◌≢◌, refl, true, false, none, some, [], ◌∷◌, Bytes, text, length, Result, ok,
  err, arith,
}
use warnly.Base.Int.{pos}
use warnly.Session.Toy.{toy_runtime, toy_runtime-Laws}
use warnly.Session.Runtime.{Runtime, Laws, Block}
use warnly.Session.Cookie.{
  SecureCookie, encode, decode, encode_with, encrypt_if, encrypt, check_length, seal, dated,
}
use warnly.Session.Name.{is_cookie_name_valid, is_not_token, is_token}
use warnly.Session.Store.{Options, lax, Session, new_session, save, new_cookie, get, lookup}
use warnly.Session.RoundTrip.{decode-encode}
use warnly.Session.Genuine.{Genuine, decode-Genuine}
use warnly.Session.StoreLaws.{new_session-save}

abbrev toy : Runtime Bytes
toy = toy_runtime (λ v. v) (λ b. b)

toy-Laws : Laws toy
toy-Laws = toy_runtime-Laws (λ v. v) (λ b. b) (λ v. refl)

abbrev codec : SecureCookie
codec = record {
  err_field = none;
  block = some (text "abcd");
  hash_key = some (text "secret");
  block_key = some (text "abcd");
  max_length = 4096;
  max_age = pos 100;
  min_age = pos 0;
}

abbrev user : Bytes
user = text "user"

abbrev name : Bytes
name = text "session"

abbrev iv : Bytes
iv = 5 ∷ 6 ∷ []

abbrev or_nil : {E : Type 0} → Result E Bytes → Bytes
or_nil (ok b) = b
or_nil (err e) = []

cookie : Bytes
unfolding encode encode_with encrypt_if encrypt check_length seal dated
cookie = or_nil (encode toy codec name user (pos 1000) (some iv))

encoded : encode toy codec name user (pos 1000) (some iv) ≡ ok cookie
unfolding encode encode_with encrypt_if encrypt check_length seal dated cookie
encoded = refl

iv_fits : (k : Block) → codec.block ≡ some k → length iv ≡ toy.block_size k
iv_fits k h = refl

decode-encode_example : decode toy codec name cookie (pos 1050) [] ≡ (ok tt, user)
decode-encode_example =
    decode-encode toy toy-Laws codec name user [] 1000 1050 100 iv cookie refl refl (omega arith)
      (omega arith) (omega arith) (omega arith) iv_fits encoded

accepted : decode toy codec name cookie (pos 1050) [] ≡ (ok tt, user)
accepted =
    decode-encode toy toy-Laws codec name user [] 1000 1050 100 iv cookie refl refl (omega arith)
      (omega arith) (omega arith) (omega arith) iv_fits encoded

decode-Genuine_example :
    (key : Bytes) × (plain : Bytes) × (codec.hash_key ≡ some key)
    × Genuine toy codec name cookie (pos 1050) key plain
    × (toy.deserialize plain [] ≡ (true, user))
decode-Genuine_example = decode-Genuine toy codec name cookie (pos 1050) [] user accepted

false-true : false ≡ true → ⊥
false-true h = cc

abbrev options : Options
options = record {
  path = text "/";
  domain = [];
  max_age = pos 100;
  secure = true;
  http_only = true;
  partitioned = false;
  same_site = lax;
}

abbrev session : Session Bytes
session = record { values = user; options = options; id = []; name = name; is_new = true }

abbrev other_session : Session Bytes
other_session = record { values = []; options = options; id = []; name = name; is_new = true }

got : get (λ n. (session, none)) name [] ≡ (ok (session, none), (name, (session, none)) ∷ [])
unfolding get lookup is_cookie_name_valid is_not_token is_token
got = refl

other_name : text "theme" ≢ name
other_name e = false-true ((bytes_eq_iff (text "theme") name).1 e)

new_session-save_example :
    (save toy (record { options = options; codecs = codec ∷ [] }) session (pos 1000) (λ i. some iv)
      ≡ ok (new_cookie name cookie options (pos 1000)))
    × (new_session toy
          (record { options = options; codecs = codec ∷ [] })
          []
          (some cookie)
          name
          (pos 1050)
        ≡ (record { values = user; options = options; id = []; name = name; is_new = false }, none))
new_session-save_example =
    new_session-save toy toy-Laws codec [] options session [] 1000 1050 100 (λ i. some iv) iv cookie
      refl refl (omega arith) (omega arith) (omega arith) (omega arith) iv_fits refl encoded
