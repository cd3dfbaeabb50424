-- ===== src/Session/Store.antt =====
-- The codecs, the cookie store and the registry of internal/session/session.go.
use warnly.Base.{
  ℕ, suc, ◌+◌, Bool, true, false, Option, none, some, List, [], ◌∷◌, map, if◌then◌else◌, ltb, text,
  Bytes, bytes_eq, Result, ok, err, Action,
}
use warnly.Base.Int.{ℤ, pos, negsuc, sub_ℕ, pos_part, neg_part}
use warnly.Session.Runtime.{Runtime}
use warnly.Session.Cookie.{
  Error, no_codecs, invalid_name, SecureCookie, new_secure_cookie, encode, decode,
}
use warnly.Session.Name.{is_cookie_name_valid}

pub data SameSite : Type 0 where
  default lax strict none_mode : SameSite

pub record Options : Type 0 where
  pub path : Bytes
  pub domain : Bytes
  pub max_age : ℤ
  pub secure : Bool
  pub http_only : Bool
  pub partitioned : Bool
  pub same_site : SameSite

-- `http.Cookie`; `expires` is in Unix seconds.
pub record Cookie : Type 0 where
  pub name : Bytes
  pub value : Bytes
  pub path : Bytes
  pub domain : Bytes
  pub max_age : ℤ
  pub secure : Bool
  pub http_only : Bool
  pub same_site : SameSite
  pub expires : Option ℤ

-- The session's `store` is the store at hand.
pub record Session (V : Type 0) : Type 0 where
  pub values : V
  pub options : Options
  pub id : Bytes
  pub name : Bytes
  pub is_new : Bool

pub record CookieStore : Type 0 where
  pub options : Options
  pub codecs : List SecureCookie

-- `CookieStore.MaxAge`, with `SecureCookie.MaxAge` on each codec.
unfoldable pub codec_max_age : ℤ → SecureCookie → SecureCookie
codec_max_age age s = record s { max_age = age }

unfoldable pub set_max_age : ℤ → CookieStore → CookieStore
unfolding codec_max_age
set_max_age age s =
    let o = s.options in
    record { options = record o { max_age = age }; codecs = map (codec_max_age age) s.codecs }

unfoldable pub new_cookie_from_options : Bytes → Bytes → Options → Cookie
new_cookie_from_options name value o = record {
  name = name;
  value = value;
  path = o.path;
  domain = o.domain;
  max_age = o.max_age;
  secure = o.secure;
  http_only = o.http_only;
  same_site = o.same_site;
  expires = none;
}

-- The `Expires` of `NewCookie`: `now` is in Unix seconds.
expiry : ℤ → ℤ → Option ℤ
expiry (pos n) now = if ltb 0 n then some (sub_ℕ (pos_part now + n) (neg_part now)) else none
expiry (negsuc n) now = some (pos 1)

unfoldable pub new_cookie : Bytes → Bytes → Options → ℤ → Cookie
unfolding new_cookie_from_options expiry
new_cookie name value o now =
    let c = new_cookie_from_options name value o in record c { expires = expiry o.max_age now }

module _ {V : Type 0} (rt : Runtime V) where
  -- The keys come in pairs of a hash key and a block key; the last block key may be missing.
  unfoldable pub codecs_from_pairs : List (Option Bytes) → List SecureCookie
  codecs_from_pairs [] = []
  codecs_from_pairs (h ∷ []) = new_secure_cookie rt h none ∷ []
  codecs_from_pairs (h ∷ b ∷ keys) = new_secure_cookie rt h b ∷ codecs_from_pairs keys

  unfoldable pub new_cookie_store : List (Option Bytes) → CookieStore
  unfolding set_max_age codecs_from_pairs
  new_cookie_store keys = set_max_age (pos 2592000) (record {
    options = record {
      path = text "/";
      domain = [];
      max_age = pos 2592000;
      secure = true;
      http_only = false;
      partitioned = false;
      same_site = none_mode;
    };
    codecs = codecs_from_pairs keys;
  })

  abbrev first_error : Option Error → Error → Option Error
  first_error none e = some e
  first_error (some e) _ = some e

  abbrev or_first : Option Error → Error
  or_first none = no_codecs
  or_first (some e) = e

  -- The loop of `EncodeMulti`: the first success, or the first error. `rand i` is the random key
  -- that the codec at place i draws, if it encrypts.
  unfoldable pub encode_from :
      Bytes → V → ℤ → (ℕ → Option Bytes) → ℕ → Option Error → List SecureCookie → Result Error Bytes
  encode_from name value now rand i first [] = err (or_first first)
  encode_from name value now rand i first (c ∷ cs) = elim (encode rt c name value now (rand i)) [
    | ok encoded ↦ ok encoded
    | err e ↦ encode_from name value now rand (suc i) (first_error first e) cs
  ]

  unfoldable pub encode_multi :
      Bytes → V → ℤ → (ℕ → Option Bytes) → List SecureCookie → Result Error Bytes
  unfolding encode_from
  encode_multi name value now rand cs = encode_from name value now rand 0 none cs

  abbrev or_next :
      Result Error (Unit {0}) × V
      → (Error → Action V Error (Unit {0}))
      → Result Error (Unit {0}) × V
  or_next (ok u, dst) next = (ok u, dst)
  or_next (err e, dst) next = next e dst

  -- The loop of `DecodeMulti`: every codec writes to the same destination.
  unfoldable pub decode_from :
      Bytes → Bytes → ℤ → Option Error → List SecureCookie → Action V Error (Unit {0})
  decode_from name value now first [] dst = (err (or_first first), dst)
  decode_from name value now first (c ∷ cs) dst =
      or_next (decode rt c name value now dst)
        (λ e. decode_from name value now (first_error first e) cs)

  unfoldable pub decode_multi : Bytes → Bytes → ℤ → List SecureCookie → Action V Error (Unit {0})
  unfolding decode_from
  decode_multi name value now cs dst = decode_from name value now none cs dst

  abbrev loaded : CookieStore → Bytes → Result Error (Unit {0}) × V → Session V × Option Error
  loaded s name (ok u, v) =
      (record { values = v; options = s.options; id = []; name = name; is_new = false }, none)
  loaded s name (err e, v) =
      (record { values = v; options = s.options; id = []; name = name; is_new = true }, some e)

  -- `CookieStore.New`: `cookie` is what `r.Cookie(name)` found, `zero` the zero `Values`.
  unfoldable pub new_session : CookieStore → V → Option Bytes → Bytes → ℤ → Session V × Option Error
  unfolding decode_multi
  new_session s zero none name now =
      (record { values = zero; options = s.options; id = []; name = name; is_new = true }, none)
  new_session s zero (some value) name now =
      loaded s name (decode_multi name value now s.codecs zero)

  -- `Save`: the cookie that is set on the response.
  unfoldable pub save : CookieStore → Session V → ℤ → (ℕ → Option Bytes) → Result Error Cookie
  unfolding encode_multi new_cookie
  save s session now rand = elim (encode_multi session.name session.values now rand s.codecs) [
    | err e ↦ err e
    | ok encoded ↦ ok (new_cookie session.name encoded session.options now)
  ]

-- `sessionInfo`, and the registry of a request: a map from names.
abbrev pub SessionInfo : Type 0 → Type 0
SessionInfo V = Session V × Option Error

abbrev pub Registry : Type 0 → Type 0
Registry V = List (Bytes × SessionInfo V)

unfoldable pub lookup : {V : Type 0} → Bytes → Registry V → Option (SessionInfo V)
lookup name [] = none
lookup name ((k, info) ∷ reg) = if bytes_eq k name then some info else lookup name reg

-- `Registry.Get`, with the store's `New` at the request as an argument.
unfoldable pub get :
    {V : Type 0}
    → (Bytes → SessionInfo V)
    → Bytes
    → Registry V
    → Result Error (SessionInfo V) × Registry V
unfolding lookup
get new name reg =
    if is_cookie_name_valid name
    then elim (lookup name reg) [
      | some info ↦ (ok info, reg)
      | none ↦
          let (session, e) = new name in
          let named = record session { name = name } in (ok (named, e), (name, (named, e)) ∷ reg)
    ]
    else (err invalid_name, reg)
