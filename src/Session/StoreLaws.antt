-- ===== src/Session/StoreLaws.antt =====
-- Saving a session and reading it back, the registry of a request, and the names it accepts.
use warnly.Base.{
  ℕ, zero, suc, ◌||◌, sym, ap, subst, lt→ltb, ltb→lt, bytes_eq_sound, ◌+◌, ◌≤◌, ◌<◌, ◌^◌, ◌≡◌, ◌≢◌,
  refl, Bool, true, false, not, Option, none, some, List, [], ◌∷◌, ◌↔◌, inl, inr, if◌then◌else◌,
  ltb, Bytes, length, arith, All, any, contains_byte, text, Result, ok, err, bytes_eq,
  bytes_eq_refl, Option-cases, Bool-cases,
}
use warnly.Base.Int.{ℤ, pos}
use warnly.Session.Runtime.{Runtime, Laws, Block}
use warnly.Session.Cookie.{
  Error, SecureCookie, new_secure_cookie, block_func, encode, encode_with, decode,
}
use warnly.Session.RoundTrip.{decode-encode}
use warnly.Session.Name.{is_token, is_not_token, is_cookie_name_valid}
use warnly.Session.Store.{
  Options, Session, CookieStore, encode_from, decode_from, encode_multi, decode_multi, new_session,
  save, new_cookie, SessionInfo, Registry, lookup, get,
}

-- The separators and controls that RFC 7230 excludes from a token, of the bytes up to 0x7e.
is_separator : ℕ → Bool
is_separator c = ltb c 33 || contains_byte c (text "()<>@,;:\\\"/[]?={}")

abbrev same : Bool → Bool → Bool
same true b = b
same false b = not b

same-eq : (a b : Bool) → same a b ≡ true → a ≡ b
same-eq true b h = ground arith
same-eq false b h = ground arith

-- Two tables have the same entries at the first `size` places.
agree : (left right : ℕ → Bool) → ℕ → Bool
agree left right zero = true
agree left right (suc size) =
    let rest = agree left right size in if same (left size) (right size) then rest else false

agree-eq :
    (left right : ℕ → Bool) (size c : ℕ)
    → agree left right size ≡ true
    → c < size
    → left c ≡ right c
unfolding agree
agree-eq left right zero c h below = absurd (omega arith)
agree-eq left right (suc size) c h below =
    ground (arith, agree-eq left right size c, same-eq (left size) (right size))

table_matches : agree is_token (λ c. not (is_separator c)) 127 ≡ true
unfolding agree is_token is_separator
table_matches = refl

-- A byte of a token: printable and no separator.
pub record IsTokenByte (c : ℕ) : Type 0 where
  pub printable : 33 ≤ c
  pub ascii : c < 127
  pub plain : contains_byte c (text "()<>@,;:\\\"/[]?={}") ≡ false

is_token_lem : (c : ℕ) → c < 127 → is_token c ≡ not (is_separator c)
is_token_lem c h = agree-eq is_token (λ b. not (is_separator b)) 127 c table_matches h

neither : (c : ℕ) (b : Bool) → (not (ltb c 33 || b) ≡ true) ↔ ((33 ≤ c) × (b ≡ false))
neither c true = ground arith
neither c false = ground arith

separator_iff : (c : ℕ) → c < 127 → (not (is_separator c) ≡ true) ↔ IsTokenByte c
unfolding is_separator
separator_iff c h =
    let n = neither c (contains_byte c (text "()<>@,;:\\\"/[]?={}")) in
    (
      λ t. record { printable = (n.0 t).0; ascii = h; plain = (n.0 t).1 },
      λ k. n.1 (k.printable, k.plain),
    )

-- From 127 on both sides fail.
high_token : (c : ℕ) → ltb c 127 ≡ false → is_token c ≡ false
unfolding is_token
high_token c h = rw h

true-false : (b : Bool) → b ≡ true → b ≡ false → ⊥
true-false b h k = cc

is_token-IsTokenByte : (c : ℕ) → (is_token c ≡ true) ↔ IsTokenByte c
is_token-IsTokenByte c = elim (Bool-cases (ltb c 127)) [
  | inl low ↦ rw (is_token_lem c (ltb→lt c 127 low)) (separator_iff c (ltb→lt c 127 low))
  | inr high ↦ (
    λ t. cc (high_token c high),
    λ k. absurd (true-false (ltb c 127) (lt→ltb c 127 k.ascii) high),
  )
]

token_or : (t b : Bool) → ((if not t then true else b) ≡ false) ↔ ((t ≡ true) × (b ≡ false))
token_or true b = ground arith
token_or false b = ground arith

tokens_iff : (raw : Bytes) → (any is_not_token raw ≡ false) ↔ All IsTokenByte raw
unfolding is_not_token
tokens_iff [] = (λ h. tt, λ h. refl)
tokens_iff (c ∷ raw) =
    let split = token_or (is_token c) (any is_not_token raw) in
    let (to, from) = is_token-IsTokenByte c in
    let (all_to, all_from) = tokens_iff raw in
    (λ h. (to (split.0 h).0, all_to (split.0 h).1), λ (p, q). split.1 (from p, all_from q))

not_iff : (b : Bool) → (not b ≡ true) ↔ (b ≡ false)
not_iff true = ground arith
not_iff false = ground arith

-- A cookie name is accepted exactly when it is not empty and every byte of it is printable ASCII
-- and none of the separators of RFC 7230.
pub is_cookie_name_valid_iff :
    (raw : Bytes) → (is_cookie_name_valid raw ≡ true) ↔ ((raw ≢ []) × All IsTokenByte raw)
unfolding is_cookie_name_valid
is_cookie_name_valid_iff [] = (λ h. cc, λ (p, q). absurd (p refl))
is_cookie_name_valid_iff (c ∷ raw) =
    let n = not_iff (any is_not_token (c ∷ raw)) in
    let (to, from) = tokens_iff (c ∷ raw) in (λ h. (λ e. cc, to (n.0 h)), λ (p, q). n.1 (from q))

err_ok :
    {A B : Type 0} {e : Error} {a : A} {x y : B}
    → ◌≡◌ {A = Result Error A × B} (err e, x) (ok a, y)
    → ⊥
err_ok h = cc (ap (λ r. r.0) h)

module _ {V : Type 0} (info : SessionInfo V) (reg : Registry V) where
  lookup-cons_self : (name : Bytes) → lookup name ((name, info) ∷ reg) ≡ some info
  unfolding lookup
  lookup-cons_self name = rw (bytes_eq_refl name)

  lookup-cons_ne :
      (name other : Bytes) → other ≢ name → lookup other ((name, info) ∷ reg) ≡ lookup other reg
  unfolding lookup
  lookup-cons_ne name other ne = elim (Bool-cases (bytes_eq name other)) [
    | inl equal ↦ absurd (ne (sym (bytes_eq_sound name other equal)))
    | inr differs ↦ rw differs
  ]

  get_known :
      (new : Bytes → SessionInfo V) (name : Bytes)
      → is_cookie_name_valid name ≡ true
      → lookup name reg ≡ some info
      → get new name reg ≡ (ok info, reg)
  unfolding get
  get_known new name valid held = rw (valid, held)

get_registers :
    {V : Type 0} (new later : Bytes → SessionInfo V) (name : Bytes) (reg reg' : Registry V)
    (info : SessionInfo V)
    → get new name reg ≡ (ok info, reg')
    → (get later name reg' ≡ (ok info, reg'))
      × ((other : Bytes) → other ≢ name → lookup other reg' ≡ lookup other reg)
unfolding get
get_registers {V} new later name reg reg' info h = elim (Bool-cases (is_cookie_name_valid name)) [
  | inr refused ↦ absurd (err_ok (rw (refused, get) at h))
  | inl valid ↦ elim (Option-cases (lookup name reg)) [
    | inl fresh ↦
        let first : SessionInfo V = (record (new name).0 { name = name }, (new name).1) in
        let e : ◌≡◌ {A = Result Error (SessionInfo V) × Registry V} (ok first, (name, first) ∷ reg)
            (ok info, reg') =
          rw (valid, fresh, get) at h in
        subst
          (λ r.
            (get later name r.1 ≡ r)
            × ((other : Bytes) → other ≢ name → lookup other r.1 ≡ lookup other reg))
          e
          (
            get_known first ((name, first) ∷ reg) later name valid
                (lookup-cons_self first reg name),
            lookup-cons_ne first reg name,
          )
    | inr (old, held) ↦
        let e : ◌≡◌ {A = Result Error (SessionInfo V) × Registry V} (ok old, reg) (ok info, reg') =
          rw (valid, held, get) at h in
        subst
          (λ r.
            (get later name r.1 ≡ r)
            × ((other : Bytes) → other ≢ name → lookup other r.1 ≡ lookup other reg))
          e (get_known old reg later name valid held, λ other ne. refl)
  ]
]

-- The first `Get` of a name fixes what every later `Get` of it in the same request returns,
-- whatever the store would answer then; any other name keeps what it had.
pub get-get :
    {V : Type 0} (new later : Bytes → SessionInfo V) (name other : Bytes) (reg reg' : Registry V)
    (info : SessionInfo V)
    → get new name reg ≡ (ok info, reg')
    → other ≢ name
    → (get later name reg' ≡ (ok info, reg')) × (lookup other reg' ≡ lookup other reg)
get-get new later name other reg reg' info h ne =
    let (again, others) = get_registers new later name reg reg' info h in (again, others other ne)

module _ {V : Type 0} (rt : Runtime V) where
  -- A block key that the cipher refuses is dropped in silence: the cookies are then those of a
  -- codec with no block key, signed and not encrypted.
  pub encode-refused_key :
      (hash_key : Option Bytes) (key : Bytes) (name : Bytes) (value : V) (now : ℤ)
      (iv : Option Bytes)
      → rt.new_cipher key ≡ none
      → encode rt (new_secure_cookie rt hash_key (some key)) name value now iv
        ≡ encode rt (new_secure_cookie rt hash_key none) name value now iv
  unfolding new_secure_cookie block_func encode encode_with
  encode-refused_key hash_key key name value now iv h = elim (Option-cases hash_key) [
    | inl unkeyed ↦ rw (h, block_func, new_secure_cookie)
    | inr (k, keyed) ↦ rw (h, block_func, new_secure_cookie)
  ]

  decode_multi-first :
      (c : SecureCookie) (cs : List SecureCookie) (name value : Bytes) (now : ℤ) (dst v : V)
      → decode rt c name value now dst ≡ (ok tt, v)
      → decode_multi rt name value now (c ∷ cs) dst ≡ (ok tt, v)
  unfolding decode_multi
  decode_multi-first c cs name value now dst v h = rw (decode_multi, decode_from, h)

  -- A session that the first codec can encode, saved at m, comes back from its cookie at any time
  -- n up to the maximal age: the same values, not new, no error, and the store's own options.
  pub new_session-save :
      (laws : Laws rt) (c : SecureCookie) (cs : List SecureCookie) (options : Options)
      (session : Session V) (initial : V) (m n a : ℕ) (rand : ℕ → Option Bytes) (iv encoded : Bytes)
      → c.min_age ≡ pos 0
      → c.max_age ≡ pos a
      → m ≤ n
      → n < 2 ^ 63
      → a < 2 ^ 63
      → n ≤ m + a
      → ((k : Block) → c.block ≡ some k → length iv ≡ rt.block_size k)
      → rand 0 ≡ some iv
      → encode rt c session.name session.values (pos m) (some iv) ≡ ok encoded
      → let store : CookieStore = record { options = options; codecs = c ∷ cs } in
        (save rt store session (pos m) rand
          ≡ ok (new_cookie session.name encoded session.options (pos m)))
        × (new_session rt store initial (some encoded) session.name (pos n) ≡ (
          record {
            values = session.values;
            options = options;
            id = [];
            name = session.name;
            is_new = false;
          },
          none,
        ))
  unfolding save encode_multi new_session
  new_session-save laws c cs options session initial m n a rand iv encoded young old mn hn ha fresh
        size drawn h =
      (
        rw (drawn, h, encode_from, encode_multi, save),
        rw (
          new_session,
          decode_multi-first c cs session.name encoded (pos n) initial session.values (
              decode-encode rt laws c session.name session.values initial m n a iv encoded young old
                mn hn ha fresh size h),
        ),
      )
