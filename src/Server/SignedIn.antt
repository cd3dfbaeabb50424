-- ===== src/Server/SignedIn.antt =====
-- What signing in and out of internal/server/root.go comes to.
use warnly.Base.{
  ℕ, ◌+◌, ◌≤◌, ◌<◌, ◌^◌, ◌≡◌, refl, sym, ap, ap₂, subst, ◌∙◌, ◌==◌, Bool, false, Option, none, some,
  List, [], ◌∷◌, Bytes, text, length, Result, ok, err, Result-cases, ◌>>?◌, >>?-eq-ok, ◌⊎◌, inl,
  inr,
}
use warnly.Base.Int.{ℤ, pos}
use warnly.Session.Runtime.{Laws, Block}
use warnly.Session.Cookie.{Error, SecureCookie, encode}
use warnly.Session.Store.{
  Cookie, Session, save, new_cookie, new_cookie_from_options, encode_multi, encode_from,
  new_session, SessionInfo,
}
use warnly.Session.StoreLaws.{new_session-save}
use warnly.Accounts.Users.{User, Account, Accounts, AuthError, oidc}
use warnly.Accounts.SignIn.{Credentials, sign_in}
use warnly.Accounts.Proven.{IsProven, found, sign_in-IsProven, sign_in-oidc}
use warnly.Server.Web.{Values, Request, redirect, login_page, replied, panicked, Handler, Backend}
use warnly.Server.Auth.{
  ServerError, zero_values, loaded_session, session_id, get_session, get_user, user_of, with_user,
  authenticate,
}
use warnly.Server.Login.{
  signed_in_session, saved_cookie, save_user, save_cookie, home_or_login, signed_in, create,
  msg_something_went_wrong, msg_invalid_login_credentials,
}
use warnly.Server.Sessions.{session_at, session_at-name, get_session_lem, session_carried}

abbrev cookie_text : Result Error Cookie → Result Error Bytes
cookie_text (ok c) = ok c.value
cookie_text (err e) = err e

refused : (e : Error) (ck : Cookie) → ◌≡◌ {A = Result Error Cookie} (err e) (ok ck) → ⊥
refused e ck h = cc

module _ (b : Backend) where
  -- A cookie comes with a redirect only after a sign-in that succeeded.
  home-from :
      (r : Result ServerError Cookie) (ck : Cookie)
      → home_or_login b r ≡ replied (redirect (text "/") (some ck))
      → r ≡ ok ck
  home-from (ok c) ck h = cc
  home-from (err e) ck h = cc

  signed_in-from :
      (r : Request) (remember_me : Bool) (answer : Result AuthError User) (ck : Cookie)
      → signed_in b r remember_me answer ≡ replied (redirect (text "/") (some ck))
      → (user : User) × (answer ≡ ok user) × (save_cookie b r user remember_me ≡ ok ck)
  unfolding signed_in
  signed_in-from r remember_me (ok user) ck h =
      (user, refl, home-from (save_cookie b r user remember_me) ck h)
  signed_in-from r remember_me (err AuthError.query_failed) ck h = cc
  signed_in-from r remember_me (err AuthError.no_user) ck h = cc
  signed_in-from r remember_me (err AuthError.taken) ck h = cc
  signed_in-from r remember_me (err AuthError.invalid_login_credentials) ck h = cc
  signed_in-from r remember_me (err AuthError.invalid_auth_method) ck h = cc
  signed_in-from r remember_me (err AuthError.invalid_email) ck h = cc
  signed_in-from r remember_me (err AuthError.bad_hash) ck h = cc
  signed_in-from r remember_me (err AuthError.no_hash) ck h = cc

  saved-from : (r : Result Error Cookie) (ck : Cookie) → saved_cookie r ≡ ok ck → r ≡ ok ck
  saved-from (ok c) ck h = cc
  saved-from (err e) ck h = cc

  -- The one codec has encoded the session whose cookie was made.
  save-encodes :
      (c : SecureCookie)
      → b.cookie_store.codecs ≡ c ∷ []
      → (s : Session Values) (now : ℤ) (ck : Cookie) → save b.rt b.cookie_store s now b.rand ≡ ok ck
      → encode b.rt c s.name s.values now (b.rand 0) ≡ ok ck.value
  unfolding save encode_multi encode_from new_cookie new_cookie_from_options
  save-encodes c one_codec s now ck h =
      elim (Result-cases (encode b.rt c s.name s.values now (b.rand 0))) [
        | inl (encoded, e) ↦
            e
            ∙ ap (λ (k : Result Error Cookie). cookie_text k)
                (rw (one_codec, e, encode_from, encode_multi, save) at h)
        | inr (x, e) ↦
            absurd (refused x ck (rw (one_codec, e, encode_from, encode_multi, save) at h))
      ]

  signed_in_stale :
      (r : Request) (remember_me : Bool) (answer : Result AuthError User) (e : ServerError)
      → get_session b r ≡ err e
      → (signed_in b r remember_me answer ≡ replied (login_page msg_something_went_wrong))
        ⊎ ((signed_in b r remember_me answer ≡ replied (login_page msg_invalid_login_credentials))
            ⊎ (signed_in b r remember_me answer ≡ panicked))
  unfolding signed_in save_cookie
  signed_in_stale r remember_me (ok user) e refused = inl (
      ap
        (λ (s : Result ServerError (Session Values)).
          home_or_login b (s >>? save_user b r user remember_me))
        refused)
  signed_in_stale r remember_me (err AuthError.query_failed) e refused = inl refl
  signed_in_stale r remember_me (err AuthError.no_user) e refused = inl refl
  signed_in_stale r remember_me (err AuthError.taken) e refused = inl refl
  signed_in_stale r remember_me (err AuthError.invalid_login_credentials) e refused = inr (inl refl)
  signed_in_stale r remember_me (err AuthError.invalid_auth_method) e refused = inr (inr refl)
  signed_in_stale r remember_me (err AuthError.invalid_email) e refused = inl refl
  signed_in_stale r remember_me (err AuthError.bad_hash) e refused = inl refl
  signed_in_stale r remember_me (err AuthError.no_hash) e refused = inl refl

  user_of-named :
      (t : Session Values) (user : User)
      → t.values.user ≡ user
      → (user.id == 0) ≡ false
      → user_of b t ≡ ok user
  user_of-named t user same set = rw (same, set) refl

  let_in :
      (later : Request) (t : Session Values) (user : User) (handler : Handler)
      → get_session b later ≡ ok t
      → t.values.user ≡ user
      → (user.id == 0) ≡ false
      → authenticate b handler (record { request = later; user = none })
        ≡ handler (record { request = later; user = some user })
  unfolding authenticate get_user
  let_in later t user handler loaded same set =
      ap
        (λ (s : Result ServerError (Session Values)).
          with_user b handler (record { request = later; user = none }) (s >>? user_of b))
        loaded
      ∙ ap (with_user b handler (record { request = later; user = none }))
          (user_of-named t user same set)

  module _ (laws : Laws b.rt) (c : SecureCookie) (one_codec : b.cookie_store.codecs ≡ c ∷ [])
      (young : c.min_age ≡ pos 0) (a : ℕ) (old : c.max_age ≡ pos a) (iv : Bytes)
      (size : (k : Block) → c.block ≡ some k → length iv ≡ b.rt.block_size k)
      (drawn : b.rand 0 ≡ some iv) (m n : ℕ) (mn : m ≤ n) (hn : n < 2 ^ 63) (ha : a < 2 ^ 63)
      (fresh : n ≤ m + a) where
    -- A session that was saved is found again, under its cookie.
    session_at-save :
        (s : Session Values) (ck : Cookie)
        → s.name ≡ session_id
        → save b.rt b.cookie_store s (pos m) b.rand ≡ ok ck
        → (t : Session Values) × (session_at b (some ck.value) (pos n) ≡ ok t)
          × (t.values ≡ s.values)
    session_at-save s ck named saved =
        let encoded : encode b.rt c s.name s.values (pos m) (some iv) ≡ ok ck.value =
          subst (λ (k : Option Bytes). encode b.rt c s.name s.values (pos m) k ≡ ok ck.value) drawn
            (save-encodes c one_codec s (pos m) ck saved) in
        let again =
          new_session-save b.rt laws c [] b.cookie_store.options s zero_values m n a b.rand iv
            ck.value young old mn hn ha fresh size drawn encoded in
        (
          record {
            values = s.values;
            options = b.cookie_store.options;
            id = [];
            name = session_id;
            is_new = false;
          },
          ap
              (λ (info : SessionInfo Values).
                loaded_session (ok (record info.0 { name = session_id }, info.1)))
              (ap₂
                  (λ (cs : List SecureCookie) (name : Bytes).
                    new_session b.rt (record { options = b.cookie_store.options; codecs = cs })
                      zero_values (some ck.value) name (pos n))
                  one_codec (sym named)
                ∙ again.1),
          refl,
        )

    -- Who signs in stays signed in: where `create` answers a request at a time m with a redirect and
    -- a cookie, the user of the identifier gave the password, and a request with this cookie at a time
    -- n up to the codec's maximal age later reaches its handler with this very user.
    pub create-authenticate :
        (creds : Credentials) (remember_me : Bool) (accounts : Accounts)
        → ((row : Account) → found b.auth creds accounts ≡ some row → (row.user.id == 0) ≡ false)
        → (r : Request) (ck : Cookie) → r.now ≡ pos m
        → (create b r creds remember_me accounts).0 ≡ replied (redirect (text "/") (some ck))
        → (later : Request) (handler : Handler) → later.cookie ≡ some ck.value
        → later.now ≡ pos n
        → (user : User) × IsProven b.auth creds accounts (ok user)
          × (authenticate b handler (record { request = later; user = none })
              ≡ handler (record { request = later; user = some user }))
    unfolding create save_cookie save_user signed_in_session
    create-authenticate creds remember_me accounts numbered r ck at_m done later handler carried
          at_n =
        let (user, answer, stored) =
          signed_in-from r remember_me (sign_in b.auth creds accounts).0 ck done in
        let proven =
          subst (IsProven b.auth creds accounts) answer
            (sign_in-IsProven b.auth creds accounts).0 in
        let (s, got, kept) = >>?-eq-ok (get_session b r) (save_user b r user remember_me) stored in
        let saved = saved-from _ ck kept in
        let named = session_at-name b r.cookie r.now s (sym (get_session_lem b r) ∙ got) in
        let (t, back, values) =
          session_at-save (signed_in_session user remember_me b.remember_session_days s) ck named (
            subst
              (λ (now : ℤ).
                save b.rt b.cookie_store
                  (signed_in_session user remember_me b.remember_session_days s) now b.rand
                ≡ ok ck)
              at_m saved) in
        let loaded =
          session_carried b later (some ck.value) carried
          ∙ ap (session_at b (some ck.value)) at_n
          ∙ back in
        let set = rw (sym proven.2) at (numbered proven.0 proven.1) in
        (user, proven, let_in later t user handler loaded (ap (λ (v : Values). v.user) values) set)

  -- A user who signs in by OIDC and tries a password, where no statement fails, makes `create` panic.
  pub create_oidc :
      (r : Request) (creds : Credentials) (remember_me : Bool) (accounts : Accounts) (row : Account)
      → found b.auth creds accounts ≡ some row
      → row.user.auth_method ≡ oidc
      → b.auth.fails accounts.statements ≡ false
      → (create b r creds remember_me accounts).0 ≡ panicked
  unfolding create signed_in
  create_oidc r creds remember_me accounts row known by_oidc runs =
      ap (signed_in b r remember_me) (sign_in-oidc b.auth creds accounts row known by_oidc runs)

  -- A client whose session cookie is not accepted cannot sign in: `create` sets no cookie and
  -- answers with a page, or panics, also where the password is right.
  pub create_stale :
      (r : Request) (creds : Credentials) (remember_me : Bool) (accounts : Accounts)
      (e : ServerError)
      → get_session b r ≡ err e
      → (create b r creds remember_me accounts).0 ≡ replied (login_page msg_something_went_wrong)
        ⊎ ((create b r creds remember_me accounts).0
              ≡ replied (login_page msg_invalid_login_credentials)
            ⊎ ((create b r creds remember_me accounts).0 ≡ panicked))
  unfolding create
  create_stale r creds remember_me accounts e refused =
      signed_in_stale r remember_me (sign_in b.auth creds accounts).0 e refused
