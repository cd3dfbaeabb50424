-- ===== src/Server/Sessions.antt =====
-- The session of a request of internal/server, and what it takes to be let in.
use warnly.Base.{
  ◌≡◌, refl, sym, ap, ap₂, ◌∙◌, ◌==◌, true, false, Bool-cases, Option, none, some, Option-cases, [],
  ◌∷◌, Bytes, Result, ok, err, Result-cases, >>?-eq-ok, inl, inr,
}
use warnly.Base.Int.{ℤ}
use warnly.Session.Cookie.{SecureCookie, decode}
use warnly.Session.Name.{is_cookie_name_valid, is_not_token, is_token}
use warnly.Session.Store.{Session, SessionInfo, new_session, get, lookup, decode_multi, decode_from}
use warnly.Session.Genuine.{Genuine, decode-Genuine}
use warnly.Accounts.Users.{User}
use warnly.Server.Web.{Values, Request, Backend}
use warnly.Server.Auth.{
  ServerError, no_user, zero_values, session_id, loaded_session, get_session, user_of, get_user,
}

ok_inj : {A : Type 0} (x y : A) → ◌≡◌ {A = Result ServerError A} (ok x) (ok y) → x ≡ y
ok_inj x y h = cc

err_ok : {A : Type 0} (e : ServerError) (y : A) → ◌≡◌ {A = Result ServerError A} (err e) (ok y) → ⊥
err_ok e y h = cc

zero_numbered : (zero_values.user.id == 0) ≡ false → ⊥
zero_numbered h = cc

module _ (b : Backend) where
  -- The session of a request is what the store makes of its cookie.
  abbrev pub new_of : Option Bytes → ℤ → SessionInfo Values
  new_of cookie now = new_session b.rt b.cookie_store zero_values cookie session_id now

  abbrev pub session_at : Option Bytes → ℤ → Result ServerError (Session Values)
  session_at cookie now =
      loaded_session
        (ok (record (new_of cookie now).0 { name = session_id }, (new_of cookie now).1))

  pub get_session_lem : (r : Request) → get_session b r ≡ session_at r.cookie r.now
  unfolding get_session get lookup is_cookie_name_valid is_not_token is_token
  get_session_lem r = refl

  pub session_carried :
      (r : Request) (cookie : Option Bytes)
      → r.cookie ≡ cookie
      → get_session b r ≡ session_at cookie r.now
  session_carried r cookie e = get_session_lem r ∙ ap (λ k. session_at k r.now) e

  -- The store names the session that it gives.
  pub session_at-name :
      (cookie : Option Bytes) (now : ℤ) (s : Session Values)
      → session_at cookie now ≡ ok s
      → s.name ≡ session_id
  session_at-name cookie now s h = elim (Option-cases (new_of cookie now).1) [
    | inl sound ↦ sym (ap (λ (t : Session Values). t.name) (ok_inj _ s (rw sound at h)))
    | inr (e, broken) ↦ absurd (err_ok _ s (rw broken at h))
  ]

  no_cookie_session :
      (now : ℤ) (s : Session Values) → session_at none now ≡ ok s → s.values ≡ zero_values
  unfolding new_session
  no_cookie_session now s h = sym (ap (λ (t : Session Values). t.values) (ok_inj _ s h))

  user_of-eq-ok :
      (s : Session Values) (user : User)
      → user_of b s ≡ ok user
      → ((s.values.user.id == 0) ≡ false) × (s.values.user ≡ user)
  user_of-eq-ok s user h = elim (Bool-cases (s.values.user.id == 0)) [
    | inl unset ↦ absurd (err_ok no_user user (rw unset at h))
    | inr set ↦ (set, ok_inj _ user (rw set at h))
  ]

  module _ (c : SecureCookie) where
    -- The user of the values that a cookie holds, which the codec signed and which is in date.
    pub record IsVouched (r : Request) (user : User) : Type 0 where
      pub cookie : Bytes
      pub key : Bytes
      pub plain : Bytes
      pub values : Values
      pub carried : r.cookie ≡ some cookie
      pub keyed : c.hash_key ≡ some key
      pub genuine : Genuine b.rt c session_id cookie r.now key plain
      pub read : b.rt.deserialize plain zero_values ≡ (true, values)
      pub named : values.user ≡ user
      pub numbered : (user.id == 0) ≡ false

  module _ (c : SecureCookie) (one_codec : b.cookie_store.codecs ≡ c ∷ []) where
    decoded_session :
        (r : Request) (cookie : Bytes) (s : Session Values)
        → session_at (some cookie) r.now ≡ ok s
        → decode b.rt c session_id cookie r.now zero_values ≡ (ok tt, s.values)
    unfolding new_session decode_multi decode_from
    decoded_session r cookie s h =
        elim (Result-cases (decode b.rt c session_id cookie r.now zero_values).0) [
          | inl (u, e) ↦
              ap₂ (λ x y. (x, y)) e
                (ap (λ (t : Session Values). t.values) (ok_inj _ s (rw (one_codec, e) at h)))
          | inr (x, e) ↦ absurd (err_ok _ s (rw (one_codec, e) at h))
        ]

    pub get_user-IsVouched :
        (r : Request) (user : User) → get_user b r ≡ ok user → IsVouched c r user
    unfolding get_user
    get_user-IsVouched r user h =
        let (s, got, named) = >>?-eq-ok (get_session b r) _ h in
        let (numbered, same) = user_of-eq-ok s user named in
        elim (Option-cases r.cookie) [
          | inl bare ↦ absurd (
              zero_numbered (
                rw (no_cookie_session r.now s (sym (session_carried r none bare) ∙ got)) at
                  numbered))
          | inr (cookie, carried) ↦
              let (key, plain, keyed, genuine, read) =
                decode-Genuine b.rt c session_id cookie r.now zero_values s.values (
                  decoded_session r cookie s
                    (sym (session_carried r (some cookie) carried) ∙ got)) in
              record {
                cookie = cookie;
                key = key;
                plain = plain;
                values = s.values;
                carried = carried;
                keyed = keyed;
                genuine = genuine;
                read = read;
                named = same;
                numbered = rw same at numbered;
              }
        ]
