-- ===== src/Server/Login.antt =====
-- Signing in and out, of internal/server/root.go.
use warnly.Base.{
  ℕ, ◌*◌, Bool, some, [], if◌then◌else◌, Bytes, text, is_empty, Result, ok, err, ◌>>?◌,
}
use warnly.Base.Int.{pos, negsuc}
use warnly.Session.Cookie.{Error}
use warnly.Session.Store.{Cookie, Session, save}
use warnly.Accounts.Users.{
  User, Accounts, AuthError, invalid_login_credentials, invalid_auth_method,
}
use warnly.Accounts.SignIn.{Credentials, sign_in}
use warnly.Server.Web.{
  Values, Request, redirect, hx_redirect, login_page, Outcome, replied, panicked, Backend,
}
use warnly.Server.Auth.{ServerError, session, no_oidc_state, get_session}

abbrev pub msg_invalid_login_credentials : Bytes
msg_invalid_login_credentials = text "Invalid login credentials."

abbrev pub msg_something_went_wrong : Bytes
msg_something_went_wrong = text "Something went wrong. Check application logs for more details."

abbrev pub saved_cookie : Result Error Cookie → Result ServerError Cookie
saved_cookie (ok c) = ok c
saved_cookie (err e) = err (session e)

-- The session with the user in it, and the age that its cookie is given.
unfoldable pub signed_in_session : User → Bool → ℕ → Session Values → Session Values
signed_in_session user remember_me session_days s = record s {
  values = record {
    user = user;
    oidc_state = if is_empty s.values.oidc_state.state then s.values.oidc_state else no_oidc_state;
  };
  options =
      (let o = s.options in
        record o { max_age = if remember_me then pos (86400 * session_days) else pos 0 });
}

module _ (b : Backend) where
  -- What `saveCookie` does with the session that it got.
  unfoldable pub save_user : Request → User → Bool → Session Values → Result ServerError Cookie
  unfolding signed_in_session
  save_user r user remember_me s = saved_cookie (
      save b.rt b.cookie_store (signed_in_session user remember_me b.remember_session_days s) r.now
        b.rand)

  unfoldable pub save_cookie : Request → User → Bool → Result ServerError Cookie
  unfolding save_user
  save_cookie r user remember_me = get_session b r >>? save_user r user remember_me

  abbrev pub home_or_login : Result ServerError Cookie → Outcome
  home_or_login (ok c) = replied (redirect (text "/") (some c))
  home_or_login (err e) = replied (login_page msg_something_went_wrong)

  -- What `create` makes of the answer of `SignIn`. Where the method is wrong it writes a page, goes
  -- on, and reads the user of no session.
  unfoldable pub signed_in : Request → Bool → Result AuthError User → Outcome
  unfolding save_cookie
  signed_in r remember_me (ok user) = home_or_login (save_cookie r user remember_me)
  signed_in r remember_me (err invalid_login_credentials) =
      replied (login_page msg_invalid_login_credentials)
  signed_in r remember_me (err invalid_auth_method) = panicked
  signed_in r remember_me (err e) = replied (login_page msg_something_went_wrong)

  unfoldable pub create : Request → Credentials → Bool → Accounts → Outcome × Accounts
  unfolding sign_in signed_in
  create r creds remember_me a =
      (signed_in r remember_me (sign_in b.auth creds a).0, (sign_in b.auth creds a).1)

  -- `destroySession`.
  unfoldable pub destroy_session : Request → Result ServerError Cookie
  unfolding get_session
  destroy_session r = get_session b r >>? λ s. saved_cookie (
      save b.rt b.cookie_store
        (record s { options = (let o = s.options in record o { max_age = negsuc 0 }) }) r.now
        b.rand)

  abbrev pub home_or_page : Result ServerError Cookie → Outcome
  home_or_page (ok c) = replied (hx_redirect (text "/") (some c))
  home_or_page (err e) = replied (login_page [])

  unfoldable pub destroy : Request → Outcome
  unfolding destroy_session
  destroy r = home_or_page (destroy_session r)
