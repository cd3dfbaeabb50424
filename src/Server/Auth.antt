-- ===== src/Server/Auth.antt =====
-- internal/server/auth.go, middleware.go, recoverer.go and the chains of route.go.
use warnly.Base.{
  ◌==◌, Bool, Option, none, some, List, [], ◌∷◌, if◌then◌else◌, Bytes, text, any, Result, ok, err,
  ◌>>?◌,
}
use warnly.Session.Cookie.{Error}
use warnly.Session.Store.{Session, SessionInfo, new_session, get}
use warnly.Accounts.Users.{User, internal}
use warnly.Server.Web.{
  OidcState, Values, Request, Context, redirect, hx_redirect, server_error, forbidden, nothing,
  Outcome, replied, aborted, panicked, Handler, Backend,
}

-- The zero `Values`. No method is the empty text; nothing reads the method of such a user.
abbrev pub zero_user : User
zero_user = record {
  id = 0;
  email = [];
  name = [];
  surname = [];
  username = [];
  auth_method = internal;
}

abbrev pub no_oidc_state : OidcState
no_oidc_state = record { state = []; nonce = []; code_verifier = []; scopes = [] }

abbrev pub zero_values : Values
zero_values = record { user = zero_user; oidc_state = no_oidc_state }

abbrev pub session_id : Bytes
session_id = text "session"

-- A failure, of the handlers, the session or of the handlers' own tests.
pub data ServerError : Type 0 where
  session : Error → ServerError
  no_user : ServerError

abbrev pub loaded_session : Result Error (SessionInfo Values) → Result ServerError (Session Values)
loaded_session (err e) = err (session e)
loaded_session (ok (s, none)) = ok s
loaded_session (ok (s, some e)) = err (session e)

-- The reply that sends a client to the login page.
abbrev pub to_login : Request → Outcome
to_login r =
    replied (if r.htmx then hx_redirect (text "/login") none else redirect (text "/login") none)

module _ (b : Backend) where
  -- `CookieStore.Get` of the session, the first of the request.
  unfoldable pub get_session : Request → Result ServerError (Session Values)
  unfolding get new_session
  get_session r =
      loaded_session
        (get (λ name. new_session b.rt b.cookie_store zero_values r.cookie name r.now) session_id
          []).0

  abbrev pub user_of : Session Values → Result ServerError User
  user_of s = if s.values.user.id == 0 then err no_user else ok s.values.user

  -- `authMw.getUser`.
  unfoldable pub get_user : Request → Result ServerError User
  unfolding get_session
  get_user r = get_session r >>? user_of

  abbrev pub with_user : Handler → Context → Result ServerError User → Outcome
  with_user handler ctx (err e) = to_login ctx.request
  with_user handler ctx (ok user) = handler (record ctx { user = some user })

  unfoldable pub authenticate : Handler → Handler
  unfolding get_user
  authenticate handler ctx = with_user handler ctx (get_user ctx.request)

  -- The user is asserted to be in the context, which panics where it is not.
  abbrev pub with_allowed : Handler → Context → Option User → Outcome
  with_allowed handler ctx none = panicked
  with_allowed handler ctx (some user) =
      if any (λ matches. matches user.email) b.email_matches
      then handler ctx
      else to_login ctx.request

  unfoldable pub email_match : Handler → Handler
  email_match handler ctx = with_allowed handler ctx ctx.user

  abbrev pub recovered : Request → Outcome → Outcome
  recovered r (replied reply) = replied reply
  recovered r aborted = aborted
  recovered r panicked = replied (
      if r.upgrade
      then nothing
      else (if r.htmx then hx_redirect (text "/error") none else server_error))

  unfoldable pub recover : Handler → Handler
  recover handler ctx = recovered ctx.request (handler ctx)

  -- The measuring of latencies passes every outcome on.
  unfoldable pub chain_without_auth : Handler → Handler
  unfolding recover
  chain_without_auth handler ctx =
      if b.allows ctx.request then recover handler ctx else replied forbidden

  abbrev pub if_restricted : List (Bytes → Bool) → Handler → Handler
  unfolding email_match
  if_restricted [] handler = handler
  if_restricted (m ∷ ms) handler = email_match handler

  unfoldable pub chain : Handler → Handler
  unfolding authenticate chain_without_auth if_restricted
  chain handler = chain_without_auth (if_restricted b.email_matches (authenticate handler))
