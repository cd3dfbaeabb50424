-- ===== src/Server/Web.antt =====
-- Requests and replies of internal/server, and what its handlers are built from.
use warnly.Base.{ℕ, Bool, Option, List, Bytes}
use warnly.Base.Int.{ℤ}
use warnly.Session.Runtime.{Runtime}
use warnly.Session.Store.{Cookie, CookieStore}
use warnly.Accounts.Users.{User, Auth}

-- The fields of `OIDCState` of internal/warnly/user.go.
pub record OidcState : Type 0 where
  pub state : Bytes
  pub nonce : Bytes
  pub code_verifier : Bytes
  pub scopes : List Bytes

-- `Values` of internal/session/session.go.
pub record Values : Type 0 where
  pub user : User
  pub oidc_state : OidcState

-- What the handlers read of a request: the cookie `session`, whether the header of htmx is set, and
-- whether the header `Connection` is "Upgrade"; `now` is the time in Unix seconds.
pub record Request : Type 0 where
  pub cookie : Option Bytes
  pub htmx : Bool
  pub upgrade : Bool
  pub now : ℤ

-- A request with the user that a middleware put into its context.
pub record Context : Type 0 where
  pub request : Request
  pub user : Option User

-- A page by its name and message.
pub data Reply : Type 0 where
  redirect : Bytes → Option Cookie → Reply
  hx_redirect : Bytes → Option Cookie → Reply
  login_page : Bytes → Reply
  server_error forbidden nothing : Reply
  status : ℕ → Bytes → Reply

-- How a handler ends: with a reply, or by a panic, that of `http.ErrAbortHandler` or another.
pub data Outcome : Type 0 where
  replied : Reply → Outcome
  aborted panicked : Outcome

abbrev pub Handler : Type 0
Handler = Context → Outcome

-- `rand` is what the codecs draw for a cookie; `matches_email` has the compiled patterns of
-- allowed emails; `allows` is `http.CrossOriginProtection`.
pub record Backend : Type 0 where
  pub rt : Runtime Values
  pub cookie_store : CookieStore
  pub auth : Auth
  pub rand : ℕ → Option Bytes
  pub remember_session_days : ℕ
  pub email_matches : List (Bytes → Bool)
  pub allows : Request → Bool
