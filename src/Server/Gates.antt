-- ===== src/Server/Gates.antt =====
-- Who gets through the middleware of internal/server.
use warnly.Base.{
  ◌≡◌, refl, ap, ◌∙◌, Bool, true, false, Bool-cases, none, some, List, [], ◌∷◌, if◌then◌else◌,
  Bytes, text, Result-cases, ◌⊎◌, inl, inr,
}
use warnly.Session.Cookie.{SecureCookie}
use warnly.Accounts.Users.{User}
use warnly.Server.Web.{
  Request, Context, hx_redirect, server_error, forbidden, nothing, replied, Handler, Backend,
}
use warnly.Server.Auth.{
  get_user, to_login, with_user, authenticate, recovered, recover, chain_without_auth, email_match,
  chain,
}
use warnly.Server.Sessions.{IsVouched, get_user-IsVouched}

module _ (b : Backend) where
  chain-open :
      (handler : Handler) (ctx : Context)
      → b.email_matches ≡ []
      → b.allows ctx.request ≡ true
      → chain b handler ctx
        ≡ recovered b ctx.request (with_user b handler ctx (get_user b ctx.request))
  unfolding chain chain_without_auth recover authenticate
  chain-open handler ctx open_door allowed = rw (open_door, allowed) refl

  chain_denied :
      (handler : Handler) (ctx : Context)
      → b.allows ctx.request ≡ false
      → chain b handler ctx ≡ replied forbidden
  unfolding chain chain_without_auth
  chain_denied handler ctx denied = rw (denied) refl

  -- Where no emails are set, a protected handler is called only for a request whose cookie the
  -- codec signed and which is in date, and with the user of that cookie; any other request is
  -- turned away as forbidden, or is sent to the login page.
  pub chain-IsVouched :
      (c : SecureCookie)
      → b.cookie_store.codecs ≡ c ∷ []
      → b.email_matches ≡ []
      → (handler : Handler) (ctx : Context)
      → (chain b handler ctx ≡ replied forbidden)
        ⊎ ((chain b handler ctx ≡ to_login ctx.request)
            ⊎ ((user : User) × IsVouched b c ctx.request user
                × (chain b handler ctx
                    ≡ recovered b ctx.request (handler (record ctx { user = some user })))))
  chain-IsVouched c one_codec open_door handler ctx = elim (Bool-cases (b.allows ctx.request)) [
    | inr denied ↦ inl (chain_denied handler ctx denied)
    | inl allowed ↦ elim (Result-cases (get_user b ctx.request)) [
      | inr (e, unknown) ↦ inr (
          inl (
            chain-open handler ctx open_door allowed
            ∙ ap (λ u. recovered b ctx.request (with_user b handler ctx u)) unknown))
      | inl (user, known) ↦ inr (
          inr (
            user,
            get_user-IsVouched b c one_codec ctx.request user known,
            chain-open handler ctx open_door allowed
                ∙ ap (λ u. recovered b ctx.request (with_user b handler ctx u)) known,
          ))
    ]
  ]

  -- Where allowed emails are set, the test of the email stands before the authentication and
  -- panics, so no request that the protection against cross-origin requests lets through comes to
  -- anything, whatever its cookie and whatever the handler: it is answered with the page of a
  -- server error, with a redirect to /error where it is of htmx, and with nothing where it is an
  -- upgrade.
  pub chain_restricted :
      (m : Bytes → Bool) (ms : List (Bytes → Bool))
      → b.email_matches ≡ m ∷ ms
      → (handler : Handler) (r : Request) → b.allows r ≡ true
      → chain b handler (record { request = r; user = none })
        ≡ replied (
            if r.upgrade
            then nothing
            else (if r.htmx then hx_redirect (text "/error") none else server_error))
  unfolding chain chain_without_auth recover email_match
  chain_restricted m ms set handler r allowed = rw (set, allowed) refl
