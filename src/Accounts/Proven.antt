-- ===== src/Accounts/Proven.antt =====
-- Who may sign in, by `SignIn` and `GetOrCreateUser` of internal/svc/session/session.go.
use warnly.Base.{
  false, ◌+◌, ◌≡◌, refl, sym, ap, ◌∙◌, true, Bool-cases, Option, none, some, Option-cases, find?,
  Result, ok, err, ◌⊎◌, inl, inr,
}
use warnly.Accounts.Users.{
  AuthMethod, internal, oidc, User, Account, Accounts, AuthError, Comparison, matches, mismatched,
  refused, Auth, query_failed, invalid_login_credentials, invalid_auth_method, bad_hash, or_nil,
  statement, is_called, get_user_by_identifier, get_hashed_password_by_identifier,
}
use warnly.Accounts.SignIn.{
  Credentials, hide_missing, identifier_of, compared, check_password, sign_in,
}

module _ (auth : Auth) where
  -- The row of an identifier.
  abbrev pub found : Credentials → Accounts → Option Account
  found creds a = find? (is_called auth (identifier_of creds)) a.users

  compared-users : (c : Comparison) (user : User) (b : Accounts) → (compared c user b).1 ≡ b
  compared-users matches user b = refl
  compared-users mismatched user b = refl
  compared-users refused user b = refl

  check_password-users :
      (creds : Credentials) (user : User) (method : AuthMethod) (b : Accounts)
      → (check_password auth creds user method b).1.users ≡ b.users
  unfolding check_password get_hashed_password_by_identifier statement hide_missing
  check_password-users creds user oidc b = refl
  check_password-users creds user internal b = elim (Bool-cases (auth.fails b.statements)) [
    | inl fails ↦ rw (fails) refl
    | inr runs ↦ elim (Option-cases (find? (is_called auth (identifier_of creds)) b.users)) [
      | inl missing ↦ rw (runs, missing) refl
      | inr (row, known) ↦
          rw (runs, known)
            (ap (λ (c : Accounts). c.users)
              (compared-users (auth.compare (or_nil row.password) creds.password) user _))
    ]
  ]

  -- What each answer says of the rows: a session is given to the user of the identifier, who has a
  -- password and knows it; wrong credentials are those of nobody, or with another password.
  abbrev pub IsProven : Credentials → Accounts → Result AuthError User → Type 0
  IsProven creds a (ok user) =
      (row : Account) × (found creds a ≡ some row)
      × (user ≡ row.user)
      × (user.auth_method ≡ internal)
      × (auth.compare (or_nil row.password) creds.password ≡ matches)
  IsProven creds a (err invalid_login_credentials) =
      (found creds a ≡ none)
      ⊎ ((row : Account) × (found creds a ≡ some row)
          × (row.user.auth_method ≡ internal)
          × (auth.compare (or_nil row.password) creds.password ≡ mismatched))
  IsProven creds a (err invalid_auth_method) =
      (row : Account) × (found creds a ≡ some row) × (row.user.auth_method ≡ oidc)
  IsProven creds a (err bad_hash) =
      (row : Account) × (found creds a ≡ some row)
      × (row.user.auth_method ≡ internal)
      × (auth.compare (or_nil row.password) creds.password ≡ refused)
  IsProven creds a (err query_failed) =
      (auth.fails a.statements ≡ true) ⊎ (auth.fails (a.statements + 1) ≡ true)
  IsProven creds a (err _) = ⊥

  compared-IsProven :
      (creds : Credentials) (a b : Accounts) (row : Account)
      → found creds a ≡ some row
      → row.user.auth_method ≡ internal
      → (c : Comparison) → auth.compare (or_nil row.password) creds.password ≡ c
      → IsProven creds a (compared c row.user b).0
  compared-IsProven creds a b row known own matches h = (row, known, refl, own, h)
  compared-IsProven creds a b row known own mismatched h = inr (row, known, own, h)
  compared-IsProven creds a b row known own refused h = (row, known, own, h)

  check_password-IsProven :
      (creds : Credentials) (a b : Accounts) (row : Account)
      → found creds a ≡ some row
      → b.users ≡ a.users
      → b.statements ≡ a.statements + 1
      → (method : AuthMethod) → row.user.auth_method ≡ method
      → IsProven creds a (check_password auth creds row.user method b).0
  unfolding check_password get_hashed_password_by_identifier statement hide_missing
  check_password-IsProven creds a b row known same next oidc h = (row, known, h)
  check_password-IsProven creds a b row known same next internal h =
      elim (Bool-cases (auth.fails b.statements)) [
        | inl fails ↦ rw (fails) (inr (ap auth.fails (sym next) ∙ fails))
        | inr runs ↦ rw (runs, same, known) (compared-IsProven creds a _ row known h _ refl)
      ]

  pub sign_in-IsProven :
      (creds : Credentials) (a : Accounts)
      → IsProven creds a (sign_in auth creds a).0 × ((sign_in auth creds a).1.users ≡ a.users)
  unfolding sign_in get_user_by_identifier statement hide_missing
  sign_in-IsProven creds a = elim (Bool-cases (auth.fails a.statements)) [
    | inl fails ↦ rw (fails) (inl fails, refl)
    | inr runs ↦ elim (Option-cases (found creds a)) [
      | inl missing ↦ rw (runs, missing) (inl missing, refl)
      | inr (row, known) ↦
          rw (runs, known)
            (
              check_password-IsProven creds a _ row known refl refl _ refl,
              check_password-users creds row.user row.user.auth_method _,
            )
    ]
  ]

  -- A user of OIDC is turned away, whatever the password.
  pub sign_in-oidc :
      (creds : Credentials) (a : Accounts) (row : Account)
      → found creds a ≡ some row
      → row.user.auth_method ≡ oidc
      → auth.fails a.statements ≡ false
      → (sign_in auth creds a).0 ≡ err invalid_auth_method
  unfolding sign_in get_user_by_identifier statement hide_missing check_password
  sign_in-oidc creds a row known by_oidc runs = rw (runs, known, by_oidc) refl
