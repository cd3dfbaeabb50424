-- ===== src/Accounts/SignIn.antt =====
-- internal/svc/session/session.go: signing in, and the users that are made on the way.
use warnly.Base.{
  ℕ, Option, none, some, if◌then◌else◌, Bytes, is_empty, contains_byte, before_first, Result, ok,
  err, pure, fail, ◌>>=◌, ◌>>◌,
}
use warnly.Accounts.Users.{
  AuthMethod, internal, oidc, User, Accounts, AuthError, no_user, invalid_login_credentials,
  invalid_auth_method, invalid_email, bad_hash, no_hash, U, Comparison, matches, mismatched,
  refused, Auth, UserIdentifier, GetOrCreateUserRequest, get_user, get_user_by_identifier,
  get_hashed_password_by_identifier, create_user, create_user_oidc, add_user_to_team, in_unit,
}

-- The fields of the credentials that the service reads.
pub record Credentials : Type 0 where
  pub identifier : Bytes
  pub password : Bytes

unfoldable pub username_from_email : Bytes → U Bytes
username_from_email email =
    if contains_byte b'@' email
    then (if is_empty (before_first b'@' email)
        then fail invalid_email
        else pure (before_first b'@' email))
    else fail invalid_email

-- A user who is not there shows as wrong credentials.
unfoldable pub hide_missing :
    {A : Type 0} → Result AuthError A × Accounts → Result AuthError A × Accounts
hide_missing (ok x, a) = (ok x, a)
hide_missing (err no_user, a) = (err invalid_login_credentials, a)
hide_missing (err e, a) = (err e, a)

-- `nil` for a user who is not there.
unfoldable pub if_known :
    Result AuthError User × Accounts → Result AuthError (Option User) × Accounts
if_known (ok u, a) = (ok (some u), a)
if_known (err no_user, a) = (ok none, a)
if_known (err e, a) = (err e, a)

unfoldable pub identifier_of : Credentials → UserIdentifier
identifier_of creds = record {
  value = creds.identifier;
  is_email = contains_byte b'@' creds.identifier;
}

abbrev pub compared : Comparison → User → U User
compared matches user = pure user
compared mismatched user = fail invalid_login_credentials
compared refused user = fail bad_hash

abbrev pub hash_of : Option Bytes → U Bytes
hash_of none = fail no_hash
hash_of (some hash) = pure hash

abbrev pub default_team_id : ℕ
default_team_id = 1

unfoldable pub username_or_default : GetOrCreateUserRequest → U Bytes
unfolding username_from_email
username_or_default req =
    if is_empty req.username then username_from_email req.email else pure req.username

module _ (auth : Auth) where
  -- What is left of `SignIn` once the user is found.
  unfoldable pub check_password : Credentials → User → AuthMethod → U User
  unfolding hide_missing get_hashed_password_by_identifier identifier_of
  check_password creds user oidc = fail invalid_auth_method
  check_password creds user internal =
      (λ a. hide_missing (get_hashed_password_by_identifier auth (identifier_of creds) a))
      >>= λ hashed. compared (auth.compare hashed creds.password) user

  unfoldable pub sign_in : Credentials → U User
  unfolding hide_missing get_user_by_identifier identifier_of check_password
  sign_in creds =
      (λ a. hide_missing (get_user_by_identifier auth (identifier_of creds) a)) >>= λ user.
      check_password creds user user.auth_method

  unfoldable pub create_missing : Bytes → Bytes → Option User → U (Unit {0})
  unfolding create_user username_from_email
  create_missing email password (some user) = pure tt
  create_missing email password none = do
    hashed_password ← hash_of (auth.generate password)
    username ← username_from_email email
    _ ← create_user auth email username hashed_password
    pure tt

  unfoldable pub create_user_if_not_exists : Bytes → Bytes → U (Unit {0})
  unfolding if_known get_user create_missing
  create_user_if_not_exists email password =
      (λ a. if_known (get_user auth email a)) >>= create_missing email password

  -- The unit of work.
  unfoldable pub join_default_team : GetOrCreateUserRequest → U (Unit {0})
  unfolding create_user_oidc add_user_to_team
  join_default_team req =
      create_user_oidc auth req >>= λ user_id. add_user_to_team auth user_id default_team_id

  unfoldable pub known_or_created : GetOrCreateUserRequest → Option User → U User
  unfolding username_or_default in_unit join_default_team get_user
  known_or_created req (some user) = pure user
  known_or_created req none = do
    username ← username_or_default req
    in_unit auth (join_default_team (record req { username = username }))
    get_user auth req.email

  unfoldable pub get_or_create_user : GetOrCreateUserRequest → U User
  unfolding if_known get_user known_or_created
  get_or_create_user req = (λ a. if_known (get_user auth req.email a)) >>= known_or_created req
