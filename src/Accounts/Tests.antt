-- ===== src/Accounts/Tests.antt =====
-- The theorems on users at one user who signs in and one who is made.
use warnly.Base.{◌≡◌, refl, false, some, [], ◌∷◌, Bytes, text, ok, bytes_eq, if◌then◌else◌}
use warnly.Accounts.Users.{
  internal, oidc, User, Accounts, Auth, matches, mismatched, GetOrCreateUserRequest,
}
use warnly.Accounts.SignIn.{Credentials, get_or_create_user}
use warnly.Accounts.Created.{IsSame, IsWhole, get_or_create_user-IsWhole, get_or_create_user_again}

abbrev auth : Auth
auth = record {
  fails = λ n. false;
  same = bytes_eq;
  compare = λ hash password. if bytes_eq hash password then matches else mismatched;
  generate = λ password. some password;
}

abbrev ann : User
ann = record {
  id = 4;
  email = text "ann@x.org";
  name = text "Ann";
  surname = text "Lee";
  username = text "ann";
  auth_method = internal;
}

abbrev accounts : Accounts
accounts = record {
  users = record { user = ann; password = some (text "secret") } ∷ [];
  memberships = [];
  next_id = 5;
  statements = 0;
}

abbrev credentials : Credentials
credentials = record { identifier = text "ann@x.org"; password = text "secret" }

abbrev request : Bytes → GetOrCreateUserRequest
request username = record {
  email = text "bob@x.org";
  username = username;
  name = text "Bob";
  surname = text "Fox";
}

get_or_create_user-IsWhole_example :
    IsWhole auth (request []) accounts (get_or_create_user auth (request []) accounts).1
get_or_create_user-IsWhole_example = get_or_create_user-IsWhole auth (request []) accounts

abbrev bob : User
bob = record {
  id = 5;
  email = text "bob@x.org";
  name = text "Bob";
  surname = text "Fox";
  username = text "bob";
  auth_method = oidc;
}

made : (get_or_create_user auth (request []) accounts).0 ≡ ok bob
unfolding get_or_create_user
made = refl

get_or_create_user_again_example :
    ((get_or_create_user auth
        (request (text "b"))
        (get_or_create_user auth (request []) accounts).1).0
      ≡ ok bob)
    × IsSame auth
        (get_or_create_user auth (request []) accounts).1
        (get_or_create_user auth
          (request (text "b"))
          (get_or_create_user auth (request []) accounts).1).1
get_or_create_user_again_example =
    get_or_create_user_again auth (request []) (request (text "b")) accounts bob made refl refl
