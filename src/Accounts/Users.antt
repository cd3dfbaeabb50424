-- ===== src/Accounts/Users.antt =====
-- The table of users: internal/mysql/user.go and session.go, with `AddUserToTeam` of
-- internal/mysql/team.go and the unit of work of internal/mysql/uow.go around them.
use warnly.Base.{
  ℕ, ◌+◌, Bool, true, false, ◌||◌, ◌&&◌, ◌==◌, Option, none, some, List, [], ◌∷◌, if◌then◌else◌,
  Bytes, text, find?, any, Result, ok, err, Action,
}
use warnly.Db.Tables.{Membership}

pub data AuthMethod : Type 0 where
  internal oidc : AuthMethod

pub record User : Type 0 where
  pub id : ℕ
  pub email : Bytes
  pub name : Bytes
  pub surname : Bytes
  pub username : Bytes
  pub auth_method : AuthMethod

-- A row: a user with the password's hash, which may be NULL.
pub record Account : Type 0 where
  pub user : User
  pub password : Option Bytes

pub record Accounts : Type 0 where
  pub users : List Account
  pub memberships : List Membership
  pub next_id : ℕ
  pub statements : ℕ

pub data AuthError : Type 0 where
  query_failed no_user taken invalid_login_credentials invalid_auth_method invalid_email : AuthError
  bad_hash no_hash : AuthError

abbrev pub U : Type 0 → Type 0
U A = Action Accounts AuthError A

-- What `bcrypt.CompareHashAndPassword` answers.
pub data Comparison : Type 0 where
  matches mismatched refused : Comparison

-- `fails` says which statements fail, `same` which texts MySQL's collation takes for equal;
-- `compare` and `generate` are of bcrypt.
pub record Auth : Type 0 where
  pub fails : ℕ → Bool
  pub same : Bytes → Bytes → Bool
  pub compare : Bytes → Bytes → Comparison
  pub generate : Bytes → Option Bytes

pub record UserIdentifier : Type 0 where
  pub value : Bytes
  pub is_email : Bool

pub record GetOrCreateUserRequest : Type 0 where
  pub email : Bytes
  pub username : Bytes
  pub name : Bytes
  pub surname : Bytes

abbrev pub scan_user : Option Account → Result AuthError User
scan_user none = err no_user
scan_user (some row) = ok row.user

-- NULL is scanned as no bytes.
abbrev pub or_nil : Option Bytes → Bytes
or_nil none = []
or_nil (some hash) = hash

abbrev pub scan_password : Option Account → Result AuthError Bytes
scan_password none = err no_user
scan_password (some row) = ok (or_nil row.password)

abbrev pub inserted : Bool → Account → Accounts → Result AuthError ℕ × Accounts
inserted true row a = (err taken, record a { next_id = a.next_id + 1 })
inserted false row a = (ok a.next_id, record a { users = row ∷ a.users; next_id = a.next_id + 1 })

-- The row that `CreateUserOIDC` inserts.
abbrev pub oidc_account : GetOrCreateUserRequest → ℕ → Account
oidc_account r id = record {
  user = record {
    id = id;
    email = r.email;
    name = r.name;
    surname = r.surname;
    username = r.username;
    auth_method = oidc;
  };
  password = none;
}

abbrev pub joined_team : Bool → ℕ → ℕ → Accounts → Result AuthError (Unit {0}) × Accounts
joined_team true user_id team_id a = (err taken, a)
joined_team false user_id team_id a = (
  ok tt,
  record a { memberships = record { user_id = user_id; team_id = team_id } ∷ a.memberships },
)

-- The rows of before, with the numbers and statements that were used up.
abbrev pub rolled_back : Accounts → Accounts → Accounts
rolled_back before after = record after { users = before.users; memberships = before.memberships }

module _ (auth : Auth) where
  unfoldable pub statement : {A : Type 0} → U A → U A
  statement run a =
      if auth.fails a.statements
      then (err query_failed, record a { statements = a.statements + 1 })
      else run (record a { statements = a.statements + 1 })

  unfoldable pub get_user : Bytes → U User
  unfolding statement
  get_user email =
      statement λ a. (scan_user (find? (λ row. auth.same row.user.email email) a.users), a)

  -- The `WHERE` of an identifier.
  unfoldable pub is_called : UserIdentifier → Account → Bool
  is_called identifier row =
      auth.same (if identifier.is_email then row.user.email else row.user.username) identifier.value

  unfoldable pub get_user_by_identifier : UserIdentifier → U User
  unfolding statement is_called
  get_user_by_identifier identifier =
      statement λ a. (scan_user (find? (is_called identifier) a.users), a)

  unfoldable pub get_hashed_password_by_identifier : UserIdentifier → U Bytes
  unfolding statement is_called
  get_hashed_password_by_identifier identifier =
      statement λ a. (scan_password (find? (is_called identifier) a.users), a)

  -- Emails and usernames are unique keys.
  unfoldable pub clashes : User → Account → Bool
  clashes user row =
      auth.same row.user.email user.email || auth.same row.user.username user.username

  unfoldable pub insert_account : (ℕ → Account) → U ℕ
  unfolding statement clashes
  insert_account make =
      statement λ a. inserted (any (clashes (make a.next_id).user) a.users) (make a.next_id) a

  unfoldable pub create_user : Bytes → Bytes → Bytes → U ℕ
  create_user email username hashed_password = insert_account λ id. record {
    user = record {
      id = id;
      email = email;
      name = text "John";
      surname = text "Doe";
      username = username;
      auth_method = internal;
    };
    password = some hashed_password;
  }

  unfoldable pub create_user_oidc : GetOrCreateUserRequest → U ℕ
  unfolding insert_account
  create_user_oidc r = insert_account (oidc_account r)

  -- A user and a team are a unique key.
  unfoldable pub add_user_to_team : ℕ → ℕ → U (Unit {0})
  unfolding statement
  add_user_to_team user_id team_id = statement λ a.
      joined_team
        (any (λ (m : Membership). m.user_id == user_id && m.team_id == team_id) a.memberships)
        user_id team_id a

  -- A transaction in which every statement takes part: it commits, or it is rolled back.
  unfoldable pub ended :
      {A : Type 0} → Accounts → Result AuthError A × Accounts → Result AuthError A × Accounts
  ended before (err e, after) = (err e, rolled_back before after)
  ended before (ok x, after) =
      if auth.fails after.statements
      then (
        err query_failed,
        rolled_back before (record after { statements = after.statements + 1 }),
      )
      else (ok x, record after { statements = after.statements + 1 })

  unfoldable pub in_unit : {A : Type 0} → U A → U A
  unfolding statement ended
  in_unit body = statement λ a. ended a (body a)
