-- ===== src/Accounts/Created.antt =====
-- The users that `GetOrCreateUser` of internal/svc/session/session.go makes.
use warnly.Base.{
  ℕ, contains_byte, before_first, ◌+◌, ◌≡◌, refl, ap, ◌∙◌, false, Bool-cases, none, Option-cases,
  ◌∷◌, is_empty, Bytes, find?, any, Result, ok, err, and_then, ◌>>=◌, ◌⊎◌, inl, inr, ◌==◌, ◌&&◌,
}
use warnly.Db.Tables.{Membership}
use warnly.Accounts.Users.{
  User, Accounts, AuthError, U, Auth, GetOrCreateUserRequest, statement, scan_user, get_user,
  oidc_account, in_unit, ended, insert_account, create_user_oidc, add_user_to_team, clashes,
}
use warnly.Accounts.SignIn.{
  if_known, default_team_id, join_default_team, username_or_default, username_from_email,
  known_or_created, get_or_create_user,
}

-- What holds after the last of several steps, where they give a value.
and_then_last :
    {A B : Type 0} (P : B → Accounts → Type 0) (r : Result AuthError A × Accounts) (k : A → U B)
    → ((x : A) (s : Accounts) (u : B) → (k x s).0 ≡ ok u → P u (k x s).1)
    → (u : B) → (and_then r k).0 ≡ ok u
    → P u (and_then r k).1
and_then_last P (ok x, s) k last u h = last x s u h
and_then_last P (err e, s) k last u h = cc

-- What holds after two steps, from what holds after the first.
and_then_both :
    {A B : Type 0} (P Q : Accounts → Type 0)
    → ((s : Accounts) → P s → Q s)
    → (r : Result AuthError A × Accounts) (k : A → U B) → P r.1
    → ((x : A) (s : Accounts) → P s → Q (k x s).1)
    → Q (and_then r k).1
and_then_both P Q weaker (ok x, s) k now next = next x s now
and_then_both P Q weaker (err e, s) k now next = weaker s now

-- The place of a user in the default team.
abbrev pub place : ℕ → Membership
place id = record { user_id = id; team_id = default_team_id }

module _ (auth : Auth) where
  -- The user of an email.
  abbrev pub IsUser : Bytes → User → Accounts → Type 0
  IsUser email user a = scan_user (find? (λ row. auth.same row.user.email email) a.users) ≡ ok user

  get_user-IsUser :
      (email : Bytes) (a : Accounts) (u : User)
      → (get_user auth email a).0 ≡ ok u
      → IsUser email u (get_user auth email a).1
  unfolding get_user statement
  get_user-IsUser email a u h = elim (Bool-cases (auth.fails a.statements)) [
    | inl fails ↦ cc
    | inr runs ↦ rw (runs) (rw (runs) at h)
  ]

  created-IsUser :
      (req : GetOrCreateUserRequest) (a : Accounts) (u : User)
      → (known_or_created auth req none a).0 ≡ ok u
      → IsUser req.email u (known_or_created auth req none a).1
  unfolding known_or_created
  created-IsUser req a =
      and_then_last (IsUser req.email) (username_or_default req a)
        (λ username.
          in_unit auth (join_default_team auth (record req { username = username })) >>= λ _.
          get_user auth req.email)
        (λ username s.
          and_then_last (IsUser req.email)
            (in_unit auth (join_default_team auth (record req { username = username })) s)
            (λ _. get_user auth req.email) (λ _. get_user-IsUser req.email))

  get_or_create_user-IsUser :
      (req : GetOrCreateUserRequest) (a : Accounts) (u : User)
      → (get_or_create_user auth req a).0 ≡ ok u
      → IsUser req.email u (get_or_create_user auth req a).1
  unfolding get_or_create_user get_user statement if_known known_or_created
  get_or_create_user-IsUser req a u h = elim (Bool-cases (auth.fails a.statements)) [
    | inl fails ↦ cc
    | inr runs ↦ elim (Option-cases (find? (λ row. auth.same row.user.email req.email) a.users)) [
      | inl missing ↦ rw (runs, missing) (created-IsUser req _ u (rw (runs, missing) at h))
      | inr (row, known) ↦ rw (runs, known) (ap scan_user known ∙ (rw (runs, known) at h))
    ]
  ]

  -- The rows are the same.
  abbrev pub IsSame : Accounts → Accounts → Type 0
  IsSame a b = (b.users ≡ a.users) × (b.memberships ≡ a.memberships)

  known-again :
      (req : GetOrCreateUserRequest) (u : User) (b : Accounts)
      → auth.fails b.statements ≡ false
      → IsUser req.email u b
      → ((get_or_create_user auth req b).0 ≡ ok u) × IsSame b (get_or_create_user auth req b).1
  unfolding get_or_create_user get_user statement if_known known_or_created
  known-again req u b runs known = rw (runs, known) (refl, (refl, refl))

  -- A user whom `GetOrCreateUser` returned is returned again by the next call for the same email, if
  -- its statement does not fail, and no row of the users or of the members of teams changes.
  pub get_or_create_user_again :
      (req next : GetOrCreateUserRequest) (a : Accounts) (u : User)
      → (get_or_create_user auth req a).0 ≡ ok u
      → next.email ≡ req.email
      → auth.fails (get_or_create_user auth req a).1.statements ≡ false
      → ((get_or_create_user auth next (get_or_create_user auth req a).1).0 ≡ ok u)
        × IsSame
            (get_or_create_user auth req a).1
            (get_or_create_user auth next (get_or_create_user auth req a).1).1
  get_or_create_user_again req next a u h same runs =
      known-again next u (get_or_create_user auth req a).1 runs
        (rw same (get_or_create_user-IsUser req a u h))

  -- A user of OIDC with the request's email, who belongs to the default team and nobody else changed.
  abbrev pub IsJoined : GetOrCreateUserRequest → Accounts → Accounts → Type 0
  IsJoined req a b =
      (id : ℕ) × (name : Bytes) × (b.users
        ≡ oidc_account (record req { username = name }) id ∷ a.users)
      × (b.memberships ≡ place id ∷ a.memberships)

  join_default_team-IsJoined :
      (req : GetOrCreateUserRequest) (name : Bytes) (a : Accounts) (x : Unit {0})
      → (join_default_team auth (record req { username = name }) a).0 ≡ ok x
      → IsJoined req a (join_default_team auth (record req { username = name }) a).1
  unfolding join_default_team create_user_oidc insert_account add_user_to_team statement
  join_default_team-IsJoined req name a x h = elim (Bool-cases (auth.fails a.statements)) [
    | inl fails ↦ cc
    | inr runs ↦
        elim (Bool-cases (
          any (clashes auth (oidc_account (record req { username = name }) a.next_id).user)
            a.users)) [
              | inl clash ↦ cc
              | inr new ↦ elim (Bool-cases (auth.fails (a.statements + 1))) [
                | inl fails ↦ cc
                | inr runs_too ↦
                    elim (Bool-cases (
                      any
                        (λ (m : Membership). m.user_id == a.next_id && m.team_id == default_team_id)
                        a.memberships)) [
                          | inl clash ↦ cc
                          | inr alone ↦
                              rw (runs, new, runs_too, alone) (a.next_id, name, refl, refl)
                        ]
              ]
            ]
  ]

  -- The rows are the same, or a user was added and put in the default team.
  abbrev pub IsWhole : GetOrCreateUserRequest → Accounts → Accounts → Type 0
  IsWhole req a b = IsSame a b ⊎ IsJoined req a b

  ended-IsWhole :
      (req : GetOrCreateUserRequest) (a : Accounts) (r : Result AuthError (Unit {0}) × Accounts)
      → ((x : Unit {0}) → r.0 ≡ ok x → IsJoined req a r.1)
      → IsWhole req a (ended auth a r).1
  unfolding ended
  ended-IsWhole req a (err e, after) joined = inl (refl, refl)
  ended-IsWhole req a (ok x, after) joined = elim (Bool-cases (auth.fails after.statements)) [
    | inl fails ↦ rw (fails) (inl (refl, refl))
    | inr runs ↦ rw (runs) (inr (joined x refl))
  ]

  in_unit-IsWhole :
      (req : GetOrCreateUserRequest) (name : Bytes) (a : Accounts)
      → IsWhole req a (in_unit auth (join_default_team auth (record req { username = name })) a).1
  unfolding in_unit statement
  in_unit-IsWhole req name a = elim (Bool-cases (auth.fails a.statements)) [
    | inl fails ↦ rw (fails) (inl (refl, refl))
    | inr runs ↦ rw (runs) (
        ended-IsWhole req (record a { statements = a.statements + 1 }) _
          (join_default_team-IsJoined req name (record a { statements = a.statements + 1 })))
  ]

  IsSame-IsWhole :
      (req : GetOrCreateUserRequest) (a b c : Accounts)
      → IsSame a b
      → IsWhole req b c
      → IsWhole req a c
  IsSame-IsWhole req a b c (users, members) (inl (p, q)) = inl (p ∙ users, q ∙ members)
  IsSame-IsWhole req a b c (users, members) (inr (id, name, p, q)) = inr (
    id,
    name,
    p ∙ ap (λ rows. oidc_account (record req { username = name }) id ∷ rows) users,
    q ∙ ap (λ rows. place id ∷ rows) members,
  )

  IsWhole-IsSame :
      (req : GetOrCreateUserRequest) (a b c : Accounts)
      → IsWhole req a b
      → IsSame b c
      → IsWhole req a c
  IsWhole-IsSame req a b c (inl (p, q)) (users, members) = inl (users ∙ p, members ∙ q)
  IsWhole-IsSame req a b c (inr (id, name, p, q)) (users, members) =
      inr (id, name, users ∙ p, members ∙ q)

  username_or_default-state :
      (req : GetOrCreateUserRequest) (a : Accounts) → (username_or_default req a).1 ≡ a
  unfolding username_or_default username_from_email
  username_or_default-state req a = elim (Bool-cases (is_empty req.username)) [
    | inl none_given ↦ elim (Bool-cases (contains_byte b'@' req.email)) [
      | inl parts ↦ elim (Bool-cases (is_empty (before_first b'@' req.email))) [
        | inl nothing ↦ rw (none_given, parts, nothing) refl
        | inr name ↦ rw (none_given, parts, name) refl
      ]
      | inr one ↦ rw (none_given, one) refl
    ]
    | inr given ↦ rw (given) refl
  ]

  get_user-IsSame : (email : Bytes) (a : Accounts) → IsSame a (get_user auth email a).1
  unfolding get_user statement
  get_user-IsSame email a = elim (Bool-cases (auth.fails a.statements)) [
    | inl fails ↦ rw (fails) (refl, refl)
    | inr runs ↦ rw (runs) (refl, refl)
  ]

  created-IsWhole :
      (req : GetOrCreateUserRequest) (a : Accounts)
      → IsWhole req a (known_or_created auth req none a).1
  unfolding known_or_created
  created-IsWhole req a =
      and_then_both (IsSame a) (IsWhole req a) (λ s. inl) (username_or_default req a)
        (λ username.
          in_unit auth (join_default_team auth (record req { username = username })) >>= λ _.
          get_user auth req.email)
        (rw (username_or_default-state req a) (refl, refl))
        (λ username s same.
          and_then_both (IsWhole req a) (IsWhole req a) (λ s whole. whole)
            (in_unit auth (join_default_team auth (record req { username = username })) s)
            (λ _. get_user auth req.email)
            (IsSame-IsWhole req a s
              (in_unit auth (join_default_team auth (record req { username = username })) s).1 same
              (in_unit-IsWhole req username s))
            (λ x t whole.
              IsWhole-IsSame req a t (get_user auth req.email t).1 whole
                (get_user-IsSame req.email t)))

  -- Whatever fails, `GetOrCreateUser` leaves the users and the members of teams as they were, or adds
  -- one user of OIDC with the email of the request together with this user's place in the default
  -- team.
  pub get_or_create_user-IsWhole :
      (req : GetOrCreateUserRequest) (a : Accounts)
      → IsWhole req a (get_or_create_user auth req a).1
  unfolding get_or_create_user get_user statement if_known known_or_created
  get_or_create_user-IsWhole req a = elim (Bool-cases (auth.fails a.statements)) [
    | inl fails ↦ rw (fails) (inl (refl, refl))
    | inr runs ↦ elim (Option-cases (find? (λ row. auth.same row.user.email req.email) a.users)) [
      | inl missing ↦
          rw (runs, missing) (created-IsWhole req (record a { statements = a.statements + 1 }))
      | inr (row, known) ↦ rw (runs, known) (inl (refl, refl))
    ]
  ]
