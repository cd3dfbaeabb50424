-- ===== src/Server/Tests.antt =====
-- The theorems on the server at one user who signs in with a password and one who may not.
use warnly.Base.{
  ℕ, zero, suc, ◌≡◌, ◌⊎◌, refl, ap, ap₂, subst, ◌∙◌, Bool, true, false, Option, none, some, List,
  [], ◌∷◌, ◌++◌, if◌then◌else◌, ◌==◌, Bytes, text, bytes_eq, length, take, drop, take-append,
  drop-append, Result, ok, err, arith,
}
use warnly.Base.Int.{pos}
use warnly.Session.Toy.{toy_runtime, toy_runtime-Laws}
use warnly.Session.Cookie.{
  SecureCookie, encode, decode, encode_with, encrypt_if, check_length, seal, dated, opened,
  split_and_verify, split3,
}
use warnly.Session.Name.{is_cookie_name_valid, is_not_token, is_token}
use warnly.Session.Store.{lax, Session, Cookie, save, new_cookie, new_session, get, lookup}
use warnly.Accounts.Users.{
  AuthMethod, internal, oidc, User, Account, Accounts, matches, mismatched, is_called,
}
use warnly.Accounts.SignIn.{Credentials, sign_in, identifier_of}
use warnly.Accounts.Proven.{IsProven, found}
use warnly.Server.Web.{
  Values, Request, Context, redirect, login_page, server_error, forbidden, nothing, Outcome,
  replied, panicked, Handler, Backend,
}
use warnly.Server.Auth.{
  zero_user, ServerError, get_session, to_login, authenticate, recovered, chain,
}
use warnly.Server.Login.{create, msg_something_went_wrong, msg_invalid_login_credentials}
use warnly.Server.Sessions.{IsVouched}
use warnly.Server.Gates.{chain-IsVouched, chain_restricted}
use warnly.Server.SignedIn.{create-authenticate, create_oidc, create_stale}

-- Values as bytes: each text behind its length.
abbrev put_all : List Bytes → Bytes
put_all [] = []
put_all (t ∷ ts) = length t ∷ (t ++ put_all ts)

abbrev take_all : ℕ → Bytes → List Bytes
take_all zero bytes = []
take_all (suc n) [] = []
take_all (suc n) (k ∷ bytes) = take k bytes ∷ take_all n (drop k bytes)

take_all-put_all : (ts : List Bytes) → take_all (length ts) (put_all ts) ≡ ts
take_all-put_all [] = refl
take_all-put_all (t ∷ ts) =
    ap₂ (λ (head : Bytes) (rest : List Bytes). head ∷ rest) (take-append t (put_all ts))
      (ap (take_all (length ts)) (drop-append t (put_all ts)) ∙ take_all-put_all ts)

abbrev method_code : AuthMethod → Bytes
method_code internal = 0 ∷ []
method_code oidc = 1 ∷ []

abbrev method_of : Bytes → AuthMethod
method_of (zero ∷ rest) = internal
method_of other = oidc

method_of-code : (m : AuthMethod) → method_of (method_code m) ≡ m
method_of-code internal = refl
method_of-code oidc = refl

abbrev number_of : Bytes → ℕ
number_of [] = 0
number_of (n ∷ rest) = n

abbrev texts : Values → List Bytes
texts v =
    (v.user.id ∷ [])
    ∷ method_code v.user.auth_method
    ∷ v.user.email
    ∷ v.user.name
    ∷ v.user.surname
    ∷ v.user.username
    ∷ v.oidc_state.state
    ∷ v.oidc_state.nonce
    ∷ v.oidc_state.code_verifier
    ∷ v.oidc_state.scopes

abbrev from_texts : List Bytes → Values
from_texts (id ∷ m ∷ email ∷ name ∷ surname ∷ username ∷ state ∷ nonce ∷ verifier ∷ scopes) =
    record {
      user = record {
        id = number_of id;
        email = email;
        name = name;
        surname = surname;
        username = username;
        auth_method = method_of m;
      };
      oidc_state = record {
        state = state;
        nonce = nonce;
        code_verifier = verifier;
        scopes = scopes;
      };
    }
from_texts other = record {
  user = zero_user;
  oidc_state = record { state = []; nonce = []; code_verifier = []; scopes = [] };
}

abbrev write : Values → Bytes
write v = length (texts v) ∷ put_all (texts v)

abbrev read : Bytes → Values
read [] = from_texts []
read (n ∷ bytes) = from_texts (take_all n bytes)

read-write : (v : Values) → read (write v) ≡ v
read-write v =
    ap from_texts (take_all-put_all (texts v))
    ∙ ap
        (λ (m : AuthMethod).
          (let user = v.user in
            let whole : Values = record v { user = record user { auth_method = m } } in whole))
        (method_of-code v.user.auth_method)

abbrev codec : SecureCookie
codec = record {
  err_field = none;
  block = none;
  hash_key = some (text "secret");
  block_key = none;
  max_length = 4096;
  max_age = pos 100;
  min_age = pos 0;
}

abbrev backend : List (Bytes → Bool) → Backend
backend patterns = record {
  rt = toy_runtime write read;
  cookie_store = record {
    options = record {
      path = text "/";
      domain = [];
      max_age = pos 100;
      secure = true;
      http_only = true;
      partitioned = false;
      same_site = lax;
    };
    codecs = codec ∷ [];
  };
  auth = record {
    fails = λ n. false;
    same = bytes_eq;
    compare = λ hash password. if bytes_eq hash password then matches else mismatched;
    generate = λ password. some password;
  };
  rand = λ n. some (3 ∷ 4 ∷ []);
  remember_session_days = 30;
  email_matches = patterns;
  allows = λ r. true;
}

abbrev ann : User
ann = record {
  id = 4;
  email = text "ann@x.org";
  name = text "Ann";
  surname = text "Lee";
  username = text "ann";
  auth_method = internal;
}

abbrev row_of : User → Account
row_of user = record { user = user; password = some (text "secret") }

abbrev accounts : User → Accounts
accounts user = record { users = row_of user ∷ []; memberships = []; next_id = 5; statements = 0 }

abbrev credentials : Credentials
credentials = record { identifier = text "ann@x.org"; password = text "secret" }

abbrev request : Option Bytes → ℕ → Request
request cookie now = record { cookie = cookie; htmx = false; upgrade = false; now = pos now }

abbrev cookie_in : Outcome → Cookie
cookie_in (replied (redirect path (some c))) = c
cookie_in other = new_cookie [] [] (backend []).cookie_store.options (pos 0)

session_cookie : Cookie
unfolding create get_session sign_in encode encode_with encrypt_if check_length seal dated save
    new_session get
session_cookie =
    cookie_in (create (backend []) (request none 1000) credentials false (accounts ann)).0

made :
    (create (backend []) (request none 1000) credentials false (accounts ann)).0
    ≡ replied (redirect (text "/") (some session_cookie))
unfolding session_cookie create get_session sign_in encode encode_with encrypt_if check_length seal
    dated save new_session get lookup is_cookie_name_valid is_not_token is_token
made = refl

abbrev handler : Handler
handler ctx = replied (if true then server_error else nothing)

first_row : {row : Account} → some (row_of ann) ≡ some row → row_of ann ≡ row
first_row h = cc

ann_numbered :
    (row : Account)
    → found (backend []).auth credentials (accounts ann) ≡ some row
    → (row.user.id == 0) ≡ false
unfolding is_called identifier_of
ann_numbered row h = subst (λ (r : Account). (r.user.id == 0) ≡ false) (first_row h) refl

create-authenticate_example :
    (user : User) × IsProven (backend []).auth credentials (accounts ann) (ok user)
    × (authenticate
          (backend [])
          handler
          (record { request = request (some session_cookie.value) 1050; user = none })
        ≡ handler (record { request = request (some session_cookie.value) 1050; user = some user }))
create-authenticate_example =
    create-authenticate (backend []) (toy_runtime-Laws write read read-write) codec refl refl 100
      refl (3 ∷ 4 ∷ []) (λ k h. refl) refl 1000 1050 (omega arith) (omega arith) (omega arith)
      (omega arith) credentials false (accounts ann) ann_numbered (request none 1000) session_cookie
      refl made (request (some session_cookie.value) 1050) handler refl refl

chain-IsVouched_example :
    let ctx : Context = record {
      request = request (some session_cookie.value) 1050;
      user = none;
    } in
    (chain (backend []) handler ctx ≡ replied forbidden)
    ⊎ ((chain (backend []) handler ctx ≡ to_login ctx.request)
        ⊎ ((user : User) × IsVouched (backend []) codec ctx.request user
            × (chain (backend []) handler ctx
                ≡ recovered (backend []) ctx.request (handler (record ctx { user = some user })))))
chain-IsVouched_example =
    chain-IsVouched (backend []) codec refl refl handler
      (record { request = request (some session_cookie.value) 1050; user = none })

abbrev of_the_team : Bytes → Bool
of_the_team email = true

chain_restricted_example :
    chain
      (backend (of_the_team ∷ []))
      handler
      (record { request = request (some session_cookie.value) 1050; user = none })
    ≡ replied server_error
chain_restricted_example =
    chain_restricted (backend (of_the_team ∷ [])) of_the_team [] refl handler
      (request (some session_cookie.value) 1050) refl

abbrev oidc_ann : User
oidc_ann = record ann { auth_method = oidc }

oidc_row : found (backend []).auth credentials (accounts oidc_ann) ≡ some (row_of oidc_ann)
unfolding is_called identifier_of
oidc_row = refl

create_oidc_example :
    (create (backend []) (request none 1000) credentials false (accounts oidc_ann)).0 ≡ panicked
create_oidc_example =
    create_oidc (backend []) (request none 1000) credentials false (accounts oidc_ann)
      (row_of oidc_ann) oidc_row refl refl

abbrev error_in : Result ServerError (Session Values) → ServerError
error_in (err e) = e
error_in (ok s) = ServerError.no_user

abbrev stale : Request
stale = request (some (text "stale")) 1000

stale_error : ServerError
unfolding get_session get new_session decode
stale_error = error_in (get_session (backend []) stale)

refused : get_session (backend []) stale ≡ err stale_error
unfolding stale_error get_session get lookup new_session decode opened check_length split_and_verify
    split3 is_cookie_name_valid is_not_token is_token
refused = refl

create_stale_example :
    let answer : Outcome = (create (backend []) stale credentials false (accounts ann)).0 in
    (answer ≡ replied (login_page msg_something_went_wrong))
    ⊎ ((answer ≡ replied (login_page msg_invalid_login_credentials)) ⊎ (answer ≡ panicked))
create_stale_example =
    create_stale (backend []) stale credentials false (accounts ann) stale_error refused
