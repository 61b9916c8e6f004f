-- ===== src/Web/SignIn.antt =====
-- `login` and `password` of app/routes.py with the table LoginAttempt of app/models.py. SHA-256, the
-- full Unicode `str.lower`, the password hashes and a fresh token are parameters.
pub mod Throttle
use narsika.Base.{
  ℕ, suc, ◌+◌, ◌-◌, String, Bool, true, false, not, ◌&&◌, ◌||◌, Option, none, some, List, [], ◌∷◌,
  ◌++◌, filter, len, ltb, ◌==◌, ◌!=◌, nat_eq, text_eq, Result, ApiError, ok, err, fail, fail_if,
  api_error, ◌>>=◌, ◌>>◌, ◌+s◌, if◌then◌else◌,
}
use narsika.Base.Json.{Json, str, Fields, get_field}
use narsika.Models.{User, is_active, Db, put_row}
use narsika.Models.Passwords.{Hashing, set_password, check_encoded, check_password}
use narsika.Security.{audit}
use narsika.Security.Access.{password_policy}
use narsika.Api.Records.{logged}
use narsika.Web.Guards.{Session}

pub record Attempt : Type 0 where
  pub key : String
  pub count : ℕ
  pub reset_at : ℕ

pub record Tables : Type 0 where
  pub attempts : List Attempt
  pub db : Db

abbrev pub window_seconds : ℕ
window_seconds = 900

abbrev pub ip_limit : ℕ
ip_limit = 50

abbrev pub user_limit : ℕ
user_limit = 10

-- `DELETE FROM login_attempt WHERE reset_at <= :now`
unfoldable pub live : ℕ → List Attempt → List Attempt
live moment attempts = filter (λ (a : Attempt). ltb moment a.reset_at) attempts

-- The INSERT with `ON CONFLICT(key) DO UPDATE`: the row that it returns, and the table.
unfoldable pub reserve : String → ℕ → List Attempt → Attempt × List Attempt
reserve key moment [] =
    let row : Attempt = record { key = key; count = 1; reset_at = moment + window_seconds } in
    (row, row ∷ [])
reserve key moment (a ∷ attempts) =
    let rest = reserve key moment attempts in
    let row : Attempt = record a { count = suc a.count } in
    if a.key == key then (row, row ∷ attempts) else (rest.0, a ∷ rest.1)

-- `UPDATE login_attempt SET count=… WHERE key=:key AND reset_at=:reset`
unfoldable pub release : (ℕ → ℕ) → String → ℕ → List Attempt → List Attempt
release f key reset [] = []
release f key reset (a ∷ attempts) =
    (if a.key == key && a.reset_at == reset then record a { count = f a.count } else a)
    ∷ release f key reset attempts

abbrev pub throttled : ApiError
throttled =
    api_error "Too many sign-in attempts. Retry after the 15-minute window." "RATE_LIMITED" 429

abbrev pub refused : ApiError
refused = api_error "Invalid username or password." "INVALID_CREDENTIALS" 401

-- The reservations of one request: the rows of the address and of the name, and the table.
pub record Reserved : Type 0 where
  pub ip : Attempt
  pub user : Attempt
  pub attempts : List Attempt

unfoldable pub reserve_both : String → String → ℕ → List Attempt → Result Reserved
unfolding live reserve
reserve_both ip_key user_key moment attempts = do
  let ip = reserve ip_key moment (live moment attempts)
  fail_if (ltb ip_limit ip.0.count) throttled
  let user = reserve user_key moment ip.1
  fail_if (ltb user_limit user.0.count) throttled
  ok (record { ip = ip.0; user = user.0; attempts = user.1 })

unfoldable pub release_both : Reserved → List Attempt
unfolding release
release_both r =
    release (λ _. 0) r.user.key r.user.reset_at
      (release (λ n. n - 1) r.ip.key r.ip.reset_at r.attempts)

-- `User.query.filter_by(username=username).first()`
unfoldable pub find_user : String → List User → Option User
find_user username [] = none
find_user username (user ∷ users) =
    if user.username == username then some user else find_user username users

pub record SignedIn : Type 0 where
  pub user : User
  pub session : Session
  pub redirect : String

-- The name and the password: texts of at most 64 and 256 characters. A missing one is empty.
read_credential : ℕ → Option Json → Result String
unfolding len
read_credential most none = ok ""
read_credential most (some (str s)) = if ltb most (len s) then err refused else ok s
read_credential most (some value) = err refused

unfoldable pub read_credentials : Option Fields → Result (String × String)
unfolding read_credential get_field
read_credentials none = fail "Invalid sign-in request." "VALIDATION_ERROR" 400
read_credentials (some data') = do
  username ← read_credential 64 (get_field "username" data')
  password ← read_credential 256 (get_field "password" data')
  ok (username, password)

module _ (sha256 lower : String → String) (hashing : Hashing) (token : String) where
  abbrev pub ip_key : String → String
  ip_key remote = sha256 ("ip:" +s remote)

  abbrev pub user_key : String → String
  user_key username = sha256 ("user:" +s lower username)

  unfoldable pub is_valid : Option User → String → Bool
  unfolding check_password
  is_valid none password = false
  is_valid (some user) password = check_password hashing user password && is_active user

  -- An anonymous `Sign in` event, or one of the user who was signed in before.
  unfoldable pub refuse : Option User → List Attempt → Db → Result SignedIn × Tables
  unfolding audit
  refuse viewer attempts db = (
    err refused,
    record {
      attempts = attempts;
      db = record db {
        audit_events =
            db.audit_events
            ++ audit db.users viewer "Sign in" "" "failed" "Invalid credentials." none ∷ [];
      };
    },
  )

  unfoldable pub accept : User → Reserved → Db → Result SignedIn × Tables
  unfolding release_both logged
  accept user r db = (
    ok (record {
      user = user;
      session = record {
        user_id = some user.id;
        version = some user.session_version;
        csrf = some token;
      };
      redirect = if user.must_change_password then "/change-password" else "/";
    }),
    record { attempts = release_both r; db = logged user "Sign in" "" db },
  )

  -- From the stored reservations on: the password is compared.
  unfoldable pub compare_password :
      Option User → Option User → String → Reserved → Db → Result SignedIn × Tables
  unfolding refuse
  compare_password viewer none password r db = refuse viewer r.attempts db
  compare_password viewer (some user) password r db =
      if is_valid (some user) password then accept user r db else refuse viewer r.attempts db

  -- Where no reservation is made, the transaction leaves no trace.
  unfoldable pub admit :
      Option User → String → String → Tables → Result Reserved → Result SignedIn × Tables
  unfolding compare_password find_user
  admit viewer username password tables (err e) = (err e, tables)
  admit viewer username password tables (ok r) =
      compare_password viewer (find_user username tables.db.users) password r tables.db

  unfoldable pub attempt :
      Option User → String → ℕ → Tables → Result (String × String) → Result SignedIn × Tables
  unfolding admit reserve_both
  attempt viewer remote moment tables (err e) = (err e, tables)
  attempt viewer remote moment tables (ok (username, password)) =
      admit viewer username password tables
        (reserve_both (ip_key remote) (user_key username) moment tables.attempts)

  -- `login()` for POST. `viewer` is the user who is signed in already, `body` the form or the JSON.
  unfoldable pub login :
      Option User → String → ℕ → Option Fields → Tables → Result SignedIn × Tables
  unfolding attempt read_credentials
  login viewer remote moment body tables =
      attempt viewer remote moment tables (read_credentials body)

-- `data.get(key, data.get(other))`
unfoldable pub either : String → String → Fields → Option Json
unfolding get_field
either key other data' = elim (get_field key data') [
  | none ↦ get_field other data'
  | some value ↦ some value
]

-- The confirmation is the same text.
unfoldable pub is_confirmed : String → Option Json → Bool
is_confirmed value (some (str s)) = s == value
is_confirmed value other = false

module _ (hashing : Hashing) where
  unfoldable pub check_current : User → Option Json → Result (Unit {0})
  unfolding check_password
  check_current user (some (str current)) =
      fail_if (not (check_password hashing user current))
        (api_error "Current password is incorrect." "INVALID_CREDENTIALS" 422)
  check_current user value = fail "Current password is incorrect." "INVALID_CREDENTIALS" 422

  -- `password()` for POST: the account and the session afterwards
  unfoldable pub change_password :
      User → Session → Option Fields → Db → Result (User × Session × Db)
  unfolding either check_current password_policy is_confirmed check_password set_password put_row
      logged
  change_password user session none db =
      fail "Send a password change form or JSON object." "VALIDATION_ERROR" 400
  change_password user session (some data') db = do
    check_current user (either "current" "current_password" data')
    value ← password_policy (either "password" "new_password" data')
    fail_if (not (is_confirmed value (either "confirm" "confirm_password" data')))
        (api_error "Password confirmation does not match." "VALIDATION_ERROR" 422)
    fail_if (check_password hashing user value)
        (api_error "Choose a password different from the current password." "VALIDATION_ERROR" 422)
    let changed = record (set_password hashing value user) { must_change_password = false }
    ok (
      changed,
      record session { version = some changed.session_version },
      logged user "Password changed" ""
          (record db { users = put_row (λ (u : User). u.id) user.id changed db.users }),
    )
