-- ===== src/Api/Users.antt =====
-- The accounts of app/api.py: `users` (POST) and `user_item`.
pub mod Administrators
use narsika.Base.{
  ℕ, suc, ◌+◌, String, Bool, true, false, not, ◌&&◌, ◌||◌, Option, none, some, List, [], ◌∷◌, ◌++◌,
  any, count, leb, is_some, ◌==◌, ◌!=◌, nat_eq, text_eq, bool_eq, option_eq, Result, ApiError, ok,
  err, fail, fail_if, api_error, invalid, ◌>>=◌, ◌>>◌, if◌then◌else◌,
}
use narsika.Base.Json.{Json, num, str, Fields, get_field}
use narsika.Models.{
  Role, viewer, operator, admin, role_eq, User, is_active, AuditEvent, Db, get_row, put_row, new_id,
}
use narsika.Models.Passwords.{Hashing, set_password}
use narsika.Security.Inputs.{payload}
use narsika.Security.Access.{text, password_policy, all_chars, Level, admin_level, require}
use narsika.Api.Records.{get, boolean_or, conflict, logged}

-- The row that the request made or changed, and the password that was generated for it.
pub record UserReply : Type 0 where
  pub user : User
  pub temporary_password : Option String

-- `value in ('VIEWER','OPERATOR','ADMIN')`
unfoldable pub read_role : Option Json → Result Role
read_role (some (str s)) =
    if s == "VIEWER"
    then ok viewer
    else if s == "OPERATOR"
    then ok operator
    else if s == "ADMIN"
    then ok admin
    else invalid "Invalid role."
read_role value = invalid "Invalid role."

-- `data.get('role', row.role)`
unfoldable pub read_role_or : Role → Option Json → Result Role
unfolding read_role
read_role_or default none = ok default
read_role_or default (some value) = read_role (some value)

-- `[A-Za-z0-9_.-]`
abbrev is_username_char : ℕ → Bool
is_username_char c =
    leb 65 c && leb c 90
    || leb 97 c && leb c 122
    || leb 48 c && leb c 57
    || c == 95
    || c == 46
    || c == 45

abbrev pub user_keys : List String
user_keys = "username" ∷ "name" ∷ "role" ∷ "password" ∷ []

abbrev pub item_keys : List String
item_keys = "name" ∷ "role" ∷ "password" ∷ "disabled" ∷ "reset_password" ∷ []

abbrev pub user_id : User → ℕ
user_id user = user.id

abbrev pub never_archived : User → Bool
never_archived user = false

-- `filter_by(role='ADMIN', disabled_at=None)`
abbrev pub is_active_admin : User → Bool
is_active_admin user = user.role == admin && is_active user

unfoldable pub active_admins : List User → ℕ
active_admins users = count is_active_admin users

abbrev pub default_text : Option Json → String → Option Json
default_text none default = some (str default)
default_text (some value) default = some value

check_reset : Bool → Option Json → Result (Unit {0})
check_reset reset given =
    fail_if (reset && is_some given)
      (api_error "Choose one password reset method." "VALIDATION_ERROR" 422)

-- Who may lose access: nobody takes his own, and the last active administrator keeps it.
unfoldable pub check_access : User → User → Role → Bool → List User → Result (Unit {0})
unfolding active_admins
check_access actor row role disabled users = do
  fail_if (row.id == actor.id && (disabled || role != admin))
      (api_error "Another administrator must change your own access." "VALIDATION_ERROR" 422)
  fail_if
      (row.role == admin
        && is_active row
        && (disabled || role != admin)
        && leb (active_admins users) 1)
      (api_error "The last active administrator must remain enabled." "VALIDATION_ERROR" 422)

unfoldable pub rename : Option Json → User → Result User
unfolding text
rename none row = ok row
rename value row = do name ← text value "name" 100 true; ok (record row { name = name })

-- The new role and state, and the sessions that they end.
unfoldable pub set_access : String → Role → Bool → User → User
set_access now role disabled row = record row {
  role = role;
  disabled_at = if disabled then some now else none;
}

abbrev pub access_changed : User → Role → Bool → Bool
access_changed row role disabled = row.role != role || is_some row.disabled_at != disabled

-- The password of the body, or the generated one.
abbrev pub new_secret : Bool → String → Option Json → Option Json
new_secret reset generated given = if reset then some (str generated) else given

check_username : String → Result (Unit {0})
unfolding all_chars
check_username username = fail_if (not (all_chars is_username_char username)) (
    api_error "Use letters, digits, dots, dashes or underscores for usernames." "VALIDATION_ERROR"
      422)

module _ (hashing : Hashing) where
  -- The INSERT of a new account. `generated` is the text of `secrets.token_urlsafe`.
  unfoldable pub insert_user :
      User → String → String → Role → Option Json → String → Db → Result (UserReply × Db)
  unfolding password_policy set_password new_id logged
  insert_user session username name role given generated db = do
    password ← password_policy (default_text given generated)
    fail_if (any (λ (u : User). u.username == username) db.users) conflict
    let row = set_password hashing password (record {
      id = new_id user_id db.users;
      username = username;
      password = "";
      password_hash = "";
      name = name;
      role = role;
      must_change_password = true;
      disabled_at = none;
      session_version = 0;
    })
    ok (
      record { user = row; temporary_password = if is_some given then none else some generated },
      logged session "User added" username (record db { users = db.users ++ row ∷ [] }),
    )

  -- `users()` for POST
  unfoldable pub create_user : Option User → String → Option Json → Db → Result (UserReply × Db)
  unfolding insert_user require payload get_field text check_username read_role
  create_user session generated body db = do
    actor ← require admin_level session
    data' ← payload user_keys ("username" ∷ "role" ∷ []) body
    username ← text (get_field "username" data') "username" 64 true
    check_username username
    role ← read_role (get_field "role" data')
    name ← text (default_text (get_field "name" data') username) "name" 100 true
    insert_user actor username name role (get_field "password" data') generated db

  unfoldable pub set_secret : Option Json → Bool → User → Result User
  unfolding password_policy set_password
  set_secret none changed row =
      ok (if changed then record row { session_version = suc row.session_version } else row)
  set_secret value changed row = do
    password ← password_policy value
    ok (record (set_password hashing password row) { must_change_password = true })

  -- From the row to the row that is written.
  unfoldable pub change_user : User → String → String → User → Fields → List User → Result UserReply
  unfolding boolean_or check_reset read_role_or check_access rename set_access set_secret get_field
  change_user actor now generated row data' users = do
    reset ← boolean_or false (get_field "reset_password" data') "reset_password"
    check_reset reset (get_field "password" data')
    role ← read_role_or row.role (get_field "role" data')
    disabled ← boolean_or (is_some row.disabled_at) (get_field "disabled" data') "disabled"
    check_access actor row role disabled users
    renamed ← rename (get_field "name" data') row
    changed ←
        set_secret (new_secret reset generated (get_field "password" data'))
          (access_changed row role disabled) (set_access now role disabled renamed)
    ok (record { user = changed; temporary_password = if reset then some generated else none })

  -- `user_item(ident)`
  unfoldable pub user_item :
      Option User → String → String → ℕ → Option Json → Db → Result (UserReply × Db)
  unfolding change_user require get payload put_row logged
  user_item session now generated ident body db = do
    actor ← require admin_level session
    row ← get user_id never_archived true (some (num ident)) db.users
    data' ← payload item_keys [] body
    reply ← change_user actor now generated row data' db.users
    ok (
      reply,
      logged actor "User updated" row.username
          (record db { users = put_row user_id ident reply.user db.users }),
    )
