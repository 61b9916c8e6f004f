-- ===== src/Security/Access.antt =====
-- The input checks `text` and `password_policy` of app/security.py, and the decorator `require`.
use Prim.Native.Char.{code}
use narsika.Base.{
  ℕ, String, Bool, true, false, not, ◌&&◌, ◌||◌, Option, none, some, len, ltb, leb, ◌==◌, nat_eq,
  text_eq, Result, ApiError, ok, err, invalid, fail_if, api_error, ◌>>◌, ◌+s◌, if◌then◌else◌,
}
use narsika.Base.Json.{Json, str}
use narsika.Models.{Role, viewer, operator, admin, User}

-- `str.isspace` of one character
is_space : ℕ → Bool
is_space c =
    leb 9 c && leb c 13
    || leb 28 c && leb c 32
    || c == 133
    || c == 160
    || c == 5760
    || leb 8192 c && leb c 8202
    || c == 8232
    || c == 8233
    || c == 8239
    || c == 8287
    || c == 12288

strip_left : String → String
unfolding is_space
strip_left String.[] = String.[]
strip_left (String.◌∷◌ c s) =
    let rest = strip_left s in if is_space (code c) then rest else (String.◌∷◌ c s)

strip_right : String → String
unfolding is_space
strip_right String.[] = String.[]
strip_right (String.◌∷◌ c s) = elim (strip_right s) [
  | String.[] ↦ if is_space (code c) then String.[] else (String.◌∷◌ c String.[])
  | String.◌∷◌ d rest ↦ String.◌∷◌ c (String.◌∷◌ d rest)
]

-- `s.strip()`
unfoldable pub strip : String → String
unfolding strip_left strip_right
strip s = strip_right (strip_left s)

-- `all(p(ord(c)) for c in s)`
unfoldable pub all_chars : (ℕ → Bool) → String → Bool
all_chars p String.[] = true
all_chars p (String.◌∷◌ c s) = p (code c) && all_chars p s

text_error : String → ApiError
text_error name = api_error ("Invalid " +s name +s ".") "VALIDATION_ERROR" 422

-- `text(value, name, length, required)`
unfoldable pub text : Option Json → String → ℕ → Bool → Result String
unfolding strip all_chars len text_error
text (some (str value)) name length required =
    if ltb length (len (strip value))
      || required && strip value == ""
      || not (all_chars (leb 32) value)
    then err (text_error name)
    else ok (strip value)
text value name length required = err (text_error name)

-- `password_policy(value)`
unfoldable pub password_policy : Option Json → Result String
unfolding len
password_policy (some (str value)) =
    if leb 12 (len value) && leb (len value) 256
    then ok value
    else invalid "Use a password of 12–256 characters."
password_policy value = invalid "Use a password of 12–256 characters."

pub data Level : Type 0 where
  read_level operate_level admin_level : Level

-- `current_user.role in roles[level]`
abbrev pub permits : Level → Role → Bool
permits read_level role = true
permits operate_level viewer = false
permits operate_level operator = true
permits operate_level admin = true
permits admin_level viewer = false
permits admin_level operator = false
permits admin_level admin = true

-- `require(level)`: who may enter the function below the decorator. No user is signed in at `none`.
unfoldable pub require : Level → Option User → Result User
require level none = err (api_error "Sign in to continue." "UNAUTHENTICATED" 401)
require level (some user) =
    fail_if (not (permits level user.role))
      (api_error "Your role cannot perform this action." "FORBIDDEN" 403)
    >> ok user
