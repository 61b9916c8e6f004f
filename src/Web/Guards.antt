-- ===== src/Web/Guards.antt =====
-- `load_user` and `guards` of `create_app` in app/__init__.py: what every request passes first.
-- A web network is one of NARSIKA_WEB_NETWORKS; the addresses of clients that matter are IPv4.
pub mod Current
use narsika.Base.{
  ℕ, String, Bool, true, false, not, ◌&&◌, ◌||◌, Option, none, some, List, [], ◌∷◌, any, contains,
  ◌==◌, ◌!=◌, nat_eq, text_eq, option_eq, Result, ApiError, ok, err, fail_if, api_error, ◌>>=◌,
  ◌>>◌, if◌then◌else◌,
}
use narsika.Ipv4.{Network, parse_address, in_network}
use narsika.Models.{User, is_active, get_row}
use narsika.Models.Passwords.{starts_with}

-- The signed cookie: the user of Flask-Login, and the two values that the program keeps.
pub record Session : Type 0 where
  pub user_id : Option ℕ
  pub version : Option ℕ
  pub csrf : Option String

abbrev pub cleared : Session
cleared = record { user_id = none; version = none; csrf = none }

pub record Request : Type 0 where
  pub remote_addr : String
  pub method : String
  pub header_token : String
  pub form_token : String
  pub endpoint : String
  pub path : String

-- The request goes on as this user or as nobody, or is sent to the password page.
pub data Verdict : Type 0 where
  proceed : Option User → Verdict
  change_password : Verdict

-- `current_user`, by `load_user`
unfoldable pub load_user : List User → Session → Option User
unfolding get_row
load_user users session = elim session.user_id [
  | none ↦ none
  | some ident ↦ get_row (λ (u : User). u.id) ident users
]

-- `any(client in net for net in web_networks)`; a text that is no address is in none.
is_permitted : List Network → Option ℕ → Bool
unfolding in_network
is_permitted networks none = false
is_permitted networks (some client) = any (in_network client) networks

-- An empty setting admits every client.
unfoldable pub is_admitted : List Network → String → Bool
unfolding is_permitted parse_address
is_admitted [] remote = true
is_admitted (net ∷ nets) remote = is_permitted (net ∷ nets) (parse_address remote)

-- A session of an inactive account or of another version is ended.
unfoldable pub is_stale : Session → User → Bool
is_stale session user = not (is_active user) || session.version != some user.session_version

-- `is_authenticated` is the property of Flask-Login's UserMixin; an account without it is nobody.
unfoldable pub current : (User → Bool) → Session → Option User → Option User × Session
unfolding is_stale
current is_authenticated session none = (none, session)
current is_authenticated session (some user) =
    if not (is_authenticated user)
    then (none, session)
    else if is_stale session user
    then (none, cleared)
    else (some user, session)

-- `a or b`
abbrev pub text_or : String → String → String
text_or a b = if a == "" then b else a

abbrev pub is_safe_method : String → Bool
is_safe_method method = contains method ("GET" ∷ "HEAD" ∷ "OPTIONS" ∷ [])

-- The token of the request is the session's, and not empty.
unfoldable pub token_matches : String → Option String → Bool
token_matches provided none = false
token_matches provided (some token) = not (provided == "") && not (token == "") && provided == token

abbrev pub csrf_error : ApiError
csrf_error = api_error "Session token missing or expired. Reload the page." "CSRF_FAILED" 403

unfoldable pub check_csrf : Request → Session → Result (Unit {0})
unfolding token_matches
check_csrf request session =
    fail_if
      (not (is_safe_method request.method)
        && not (token_matches (text_or request.header_token request.form_token) session.csrf))
      csrf_error

abbrev pub exempt_endpoints : List String
exempt_endpoints = "web.password" ∷ "web.logout" ∷ "api.session_info" ∷ "static" ∷ "healthz" ∷ []

unfoldable pub must_change : Request → User → Bool
must_change request user =
    user.must_change_password && not (contains request.endpoint exempt_endpoints)

unfoldable pub check_password_change : Request → Option User → Result Verdict
unfolding must_change starts_with
check_password_change request none = ok (proceed none)
check_password_change request (some user) =
    if must_change request user
    then (if starts_with "/api/" request.path
        then err
            (api_error "Change your password before continuing." "PASSWORD_CHANGE_REQUIRED" 403)
        else ok change_password)
    else ok (proceed (some user))

check_source : List Network → Request → Result (Unit {0})
unfolding is_admitted
check_source networks request =
    fail_if (not (is_admitted networks request.remote_addr))
      (api_error "Access is limited to configured management networks." "SOURCE_NOT_ALLOWED" 403)

-- `guards()`: the verdict, and the session afterwards
unfoldable pub guards :
    (User → Bool) → List Network → List User → Session → Request → Result (Verdict × Session)
unfolding check_source load_user current check_csrf check_password_change
guards is_authenticated networks users session request = do
  check_source networks request
  let who = current is_authenticated session (load_user users session)
  check_csrf request who.1
  verdict ← check_password_change request who.0
  ok (verdict, who.1)
