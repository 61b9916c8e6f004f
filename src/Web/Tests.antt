-- ===== src/Web/Tests.antt =====
-- Sessions and accounts on small inputs.
use narsika.Base.{◌+◌, ◌≤◌, false, none, some, [], ◌∷◌, ok, ◌≡◌, ◌≢◌, ◌↔◌, inl, refl, arith}
use narsika.Base.Json.{str, obj, field, end, Fields}
use narsika.Models.{admin, operator, User, is_active, Db, get_row}
use narsika.Models.Passwords.{Hashing}
use narsika.Api.Users.{UserReply, active_admins, user_item}
use narsika.Web.Guards.{Session, Request, proceed, guards}
use narsika.Web.Guards.Current.{IsCurrent, guards_iff, user_item_revokes}
use narsika.Web.SignIn.{Tables, user_limit, is_valid, login}
use narsika.Web.SignIn.Throttle.{find, is_signed_in, tried, none_yet, login_throttled, compared}
use narsika.Web.Accounts.{unchanged, changed, Accounts-keep_admin}

abbrev plain : Hashing
plain = record { generate = λ s. s; check = λ encoded s. false; check_bcrypt = λ s encoded. false }

abbrev owner : User
owner = record {
  id = 1;
  username = "root";
  password = "";
  password_hash = "scrypt";
  name = "";
  role = admin;
  must_change_password = false;
  disabled_at = none;
  session_version = 3;
}

abbrev second : User
second = record owner { id = 2; username = "ops"; role = operator }

abbrev accounts : Db
accounts = record { users = owner ∷ second ∷ []; devices = []; runs = []; audit_events = [] }

abbrev promotion : Fields
promotion = field "role" (str "ADMIN") end

abbrev promoted : User
promoted = record second { role = admin; session_version = 4 }

-- The answer of `user_item` to the promotion of the second account.
abbrev reply : UserReply
reply = record { user = promoted; temporary_password = none }

abbrev after : Db
after = record accounts {
  users = owner ∷ promoted ∷ [];
  audit_events =
      record {
        actor_id = some 1;
        actor = "root";
        action = "User updated";
        target = "ops";
        result = "success";
        detail = "";
      }
      ∷ [];
}

user_item_promotes :
    user_item plain (some owner) "now" "" 2 (some (obj promotion)) accounts ≡ ok (reply, after)
unfolding user_item
user_item_promotes = refl

Accounts-keep_admin_example : 1 ≤ active_admins after.users
unfolding active_admins
Accounts-keep_admin_example =
    Accounts-keep_admin plain
      (changed (some owner) "now" "" 2 (some (obj promotion)) reply user_item_promotes unchanged)
      (omega arith)

abbrev session : Session
session = record { user_id = some 2; version = some 3; csrf = some "t" }

abbrev page : Request
page = record {
  remote_addr = "10.0.0.9";
  method = "GET";
  header_token = "";
  form_token = "";
  endpoint = "web.inventory";
  path = "/";
}

guards_iff_example :
    (guards is_active [] accounts.users session page ≡ ok (proceed (some second), session))
    ↔ IsCurrent is_active [] accounts.users session page second
guards_iff_example = guards_iff is_active [] accounts.users session page second

user_item_revokes_example :
    guards is_active [] after.users session page ≢ ok (proceed (some second), session)
unfolding get_row
user_item_revokes_example =
    user_item_revokes is_active plain (some owner) "now" "" 2 (some (obj promotion)) accounts second
      user_item_promotes refl (inl (λ h. absurd cc)) [] session page second session refl refl

abbrev attempts : Tables
attempts = record { attempts = []; db = accounts }

abbrev sign_in : Fields
sign_in = field "username" (str "root") (field "password" (str "guess") end)

guess_fails :
    is_signed_in (login (λ s. s) (λ s. s) plain "t" none "10.0.0.9" 100 (some sign_in) attempts).0
    ≡ false
unfolding login is_valid
guess_fails = refl

login_throttled_example :
    compared
        (λ s. s)
        (λ s. s)
        plain
        "t"
        "user:root"
        (some sign_in)
        (login (λ s. s) (λ s. s) plain "t" none "10.0.0.9" 100 (some sign_in) attempts).0
      + 0
    ≤ user_limit
unfolding find
login_throttled_example =
    login_throttled (λ s. s) (λ s. s) plain "t" "user:root" 100 _ attempts _ refl
      (tried none "10.0.0.9" 100 (some sign_in) (omega arith) (omega arith) (λ h. absurd cc)
        (λ _. guess_fails) none_yet)
