-- ===== src/Web/Accounts.antt =====
-- The accounts over time: requests of app/api.py that create and change them, and changes of
-- passwords in app/routes.py, one after the other.
use narsika.Base.{
  ℕ, ◌≤◌, String, not, Option, none, some, [], ◌∷◌, count-append, ok, fail_if, api_error,
  bind-eq-ok, Returns-ok, ◌≡◌, refl, ap, arith,
}
use narsika.Base.Json.{Json, Fields}
use narsika.Models.{User, Db, get_row, put_row}
use narsika.Models.Rows.{one_if, count-put_row}
use narsika.Models.Passwords.{Hashing, set_password, check_password}
use narsika.Security.Access.{password_policy}
use narsika.Api.Records.{logged}
use narsika.Api.Users.{UserReply, user_id, is_active_admin, active_admins, create_user, user_item}
use narsika.Api.Users.Administrators.{create_user-append, user_item_keeps_admin}
use narsika.Web.Guards.{Session}
use narsika.Web.SignIn.{either, check_current, is_confirmed, change_password}

module _ (hashing : Hashing) where
  -- The row that a change of password writes.
  change_password-put_row :
      (user : User) (session : Session) (body : Option Fields) (db : Db) {changed : User}
      {later : Session} {after : Db}
      → change_password hashing user session body db ≡ ok (changed, later, after)
      → (after.users ≡ put_row user_id user.id changed db.users)
        × (is_active_admin changed ≡ is_active_admin user)
  unfolding change_password logged set_password
  change_password-put_row user session none db h = absurd cc
  change_password-put_row user session (some data') db h =
      let current = either "current" "current_password" data' in
      let given = either "password" "new_password" data' in
      let confirm = either "confirm" "confirm_password" data' in
      let (_, _, h₁) = bind-eq-ok (check_current hashing user current) _ h in
      let (value, _, h₂) = bind-eq-ok (password_policy given) _ h₁ in
      let (_, _, h₃) =
        bind-eq-ok
          (fail_if (not (is_confirmed value confirm))
            (api_error "Password confirmation does not match." "VALIDATION_ERROR" 422))
          _ h₂ in
      let (_, _, h₄) =
        bind-eq-ok
          (fail_if (check_password hashing user value) (
            api_error "Choose a password different from the current password." "VALIDATION_ERROR"
              422))
          _ h₃ in
      Returns-ok
        (λ (r : User × Session × Db).
          (r.2.users ≡ put_row user_id user.id r.0 db.users)
          × (is_active_admin r.0 ≡ is_active_admin user))
        (ok _) (refl, refl) h₄

  -- The requests that succeed; those that fail change nothing.
  pub data Accounts : Db → Db → Type 0 where
    unchanged : {db : Db} → Accounts db db
    created :
        {db after last : Db} (session : Option User) (generated : String) (body : Option Json)
        (reply : UserReply)
        → create_user hashing session generated body db ≡ ok (reply, after)
        → Accounts after last
        → Accounts db last
    changed :
        {db after last : Db} (session : Option User) (now generated : String) (ident : ℕ)
        (body : Option Json) (reply : UserReply)
        → user_item hashing session now generated ident body db ≡ ok (reply, after)
        → Accounts after last
        → Accounts db last
    password_changed :
        {db after last : Db} (user new : User) (session later : Session) (body : Option Fields)
        → get_row user_id user.id db.users ≡ some user
        → change_password hashing user session body db ≡ ok (new, later, after)
        → Accounts after last
        → Accounts db last

  -- Where at least one administrator is active, at least one is active after every sequence of
  -- requests that create an account, change an account or change the password of a row of the
  -- table.
  pub Accounts-keep_admin :
      {db last : Db} → Accounts db last → 1 ≤ active_admins db.users → 1 ≤ active_admins last.users
  unfolding active_admins
  Accounts-keep_admin unchanged before = before
  Accounts-keep_admin {db} (created session generated body reply h rest) before =
      let added = create_user-append hashing "" generated session body db h in
      Accounts-keep_admin rest
        (rw added (omega (arith, count-append is_active_admin db.users (reply.user ∷ []), before)))
  Accounts-keep_admin {db} (changed session now generated ident body reply h rest) before =
      Accounts-keep_admin rest
        (user_item_keeps_admin hashing now generated session ident body db h before)
  Accounts-keep_admin {db} (password_changed user new session later body found h rest) before =
      let (table, same) = change_password-put_row user session body db h in
      let counted = count-put_row user_id is_active_admin user.id new user db.users found in
      Accounts-keep_admin rest (rw table (omega (arith, counted, ap one_if same, before)))
