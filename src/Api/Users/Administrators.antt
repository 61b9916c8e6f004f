-- ===== src/Api/Users/Administrators.antt =====
-- Requests that create and change accounts: an administrator stays, and a change of access ends the
-- sessions of the account.
use narsika.Base.{
  ℕ, suc, ◌≤◌, String, Bool, true, false, ◌||◌, Option, none, some, List, [], ◌∷◌, ◌++◌, any,
  is_some, ◌==◌, ◌!=◌, nat_eq, text_eq, bool_eq, option_eq, ok, err, ◌>>=◌, fail_if, bind-eq-ok,
  Returns, Returns-ok, ◌≡◌, ◌⊎◌, inl, inr, refl, arith,
}
use narsika.Base.Json.{Json, num, Fields, get_field}
use narsika.Models.{Role, admin, role_eq, role_beq_iff, User, is_active, Db, get_row, put_row}
use narsika.Models.Rows.{count-put_row}
use narsika.Models.Passwords.{Hashing, set_password}
use narsika.Security.Access.{text, password_policy, admin_level, require}
use narsika.Security.Inputs.{payload}
use narsika.Api.Records.{get, get-eq-ok, boolean_or, conflict, logged}
use narsika.Api.Users.{
  UserReply, user_id, item_keys, user_keys, never_archived, is_active_admin, active_admins,
  read_role_or, check_access, check_reset, check_username, default_text, read_role, rename,
  set_access, set_secret, new_secret, access_changed, change_user, user_item, create_user,
  insert_user,
}

-- What a step leaves alone of an account.
abbrev pub SameAccess : User → User → Type 0
SameAccess a b = (a.id ≡ b.id) × (a.role ≡ b.role) × (a.disabled_at ≡ b.disabled_at)

abbrev pub SameSecret : User → User → Type 0
SameSecret a b = (a.session_version ≡ b.session_version) × (a.password_hash ≡ b.password_hash)

rename-Same :
    (value : Option Json) (row : User)
    → Returns (λ u. SameAccess u row × SameSecret u row) (rename value row)
unfolding rename
rename-Same none row = ground arith
rename-Same (some value) row =
    elim (text (some value) "name" 100 true)
      as (λ r.
        Returns (λ u. SameAccess u row × SameSecret u row)
          (r >>= λ name. ok (record row { name = name }))) [ ok name ↦ ground arith | err e ↦ tt ]

module _ (hashing : Hashing) where
  set_secret-Same :
      (value : Option Json) (changed : Bool) (row : User)
      → Returns
          (λ u.
            SameAccess u row
            × ((u.session_version ≡ suc row.session_version)
                ⊎ (SameSecret u row × (changed ≡ false))))
          (set_secret hashing value changed row)
  unfolding set_secret set_password
  set_secret-Same none true row = ((refl, refl, refl), inl refl)
  set_secret-Same none false row = ((refl, refl, refl), inr ((refl, refl), refl))
  set_secret-Same (some value) changed row =
      elim (password_policy (some value))
        as (λ r.
          Returns
            (λ u.
              SameAccess u row
              × ((u.session_version ≡ suc row.session_version)
                  ⊎ (SameSecret u row × (changed ≡ false))))
            (r >>= λ password.
              ok (record (set_password hashing password row) { must_change_password = true }))) [
                | ok password ↦ ((refl, refl, refl), inl refl)
                | err e ↦ tt
              ]

check_access-Returns :
    (actor row : User) (role : Role) (disabled : Bool) (users : List User)
    → Returns
        (λ _.
          is_active_admin row ≡ true → (disabled || role != admin) ≡ true → 2 ≤ active_admins users)
        (check_access actor row role disabled users)
unfolding check_access
check_access-Returns actor row role disabled users = ground arith

-- What a request has made of an account.
pub record Changed (users : List User) (row after : User) : Type 0 where
  pub same : after.id ≡ row.id
  pub kept : is_active_admin row ≡ true → is_active_admin after ≡ false → 2 ≤ active_admins users
  pub ended :
      (after.session_version ≡ suc row.session_version)
      ⊎ ((after.role ≡ row.role) × (is_active after ≡ is_active row) × SameSecret after row)

Changed-intro :
    (now : String) (users : List User) (row renamed after : User) (role : Role) (disabled : Bool)
    → (is_active_admin row ≡ true → (disabled || role != admin) ≡ true → 2 ≤ active_admins users)
    → SameAccess renamed row × SameSecret renamed row
    → SameAccess after (set_access now role disabled renamed)
      × ((after.session_version ≡ suc (set_access now role disabled renamed).session_version)
          ⊎ (SameSecret after (set_access now role disabled renamed)
              × (access_changed row role disabled ≡ false)))
    → Changed users row after
unfolding set_access
Changed-intro now users row renamed after role disabled keep same made = record {
  same = ground arith;
  kept = λ was lost. keep was (ground (arith, role_beq_iff role admin));
  ended = ground (arith, role_beq_iff row.role role);
}

module _ (hashing : Hashing) (now generated : String) where
  change_user-Changed :
      (actor row : User) (data' : Fields) (users : List User) {reply : UserReply}
      → change_user hashing actor now generated row data' users ≡ ok reply
      → Changed users row reply.user
  unfolding change_user
  change_user-Changed actor row data' users h =
      let given = get_field "password" data' in
      let (reset, _, h₁) =
        bind-eq-ok (boolean_or false (get_field "reset_password" data') "reset_password") _ h in
      let (_, _, h₂) = bind-eq-ok (check_reset reset given) _ h₁ in
      let (role, _, h₃) = bind-eq-ok (read_role_or row.role (get_field "role" data')) _ h₂ in
      let (disabled, _, h₄) =
        bind-eq-ok (boolean_or (is_some row.disabled_at) (get_field "disabled" data') "disabled") _
          h₃ in
      let (_, allowed, h₅) = bind-eq-ok (check_access actor row role disabled users) _ h₄ in
      let (renamed, named, h₆) = bind-eq-ok (rename (get_field "name" data') row) _ h₅ in
      let secret = new_secret reset generated given in
      let changed = access_changed row role disabled in
      let row' = set_access now role disabled renamed in
      let (after, made, h₇) = bind-eq-ok (set_secret hashing secret changed row') _ h₆ in
      Returns-ok (λ (reply : UserReply). Changed users row reply.user) (ok _)
        (Changed-intro now users row renamed after role disabled
          (Returns-ok _ (check_access actor row role disabled users)
            (check_access-Returns actor row role disabled users) allowed)
          (Returns-ok _ (rename (get_field "name" data') row)
            (rename-Same (get_field "name" data') row) named)
          (Returns-ok _ (set_secret hashing secret changed row')
            (set_secret-Same hashing secret changed row') made))
        h₇

  -- The account that the request finds, and what it leaves.
  pub user_item-Changed :
      (session : Option User) (ident : ℕ) (body : Option Json) (db : Db) {reply : UserReply}
      {after : Db}
      → user_item hashing session now generated ident body db ≡ ok (reply, after)
      → (row : User) × (get_row user_id ident db.users ≡ some row)
        × Changed db.users row reply.user
        × (after.users ≡ put_row user_id ident reply.user db.users)
  unfolding user_item logged
  user_item-Changed session ident body db {reply} {after} h =
      let (actor, _, h₁) = bind-eq-ok (require admin_level session) _ h in
      let (row, found, h₂) =
        bind-eq-ok (get user_id never_archived true (some (num ident)) db.users) _ h₁ in
      let (data', _, h₃) = bind-eq-ok (payload item_keys [] body) _ h₂ in
      let (made, changed, h₄) =
        bind-eq-ok (change_user hashing actor now generated row data' db.users) _ h₃ in
      let P = λ (r : UserReply × Db).
        Changed db.users row r.0.user × (r.1.users ≡ put_row user_id ident r.0.user db.users) in
      let (kept, table) =
        Returns-ok P (ok _) (change_user-Changed actor row data' db.users changed, refl) h₄ in
      (row, (get-eq-ok user_id never_archived ident db.users found).0, kept, table)

  pub user_item_keeps_admin :
      (session : Option User) (ident : ℕ) (body : Option Json) (db : Db) {reply : UserReply}
      {after : Db}
      → user_item hashing session now generated ident body db ≡ ok (reply, after)
      → 1 ≤ active_admins db.users
      → 1 ≤ active_admins after.users
  unfolding active_admins
  user_item_keeps_admin session ident body db {reply} {after} h before =
      let (row, found, changed, table) = user_item-Changed session ident body db h in
      let counted = count-put_row user_id is_active_admin ident reply.user row db.users found in
      rw table (ground (arith, counted, changed.kept))

  insert_user-append :
      (session : User) (username name : String) (role : Role) (given : Option Json) (db : Db)
      {reply : UserReply} {after : Db}
      → insert_user hashing session username name role given generated db ≡ ok (reply, after)
      → after.users ≡ db.users ++ reply.user ∷ []
  unfolding insert_user logged
  insert_user-append session username name role given db h =
      let (password, _, h₁) = bind-eq-ok (password_policy (default_text given generated)) _ h in
      let (_, _, h₂) =
        bind-eq-ok (fail_if (any (λ (u : User). u.username == username) db.users) conflict) _ h₁ in
      Returns-ok (λ (r : UserReply × Db). r.1.users ≡ db.users ++ r.0.user ∷ []) (ok _) refl h₂

  pub create_user-append :
      (session : Option User) (body : Option Json) (db : Db) {reply : UserReply} {after : Db}
      → create_user hashing session generated body db ≡ ok (reply, after)
      → after.users ≡ db.users ++ reply.user ∷ []
  unfolding create_user
  create_user-append session body db h =
      let (actor, _, h₁) = bind-eq-ok (require admin_level session) _ h in
      let (data', _, h₂) = bind-eq-ok (payload user_keys ("username" ∷ "role" ∷ []) body) _ h₁ in
      let (username, _, h₃) =
        bind-eq-ok (text (get_field "username" data') "username" 64 true) _ h₂ in
      let (_, _, h₄) = bind-eq-ok (check_username username) _ h₃ in
      let (role, _, h₅) = bind-eq-ok (read_role (get_field "role" data')) _ h₄ in
      let (name, _, h₆) =
        bind-eq-ok (text (default_text (get_field "name" data') username) "name" 100 true) _ h₅ in
      insert_user-append actor username name role (get_field "password" data') db h₆
