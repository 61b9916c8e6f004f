-- ===== src/Web/Guards/Current.antt =====
-- Whom the guards let through, and what a change of access does to open sessions.
use narsika.Base.{
  ℕ, suc, String, Bool, true, false, not, ◌&&◌, ◌||◌, Option, none, some, List, nat_eq, text_eq,
  option_eq, bool_eq, ok, fail_if, bind-eq-ok, ◌≡◌, ◌≢◌, ◌↔◌, ◌⊎◌, inl, inr, refl, ◌∙◌, arith,
}
use narsika.Base.Json.{Json}
use narsika.Ipv4.{Network}
use narsika.Models.{User, is_active, Db, get_row}
use narsika.Models.Rows.{get_row-id, get_row-put_row}
use narsika.Models.Passwords.{Hashing}
use narsika.Api.Users.{UserReply, user_id, user_item}
use narsika.Api.Users.Administrators.{SameSecret, user_item-Changed}
use narsika.Web.Guards.{
  Session, Request, Verdict, proceed, load_user, is_admitted, is_stale, current, token_matches,
  text_or, is_safe_method, check_source, check_csrf, csrf_error, must_change, check_password_change,
  guards,
}

-- A request of an account that may go on: the client's network, the account that the session names,
-- its version, the token of a request that changes something, and the password.
pub record IsCurrent (is_authenticated : User → Bool) (networks : List Network) (users : List User)
    (session : Session) (request : Request) (user : User) : Type 0 where
  pub source : is_admitted networks request.remote_addr ≡ true
  pub named : load_user users session ≡ some user
  pub authenticated : is_authenticated user ≡ true
  pub active : is_active user ≡ true
  pub version : session.version ≡ some user.session_version
  pub token :
      (is_safe_method request.method
        || token_matches (text_or request.header_token request.form_token) session.csrf)
      ≡ true
  pub password : must_change request user ≡ false

version_iff :
    (session : Session) (user : User)
    → (is_stale session user ≡ false)
      ↔ ((is_active user ≡ true) × (session.version ≡ some user.session_version))
unfolding is_stale
version_iff session user =
    ground (arith, option_eq.same_iff session.version (some user.session_version))

check_source_iff :
    (networks : List Network) (request : Request)
    → (check_source networks request ≡ ok tt) ↔ (is_admitted networks request.remote_addr ≡ true)
unfolding check_source
check_source_iff networks request = ground arith

check_csrf_iff :
    (request : Request) (session : Session)
    → (check_csrf request session ≡ ok tt) ↔ (
        (is_safe_method request.method
          || token_matches (text_or request.header_token request.form_token) session.csrf)
        ≡ true)
unfolding check_csrf
check_csrf_iff request session =
    let safe = is_safe_method request.method in
    let matches = token_matches (text_or request.header_token request.form_token) session.csrf in
    cases safe matches
  where
    cases : (a b : Bool) → (fail_if (not a && not b) csrf_error ≡ ok tt) ↔ ((a || b) ≡ true)
    cases a b = ground arith

check_password_change_iff :
    (request : Request) (found : Option User) (user : User)
    → (check_password_change request found ≡ ok (proceed (some user)))
      ↔ ((found ≡ some user) × (must_change request user ≡ false))
unfolding check_password_change
check_password_change_iff request none user = ground arith
check_password_change_iff request (some other) user = ground arith

module _ (is_authenticated : User → Bool) where
  current_iff :
      (session after : Session) (found : Option User) (user : User)
      → (current is_authenticated session found ≡ (some user, after)) ↔ (
          (found ≡ some user)
          × (is_authenticated user ≡ true)
          × (is_stale session user ≡ false)
          × (after ≡ session))
  unfolding current
  current_iff session after none user = ground arith
  current_iff session after (some other) user = ground arith

  -- The guards, in the parts that the request passes.
  guards-parts :
      (networks : List Network) (users : List User) (session : Session) (request : Request)
      (verdict : Verdict) (after : Session)
      → guards is_authenticated networks users session request ≡ ok (verdict, after)
      → (check_source networks request ≡ ok tt)
        × (check_csrf request (current is_authenticated session (load_user users session)).1
            ≡ ok tt)
        × (check_password_change request
              (current is_authenticated session (load_user users session)).0
            ≡ ok verdict)
        × ((current is_authenticated session (load_user users session)).1 ≡ after)
  unfolding guards
  guards-parts networks users session request verdict after h =
      let who = current is_authenticated session (load_user users session) in
      let (_, source, h₁) = bind-eq-ok (check_source networks request) _ h in
      let (_, csrf, h₂) = bind-eq-ok (check_csrf request who.1) _ h₁ in
      let (v, password, h₃) = bind-eq-ok (check_password_change request who.0) _ h₂ in
      let same : v ≡ verdict = cc in
      let kept : who.1 ≡ after = cc in (source, csrf, rw (← same) password, kept)

  proceed-IsFresh :
      (networks : List Network) (users : List User) (session : Session) (request : Request)
      (user : User) (after : Session)
      → guards is_authenticated networks users session request ≡ ok (proceed (some user), after)
      → (load_user users session ≡ some user)
        × (is_authenticated user ≡ true)
        × (is_stale session user ≡ false)
        × (after ≡ session)
  proceed-IsFresh networks users session request user after h =
      let (_, _, password, kept) =
        guards-parts networks users session request (proceed (some user)) after h in
      let who = current is_authenticated session (load_user users session) in
      let (signed, _) = (check_password_change_iff request who.0 user).0 password in
      (current_iff session after (load_user users session) user).0 (cc (signed, kept))

  guards-IsCurrent :
      (networks : List Network) (users : List User) (session : Session) (request : Request)
      (user : User)
      → guards is_authenticated networks users session request ≡ ok (proceed (some user), session)
      → IsCurrent is_authenticated networks users session request user
  guards-IsCurrent networks users session request user h =
      let (source, csrf, password, kept) =
        guards-parts networks users session request (proceed (some user)) session h in
      let (named, known, fresh, _) =
        proceed-IsFresh networks users session request user session h in
      let who = current is_authenticated session (load_user users session) in
      let (active, version) = (version_iff session user).0 fresh in
      record {
        source = (check_source_iff networks request).0 source;
        named = named;
        authenticated = known;
        active = active;
        version = version;
        token = (check_csrf_iff request session).0 (cc (csrf, kept));
        password = ((check_password_change_iff request who.0 user).0 password).1;
      }

  IsCurrent-guards :
      (networks : List Network) (users : List User) (session : Session) (request : Request)
      (user : User)
      → IsCurrent is_authenticated networks users session request user
      → guards is_authenticated networks users session request ≡ ok (proceed (some user), session)
  unfolding guards
  IsCurrent-guards networks users session request user c =
      let fresh = (version_iff session user).1 (c.active, c.version) in
      let who : current is_authenticated session (load_user users session) ≡ (some user, session) =
        (current_iff session session (load_user users session) user).1
          (c.named, c.authenticated, fresh, refl) in
      let csrf = (check_csrf_iff request session).1 c.token in
      let password = (check_password_change_iff request (some user) user).1 (refl, c.password) in
      rw ((check_source_iff networks request).1 c.source, who, csrf, password) refl

  -- The guards let a request through as a user, and leave its session as it is, exactly where the
  -- client's network is admitted, the session names that account, the account is authenticated and
  -- active, the versions agree, the request is of a safe method or has the token of the session,
  -- and no change of the password stands in its way.
  pub guards_iff :
      (networks : List Network) (users : List User) (session : Session) (request : Request)
      (user : User)
      → (guards is_authenticated networks users session request ≡ ok (proceed (some user), session))
        ↔ IsCurrent is_authenticated networks users session request user
  guards_iff networks users session request user = (
    guards-IsCurrent networks users session request user,
    IsCurrent-guards networks users session request user,
  )

  -- After a request of user_item that changes the role of an account, its state (active or
  -- disabled) or its password hash, the guards let no request through as any user whose session
  -- names that account with the version from before.
  pub user_item_revokes :
      (hashing : Hashing) (actor : Option User) (now generated : String) (ident : ℕ)
      (body : Option Json) (db : Db) (row : User) {reply : UserReply} {after : Db}
      → user_item hashing actor now generated ident body db ≡ ok (reply, after)
      → get_row user_id ident db.users ≡ some row
      → ((reply.user.role ≢ row.role)
          ⊎ (is_active reply.user ≢ is_active row)
          ⊎ (reply.user.password_hash ≢ row.password_hash))
      → (networks : List Network) (session : Session) (request : Request) (user : User)
        (later : Session)
      → session.user_id ≡ some ident
      → session.version ≡ some row.session_version
      → guards is_authenticated networks after.users session request
        ≢ ok (proceed (some user), later)
  unfolding load_user
  user_item_revokes hashing actor now generated ident body db row {reply} {after} h found differs
        networks session request user later named old passed =
      let (row', found', changed, table) =
        user_item-Changed hashing now generated actor ident body db h in
      let (loaded, known, fresh, _) =
        proceed-IsFresh networks after.users session request user later passed in
      let ident' = get_row-id user_id ident row' db.users found' in
      let here =
        get_row-put_row user_id ident reply.user row' db.users (changed.same ∙ ident') found' in
      let written : load_user after.users session ≡ some reply.user = rw (named, table) here in
      let who : user ≡ reply.user = cc in
      let same : row' ≡ row = cc in
      let version = ((version_iff session user).0 fresh).1 in
      let kept : reply.user.session_version ≡ row.session_version = cc in
      unchanged row reply.user differs kept (rw (← same) changed.ended)
    where
      unchanged :
          (row new : User)
          → ((new.role ≢ row.role)
              ⊎ (is_active new ≢ is_active row)
              ⊎ (new.password_hash ≢ row.password_hash))
          → new.session_version ≡ row.session_version
          → ((new.session_version ≡ suc row.session_version)
              ⊎ ((new.role ≡ row.role) × (is_active new ≡ is_active row) × SameSecret new row))
          → ⊥
      unchanged row new differs kept (inl more) = absurd (omega (arith, kept, more))
      unchanged row new (inl d) kept (inr (role, active, secret)) = d role
      unchanged row new (inr (inl d)) kept (inr (role, active, secret)) = d active
      unchanged row new (inr (inr d)) kept (inr (role, active, secret)) = d secret.1
