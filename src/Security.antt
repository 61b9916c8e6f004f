-- ===== src/Security.antt =====
-- app/security.py: encryption at rest, roles, input validation and the audit log.
mod Cipher
pub mod Inputs
pub mod Scope
pub mod Access
mod Tests
pub use Cipher.{Fernet, decrypt-encrypt}
unfoldable pub use Cipher.{encrypt, decrypt}
use narsika.Base.{
  ℕ, String, Bool, Option, none, some, List, ◌≡◌, arith, ◌==◌, nat_eq, take_chars, if◌then◌else◌,
}
use narsika.Models.{User, AuditEvent, get_row}

-- Who the audit log names: the given actor if there is such a row, else the signed-in user.
audit_user : List User → Option User → Option ℕ → Option User
unfolding get_row
audit_user users session none = session
audit_user users session (some actor_id) =
    if actor_id == 0 then session else get_row (λ (user : User). user.id) actor_id users

audit_row : Option User → String → String → String → String → AuditEvent
unfolding take_chars
audit_row none action target result detail = record {
  actor_id = none;
  actor = "anonymous";
  action = action;
  target = take_chars 150 target;
  result = result;
  detail = detail;
}
audit_row (some user) action target result detail = record {
  actor_id = some user.id;
  actor = user.username;
  action = action;
  target = take_chars 150 target;
  result = result;
  detail = detail;
}

-- `audit(action, target, result, detail, actor_id)`: the row that the call adds. `session` is the
-- signed-in user of the request, if there is a request.
unfoldable pub audit :
    List User → Option User → String → String → String → String → Option ℕ → AuditEvent
unfolding audit_user audit_row
audit users session action target result detail actor_id =
    audit_row (audit_user users session actor_id) action target result detail

-- The row says what the caller gave it.
pub audit_lem :
    (users : List User) (session : Option User) (action target result detail : String)
    (actor_id : Option ℕ)
    → let row = audit users session action target result detail actor_id in
      (row.action ≡ action) × (row.result ≡ result) × (row.detail ≡ detail)
unfolding audit
audit_lem users session action target result detail actor_id = ground arith
