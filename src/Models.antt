-- ===== src/Models.antt =====
-- app/models.py: the rows that the operations read and write. A column that may be NULL is an
-- `Option`. Columns which no modelled operation reads are left out, and so is the `public` method
-- of each model: it only copies columns into a reply.
mod Enums
pub mod Rows
pub mod Passwords
pub use Enums.*
use narsika.Base.{
  ℕ, suc, String, Bool, Option, none, some, List, [], ◌∷◌, ◌==◌, nat_eq, text_eq, option_eq,
  if◌then◌else◌,
}
use narsika.Base.Json.{Json}
use Prim.Native.Nat.{max}

pub record User : Type 0 where
  pub id : ℕ
  pub username : String
  pub password : String
  pub password_hash : String
  pub name : String
  pub role : Role
  pub must_change_password : Bool
  pub disabled_at : Option String
  pub session_version : ℕ

-- the property `is_active`
abbrev pub is_active : User → Bool
is_active user = user.disabled_at == none

pub record Credential : Type 0 where
  pub id : ℕ
  pub name : String
  pub username : String
  pub kind : String
  pub encrypted_secret : String

-- `credential` is the row that the relationship loads for `credential_id`.
pub record Device : Type 0 where
  pub id : ℕ
  pub name : String
  pub ip_address : String
  pub platform : Platform
  pub os_type : String
  pub ssh_port : ℕ
  pub snmp_port : ℕ
  pub group_id : Option ℕ
  pub credential_id : Option ℕ
  pub snmp_credential_id : Option ℕ
  pub credential : Option Credential
  pub model : String
  pub notes : String
  pub health_json : Option Json
  pub archived_at : Option String

pub record OperationRun : Type 0 where
  pub id : ℕ
  pub kind : Kind
  pub status : Status
  pub device_id : Option ℕ
  pub requested_by_id : ℕ
  pub encrypted_parameters : String
  pub output : String
  pub progress : ℕ
  pub cancel_requested : Bool
  pub error_code : Option String
  pub created_at : String
  pub started_at : Option String
  pub finished_at : Option String

pub record AuditEvent : Type 0 where
  pub actor_id : Option ℕ
  pub actor : String
  pub action : String
  pub target : String
  pub result : String
  pub detail : String

-- The tables that the operations of this development share. `runs` is in the order of the ids.
pub record Db : Type 0 where
  pub users : List User
  pub devices : List Device
  pub runs : List OperationRun
  pub audit_events : List AuditEvent

-- `db.session.get(Model, ident)`: the row with this primary key.
module _ {A : Type 0} (id : A → ℕ) where
  unfoldable pub get_row : ℕ → List A → Option A
  get_row ident [] = none
  get_row ident (row ∷ rows) = if id row == ident then some row else get_row ident rows

  -- SQLite gives a new row the largest id in the table plus one.
  last_id : List A → ℕ
  last_id [] = 0
  last_id (row ∷ rows) = max (id row) (last_id rows)

  unfoldable pub new_id : List A → ℕ
  unfolding last_id
  new_id rows = suc (last_id rows)

  -- An UPDATE of the row with this primary key.
  unfoldable pub put_row : ℕ → A → List A → List A
  put_row ident new [] = []
  put_row ident new (row ∷ rows) =
      let rest = put_row ident new rows in if id row == ident then new ∷ rows else row ∷ rest

-- `query.filter_by(…).first()`: the first row that passes the filter
unfoldable pub first_row {ℓ} : {A : Type ℓ} → (A → Bool) → List A → Option A
first_row p [] = none
first_row p (row ∷ rows) = if p row then some row else first_row p rows
