-- ===== src/Api/Records.antt =====
-- `get`, `boolean` and `reference` of app/api.py: how a request names a row.
use mathlib.Core.Path.{subst}
use narsika.Base.{
  ℕ, String, Bool, true, ◌&&◌, Option, none, some, List, [], ◌∷◌, ◌++◌, Result, ApiError, ok, err,
  api_error, invalid, ◌>>=◌, ◌+s◌, ◌≡◌, false, arith, bind-eq-ok, ap, sym, ◌∙◌, if◌then◌else◌,
}
use narsika.Base.Json.{Json, null, bool, num, str}
use narsika.Models.{User, Db, get_row}
use narsika.Models.Rows.{get_row-id}
use narsika.Security.{audit}
use narsika.Security.Inputs.{integer, read_integer}

abbrev pub missing : ApiError
missing = api_error "Record not found." "NOT_FOUND" 404

-- The largest id of a row, 2^63 - 1.
abbrev pub last_record : ℕ
last_record = 9223372036854775807

-- A table: the primary key of a row, and whether `archived_at` is set.
module _ {A : Type 0} (id : A → ℕ) (is_archived : A → Bool) where
  unfoldable pub find_live : Bool → Option A → Result A
  find_live active none = err missing
  find_live active (some row) = if active && is_archived row then err missing else ok row

  -- `get(model, ident, active)`
  unfoldable pub get : Bool → Option Json → List A → Result A
  unfolding find_live get_row integer
  get active value rows = do
    ident ← integer value "record ID" 1 last_record
    find_live active (get_row id ident rows)

-- The table refuses a second row with a unique value (`IntegrityError`, answered by `conflict`).
abbrev pub conflict : ApiError
conflict = api_error "A record with these values already exists." "CONFLICT" 409

-- `audit(action, target, detail=detail)` of a request.
unfoldable pub logged_detail : User → String → String → String → Db → Db
unfolding audit
logged_detail actor action target detail db = record db {
  audit_events =
      db.audit_events ++ audit db.users (some actor) action target "success" detail none ∷ [];
}

unfoldable pub logged : User → String → String → Db → Db
unfolding logged_detail
logged actor action target db = logged_detail actor action target "" db

-- `boolean(value, name)`
unfoldable pub boolean : Option Json → String → Result Bool
boolean (some (bool b)) name = ok b
boolean value name = invalid (name +s " must be true or false.")

-- `data.get(key, default)` where the value is tested by `isinstance(…, bool)`
unfoldable pub boolean_or : Bool → Option Json → String → Result Bool
unfolding boolean
boolean_or default none name = ok default
boolean_or default (some value) name = boolean (some value) name

-- `reference(value, model, kind)`: null and the empty text name no row.
module _ {A : Type 0} (id : A → ℕ) (is_archived : A → Bool) (fits : A → Bool) where
  check_kind : A → Result (Option ℕ)
  check_kind row =
      if fits row then ok (some (id row)) else invalid "Credential type does not match this field."

  unfoldable pub reference : Json → List A → Result (Option ℕ)
  unfolding check_kind get
  reference null rows = ok none
  reference (str String.[]) rows = ok none
  reference value rows = get id is_archived true (some value) rows >>= check_kind

-- The row that `get` returns is the one with the id, and it is not archived.
pub get-eq-ok :
    {A : Type 0} (id : A → ℕ) (is_archived : A → Bool) (ident : ℕ) (rows : List A) {row : A}
    → get id is_archived true (some (num ident)) rows ≡ ok row
    → (get_row id ident rows ≡ some row) × (is_archived row ≡ false)
unfolding get find_live integer read_integer
get-eq-ok id is_archived ident rows h = ground arith

find_live-eq-ok :
    {A : Type 0} (id : A → ℕ) (is_archived : A → Bool) (answer : Option A) {row : A}
    → find_live id is_archived true answer ≡ ok row
    → answer ≡ some row
unfolding find_live
find_live-eq-ok id is_archived none h = absurd cc
find_live-eq-ok id is_archived (some row) h = ground arith

-- The row that an id from the body names.
pub get_value-eq-ok :
    {A : Type 0} (id : A → ℕ) (is_archived : A → Bool) (value : Option Json) (rows : List A)
    {row : A}
    → get id is_archived true value rows ≡ ok row
    → (integer value "record ID" 1 last_record ≡ ok (id row))
      × (get_row id (id row) rows ≡ some row)
unfolding get
get_value-eq-ok id is_archived value rows {row} h =
    let (ident, read, h₁) = bind-eq-ok (integer value "record ID" 1 last_record) _ h in
    let holds = find_live-eq-ok id is_archived _ h₁ in
    let same = get_row-id id ident row rows holds in
    (
      read ∙ ap {B = Result ℕ} ok (sym same),
      subst (λ (i : ℕ). get_row id i rows ≡ some row) (sym same) holds,
    )

pub get_any-eq-ok :
    {A : Type 0} (id : A → ℕ) (is_archived : A → Bool) (ident : ℕ) (rows : List A) {row : A}
    → get id is_archived false (some (num ident)) rows ≡ ok row
    → get_row id ident rows ≡ some row
unfolding get find_live integer read_integer
get_any-eq-ok id is_archived ident rows h = ground arith
