-- ===== src/Firewall/Apply.antt =====
-- `apply_review` of app/firewall_api.py with `receipt`: a reviewed plan becomes a queued run.
pub mod Once
mod Tests
pub mod History
use narsika.Base.{
  ℕ, suc, ◌+◌, String, Bool, true, false, not, ◌&&◌, ◌||◌, Option, none, some, List, [], ◌∷◌, ◌++◌,
  map, all, any, count, ltb, is_some, ◌==◌, ◌!=◌, nat_eq, text_eq, option_eq, Result, ApiError, ok,
  err, fail_if, api_error, ◌>>=◌, ◌>>◌, ◌+s◌, if◌then◌else◌,
}
use narsika.Base.Json.{Json, bool, num, str, obj, Fields, end, field, get_field}
use narsika.Models.{
  Role, role_eq, admin, firewall, User, Device, OperationRun, AuditEvent, Db, get_row,
}
use narsika.Security.{Fernet, decrypt, audit}
use narsika.Security.Inputs.{payload}
use narsika.Jobs.Target.{TargetIdentity, identity_eq, target_identity}
use narsika.Jobs.Queue.{Parameters, enqueue}
use narsika.Firewall.Words.{
  Risk, risk_text, high, lockout, risk_eq, rank, Service, custom, service_eq,
}
use narsika.Firewall.Snapshot.{Item, Plan}
use narsika.Firewall.Review.{
  StoredPlan, ReviewStatus, reviewed, queued, applying, verifying, ended, Review,
}
use narsika.Firewall.Execute.{is_high}

-- The tables that the request works on.
pub record Tables : Type 0 where
  pub db : Db
  pub reviews : List Review

-- The reply: the run of an earlier request, or the new run.
pub data Reply : Type 0 where
  reused : ℕ → Reply
  started : OperationRun → Reply

abbrev pub is_reviewed : ReviewStatus → Bool
is_reviewed reviewed = true
is_reviewed _ = false

-- `receipt(ident)` of the row that was read
unfoldable pub receipt : User → Option Review → Result Review
receipt user none = err (api_error "Review not found." "NOT_FOUND" 404)
receipt user (some row) = do
  fail_if (row.actor_id != user.id && user.role != admin)
      (api_error "This review belongs to another user." "FORBIDDEN" 403)
  ok row

-- `data.get(key) is True` and `data.get(key) == value`
is_true : Option Json → Bool
is_true (some (bool true)) = true
is_true _ = false

is_text : String → Option Json → Bool
is_text value (some (str s)) = s == value
is_text value _ = false

abbrev pub confirmations : List String
confirmations =
    "target_confirmed" ∷ "source_confirmed" ∷ "risk_ack" ∷ "recovery_saved" ∷ "no_rollback_ack" ∷ []

abbrev pub apply_keys : List String
apply_keys =
    "checksum" ∷ "target_confirmed" ∷ "source_confirmed" ∷ "risk_ack" ∷ "recovery_saved"
    ∷ "no_rollback_ack" ∷ "oob_confirmed" ∷ "device_name" ∷ "phrase" ∷ []

-- `get(Device, ident)`
unfoldable pub live_device : ℕ → List Device → Result Device
unfolding get_row
live_device ident devices = elim (get_row (λ (d : Device). d.id) ident devices) [
  | none ↦ err (api_error "Record not found." "NOT_FOUND" 404)
  | some device ↦
      if is_some device.archived_at
      then err (api_error "Record not found." "NOT_FOUND" 404)
      else ok device
]

-- The acknowledgements that the risk of the plan asks for.
unfoldable pub check_confirmations : Fields → Risk → String → Result (Unit {0})
unfolding is_true is_text get_field
check_confirmations data' risk name = do
  fail_if (not (all (λ k. is_true (get_field k data')) confirmations)) (
      api_error "Confirm the target, source, effects and recovery requirements."
        "CONFIRMATION_REQUIRED" 422)
  fail_if
      (risk == lockout
        && (not (is_true (get_field "oob_confirmed" data'))
            || not (is_text name (get_field "device_name" data'))
            || not (is_text "DISCONNECT" (get_field "phrase" data'))))
      (api_error "Confirm out-of-band access, type the device name and DISCONNECT."
        "CONFIRMATION_REQUIRED" 422)

-- The conditions of the UPDATE, and its row count with the table that it leaves.
abbrev pub is_open : String → Review → Bool
is_open ident row = row.id == ident && is_reviewed row.status && row.run_id == none

abbrev pub claim_row : String → Review → Review
claim_row ident row = if is_open ident row then record row { status = queued } else row

unfoldable pub claim : String → List Review → ℕ × List Review
claim ident reviews = (count (is_open ident) reviews, map (claim_row ident) reviews)

-- `row.run_id = run.id`
abbrev pub set_run : String → ℕ → Review → Review
set_run ident run_id row = if row.id == ident then record row { run_id = some run_id } else row

-- The parameters of the new run.
abbrev pub run_parameters : User → Review → Parameters
run_parameters user row = record {
  request =
      obj (field "review_id" (str row.id) (field "session_version" (num user.session_version) end));
  target = none;
  actor_session_version = none;
  scheduled_task = none;
  schedule_revision = none;
}

module _ (sha256 : String → String) (plan_key : Fernet StoredPlan) (digest : StoredPlan → String)
    (key : Fernet Parameters) where
  -- The checks that come before the plan is known to be fresh: the plan, if the run is new.
  unfoldable pub check_plan : User → Review → Fields → Result StoredPlan
  unfolding is_text get_field decrypt
  check_plan user row data' = do
    fail_if (row.actor_id != user.id)
        (api_error "Create your own review before applying." "FORBIDDEN" 403)
    stored ← decrypt plan_key row.encrypted_plan
    fail_if
        (not (is_text row.checksum (get_field "checksum" data')) || digest stored != row.checksum)
        (api_error "The reviewed plan does not match this receipt." "INVALID_REVIEW" 409)
    ok stored

  -- The checks of the request, up to the acknowledgements. `working` says whether the worker runs.
  unfoldable pub check_request :
      ℕ → Bool → User → Tables → Review → StoredPlan → Fields → Result Device
  unfolding live_device target_identity check_confirmations
  check_request clock working user tables row stored data' = do
    fail_if (not working)
        (api_error "The operation worker is not running." "CAPABILITY_UNAVAILABLE" 503)
    fail_if (not (is_reviewed row.status) || ltb row.expires_at clock)
        (api_error "Review expired or already consumed. Review again." "REVIEW_EXPIRED" 409)
    device ← live_device row.device_id tables.db.devices
    fail_if (stored.plan.target != target_identity sha256 device)
        (api_error "Device connection settings changed. Review again." "TARGET_CHANGED" 409)
    fail_if (stored.reviewer_session_version != user.session_version)
        (api_error "Account permissions changed. Review again." "REVIEW_EXPIRED" 409)
    fail_if
        (user.role != admin
          && (is_high stored.plan.risk
              || any (λ (i : Item). i.rule.service == custom) stored.plan.items))
        (api_error "An administrator must apply this change set." "FORBIDDEN" 403)
    check_confirmations data' stored.plan.risk device.name
    ok device

  -- From the UPDATE to the commit. An error rolls every change back.
  unfoldable pub consume :
      String → User → Tables → Review → StoredPlan → Device → Result (Reply × Tables)
  unfolding claim enqueue audit
  consume now user tables row stored device = do
    let claimed = claim row.id tables.reviews
    fail_if (claimed.0 != 1)
        (api_error "Another request already consumed this review." "CONFLICT" 409)
    queued' ←
        enqueue sha256 key now firewall (some device.id) user.id (run_parameters user row) tables.db
    let event =
        audit tables.db.users (some user) "Firewall confirmed" device.ip_address "queued"
          ("Review "
            +s row.id
            +s "; checksum "
            +s row.checksum
            +s "; risk "
            +s risk_text stored.plan.risk
            +s "; explicit acknowledgements accepted; automatic rollback unavailable")
          none
    ok (
      started queued'.0,
      record {
        db = record queued'.1 { audit_events = queued'.1.audit_events ++ event ∷ [] };
        reviews = map (set_run row.id queued'.0.id) claimed.1;
      },
    )

  unfoldable pub proceed_with :
      String
      → ℕ
      → Bool
      → User
      → Tables
      → Review
      → StoredPlan
      → Fields
      → Option ℕ
      → Result (Reply × Tables)
  unfolding check_request consume
  proceed_with now clock working user tables row stored data' (some run) = ok (reused run, tables)
  proceed_with now clock working user tables row stored data' none = do
    device ← check_request clock working user tables row stored data'
    consume now user tables row stored device

  -- `apply_review(ident)`. `read` is the row that the request read before; `tables` are the tables
  -- when it claims the review, as another request may have left them.
  unfoldable pub apply_review :
      String → ℕ → Bool → User → Option Review → Option Json → Tables → Result (Reply × Tables)
  unfolding payload receipt check_plan proceed_with
  apply_review now clock working user read body tables = do
    data' ← payload apply_keys ("checksum" ∷ []) body
    row ← receipt user read
    stored ← check_plan user row data'
    proceed_with now clock working user tables row stored data' row.run_id
