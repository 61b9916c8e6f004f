-- ===== src/Jobs/Execute.antt =====
-- `JobManager.execute` of app/services/jobs.py: one run that the pool has taken up. The checks come
-- first, then the operation, then the result is stored.
pub mod Guards
pub mod Roundtrip
pub mod Outcome
use narsika.Base.{
  ℕ, String, Bool, true, false, not, ◌&&◌, ◌||◌, Option, none, some, List, [], ◌∷◌, is_some, ◌==◌,
  ◌!=◌, nat_eq, option_eq, Result, ApiError, ok, err, fail, fail_if, api_error, ◌>>=◌, ◌>>◌, ◌+s◌,
  keep_last, if◌then◌else◌,
}
use narsika.Models.{
  discovery, firewall, Kind, kind_eq, kind_text, Role, role_eq, viewer, operator, admin, Status,
  status_eq, status_text, pending, success, failed, cancelled, User, is_active, Device,
  OperationRun, AuditEvent, Db, get_row,
}
use narsika.Security.{Fernet, decrypt, audit}
use narsika.Jobs.Target.{TargetIdentity, identity_eq, target_identity}
use narsika.Jobs.Queue.{Parameters}
use narsika.Jobs.Dispatch.{audit_target}

abbrev pub output_limit : ℕ
output_limit = 100000

abbrev pub waiting_note : String
waiting_note = "Waiting for an available device connection. No commands have been sent."

abbrev pub owner_error : ApiError
owner_error = api_error "Run owner is no longer authorized." "FORBIDDEN" 403

abbrev pub session_error : ApiError
session_error =
    api_error "Account access changed after this run was queued. Review and submit it again."
      "AUTHORIZATION_CHANGED" 409

abbrev pub missing_error : ApiError
missing_error = api_error "Target device is unavailable." "NOT_FOUND" 404

abbrev pub target_error : ApiError
target_error =
    api_error
      "Target connection settings changed after this run was queued. Review and submit it again."
      "TARGET_CHANGED" 409

-- `not user or not user.is_active or user.role not in ('ADMIN','OPERATOR') or …`, negated
unfoldable pub may_run : User → Bool
may_run user =
    is_active user && (user.role == admin || user.role == operator) && not user.must_change_password

check_owner : Option User → Result User
unfolding may_run
check_owner none = err owner_error
check_owner (some user) = if may_run user then ok user else err owner_error

-- `version is not None and version != user.session_version`
check_session : User → Option ℕ → Result (Unit {0})
check_session user none = ok tt
check_session user (some version) = fail_if (version != user.session_version) session_error

-- `db.session.get(Device, run.device_id) if run.device_id else None`
pub find_device : List Device → Option ℕ → Option Device
unfolding get_row
find_device devices none = none
find_device devices (some ident) =
    if ident == 0 then none else get_row (λ (d : Device). d.id) ident devices

-- `run.kind != 'discovery' and (not device or device.archived_at)`
check_present : Kind → Option Device → Result (Unit {0})
check_present kind none = fail_if (kind != discovery) missing_error
check_present kind (some device) =
    fail_if (kind != discovery && is_some device.archived_at) missing_error

check_target : (String → String) → Option Device → Option TargetIdentity → Result (Unit {0})
check_target sha256 none target = ok tt
check_target sha256 (some device) target =
    fail_if (target != some (target_identity sha256 device)) target_error

-- `parameters.pop('_actor_session_version', None)`, and `parameters.pop('_target', None)`, which
-- stands behind `device and`
unfoldable pub without_identity : Option Device → Parameters → Parameters
without_identity none parameters = record parameters { actor_session_version = none }
without_identity (some device) parameters = record parameters {
  actor_session_version = none;
  target = none;
}

-- What `preflight` pops: the revision only where there is a task.
unfoldable pub without_schedule : Parameters → Parameters
without_schedule parameters = elim parameters.scheduled_task [
  | none ↦ parameters
  | some task ↦ record parameters { scheduled_task = none; schedule_revision = none }
]

-- What the call of the operation came to, with the row as the database holds it afterwards: other
-- requests and the operation itself write to the row in the meantime.
pub data Performed : Type 0 where
  returned : String → OperationRun → Performed
  raised : ApiError → OperationRun → Performed
  crashed : OperationRun → Performed

-- `preflight` is that of scheduling.py, less the keys that it takes out.
module _ (sha256 : String → String) (key : Fernet Parameters)
    (preflight : Parameters → Option ℕ → Result (Unit {0})) where
  -- The checks before the operation: what it is called with, or the error. Each check takes its
  -- keys out of the parameters.
  unfoldable pub guards : Db → OperationRun → Result (Parameters × Option Device)
  unfolding check_owner check_session find_device check_present check_target without_identity
      without_schedule
  guards db run = do
    user ← check_owner (get_row (λ (u : User). u.id) run.requested_by_id db.users)
    parameters ← decrypt key run.encrypted_parameters
    check_session user parameters.actor_session_version
    let device = find_device db.devices run.device_id
    check_present run.kind device
    check_target sha256 device parameters.target
    let rest = without_identity device parameters
    preflight rest run.device_id
    ok (without_schedule rest, device)

-- The status of a run whose operation returned; `firewall.execute` sets its own.
unfoldable pub complete : OperationRun → OperationRun
complete run =
    let status =
      if run.kind == firewall
      then run.status
      else if run.cancel_requested
      then cancelled
      else success in
    record run { status = status; progress = if status == success then 100 else run.progress }

append_output : OperationRun → String → String
append_output run detail = keep_last output_limit (run.output +s "\n" +s detail)

-- The last lines of the method, common to success and failure.
conclude : Db → String → OperationRun → String → OperationRun × List AuditEvent
unfolding append_output
conclude db now run detail = (
  record run { output = append_output run detail; finished_at = some now },
  audit db.users none ("Run " +s kind_text run.kind) (audit_target run) (status_text run.status)
        detail (some run.requested_by_id)
      ∷ [],
)

-- The flag was set after the pass of the dispatcher and before the worker began.
cancel_early : Db → String → OperationRun → OperationRun × List AuditEvent
unfolding append_output
cancel_early db now run = (
  record run {
    status = cancelled;
    finished_at = some now;
    output = append_output run "Cancelled before network execution.";
  },
  audit db.users none ("Run " +s kind_text run.kind) (audit_target run) "cancelled" ""
        (some run.requested_by_id)
      ∷ [],
)

-- The handlers: only an error of the connection lock puts the run back into the queue.
settle : Db → String → Performed → OperationRun × List AuditEvent
unfolding complete conclude
settle db now (returned detail run) = conclude db now (complete run) detail
settle db now (raised e run) =
    if e.retryable_before_network
    then (
      record run { status = pending; started_at = none; error_code = none; output = waiting_note },
      [],
    )
    else conclude db now (record run { status = failed; error_code = some e.code }) e.message
settle db now (crashed run) =
    conclude db now (record run { status = failed; error_code = some "INTERNAL_ERROR" })
      "Operation failed. Inspect server capabilities and target connectivity."

-- `perform` stands for the operations `scan`, `capture`, `firewall.execute` and `run_ansible`, and
-- everything that they do to the device.
module _ (sha256 : String → String) (key : Fernet Parameters)
    (preflight : Parameters → Option ℕ → Result (Unit {0}))
    (perform : OperationRun → Parameters → Option Device → Performed) where
  pub run_operation : OperationRun → Result (Parameters × Option Device) → Performed
  run_operation run (ok (parameters, device)) = perform run parameters device
  run_operation run (err e) = raised e run

  unfoldable pub execute : Db → String → OperationRun → OperationRun × List AuditEvent
  unfolding guards run_operation cancel_early settle
  execute db now run =
      if run.cancel_requested
      then cancel_early db now run
      else settle db now (run_operation run (guards sha256 key preflight db run))
