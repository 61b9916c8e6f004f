-- ===== src/Firewall/Execute.antt =====
-- `execute` of app/services/firewall.py: the operation of a queued firewall run, from the receipt to
-- the final status.
pub mod Safety
pub mod Outcome
pub mod Replay
mod Tests
use narsika.Base.{
  ℕ, String, Bool, true, false, not, ◌&&◌, ◌||◌, Option, none, some, List, [], ◌∷◌, count, any,
  length, ltb, is_some, ◌==◌, ◌!=◌, nat_eq, text_eq, option_eq, Result, ApiError, ok, err, fail_if,
  api_error, ◌>>=◌, ◌>>◌, ◌+s◌, show, take_chars, if◌then◌else◌,
}
use narsika.Models.{
  Role, role_eq, admin, operator, Status, success, failed, cancelled, partial, applied_unverified,
  User, is_active, Device, OperationRun, AuditEvent,
}
use narsika.Security.{Fernet, decrypt, audit}
use narsika.Jobs.Target.{TargetIdentity, identity_eq, target_identity}
use narsika.Jobs.Execute.{Performed, returned, raised, crashed}
use narsika.Firewall.Words.{Risk, high, lockout, risk_eq}
use narsika.Firewall.Snapshot.{Snapshot, Item, Plan}
use narsika.Firewall.Review.{StoredPlan, ReviewStatus, applying, verifying, ended, Review}
use narsika.Firewall.Verify.{verify}

-- A call that other code answers: a value, an APIError, or any other exception.
pub data Answer (A : Type 0) : Type 0 where
  gave : A → Answer A
  refused : ApiError → Answer A
  broke : Answer A

-- What the calls of the operation come to, in the order in which it makes them: the device lock, two
-- readings with the backup between them, the rows after a refresh, `run_ansible`, the row after
-- another refresh, and a last reading.
pub record World : Type 0 where
  pub users : List User
  pub lock : Answer (Unit {0})
  pub before : Answer Snapshot
  pub backup : Answer ℕ
  pub again : Answer Snapshot
  pub user : User
  pub device : Device
  pub run : OperationRun
  pub ansible : Answer (Unit {0})
  pub run_after : OperationRun
  pub after : Answer Snapshot

-- The arguments: `session` is the `session_version` of `params`.
pub record Request : Type 0 where
  pub run : OperationRun
  pub session : Option ℕ
  pub device : Device
  pub user : User

-- What the operation leaves: its result with the row of the run, the receipt, whether
-- `run_ansible` was called with the commands, and the rows added to the audit log.
pub record Effects : Type 0 where
  pub performed : Performed
  pub receipt : Option Review
  pub sent : Bool
  pub events : List AuditEvent

abbrev pub missing_receipt : ApiError
missing_receipt = api_error "Firewall receipt is missing." "INVALID_REVIEW" 409

abbrev pub integrity_error : ApiError
integrity_error = api_error "Review integrity check failed." "INVALID_REVIEW" 409

abbrev pub expired_error : ApiError
expired_error =
    api_error "Review expired or account changed while queued. Review again." "REVIEW_EXPIRED" 409

abbrev pub admin_error : ApiError
admin_error = api_error "Administrator permission is required." "FORBIDDEN" 403

abbrev pub changed_error : ApiError
changed_error =
    api_error "Firewall changed since review. No commands sent. Refresh and review again."
      "STALE_STATE" 409

abbrev pub during_error : ApiError
during_error = api_error "Firewall changed during backup. No commands sent." "STALE_STATE" 409

abbrev pub account_error : ApiError
account_error =
    api_error "Account authorization changed during preflight. No commands sent." "FORBIDDEN" 403

abbrev pub moved_error : ApiError
moved_error = api_error "Target changed during preflight. No commands sent." "TARGET_CHANGED" 409

-- `not row or row.run_id != run.id`
unfoldable pub check_receipt : Option Review → ℕ → Result Review
check_receipt none ident = err missing_receipt
check_receipt (some row) ident = if row.run_id == some ident then ok row else err missing_receipt

abbrev pub is_high : Risk → Bool
is_high risk = risk == high || risk == lockout

-- `digest` is the checksum of a stored plan.
module _ (key : Fernet StoredPlan) (digest : StoredPlan → String) where
  -- The checks before the lock.
  unfoldable pub open_receipt : ℕ → Option Review → Request → Result (Review × StoredPlan)
  unfolding check_receipt decrypt
  open_receipt clock receipt req = do
    row ← check_receipt receipt req.run.id
    stored ← decrypt key row.encrypted_plan
    fail_if (digest stored != row.checksum) integrity_error
    fail_if (ltb row.expires_at clock || req.session != some req.user.session_version) expired_error
    fail_if (is_high stored.plan.risk && req.user.role != admin) admin_error
    ok (row, stored)

-- `not user.is_active or user.role not in (…) or user.session_version != …`
unfoldable pub is_allowed : User → Option ℕ → Bool
is_allowed user session =
    is_active user
    && (user.role == admin || user.role == operator)
    && session == some user.session_version

-- The checks after the second reading.
unfoldable pub check_rows : (String → String) → Plan → Option ℕ → World → Result (Unit {0})
unfolding is_allowed target_identity
check_rows sha256 plan session world = do
  fail_if (not (is_allowed world.user session)) account_error
  fail_if (target_identity sha256 world.device != plan.target || is_some world.device.archived_at)
      moved_error

-- An exception that ends the operation.
abbrev pub stop : OperationRun → Option Review → List AuditEvent → Bool → ApiError → Effects
stop run receipt events sent e = record {
  performed = raised e run;
  receipt = receipt;
  sent = sent;
  events = events;
}

abbrev pub crash : OperationRun → Option Review → List AuditEvent → Bool → Effects
crash run receipt events sent = record {
  performed = crashed run;
  receipt = receipt;
  sent = sent;
  events = events;
}

abbrev pub finish : OperationRun → Review → List AuditEvent → Bool → String → Effects
finish run row events sent detail = record {
  performed = returned detail run;
  receipt = some (record row { status = ended run.status });
  sent = sent;
  events = events;
}

-- `ex.code`, or the code for another exception
unfoldable pub execution_error : Answer (Unit {0}) → Option String
execution_error (gave done) = none
execution_error (refused e) = some e.code
execution_error broke = some "EXECUTION_ERROR"

-- The status of the run where the verification is done.
unfoldable pub conclusion : Bool → List Bool → Bool → Bool → Status
conclusion complete outcomes changed cancel =
    if complete
    then success
    else if any (λ b. b) outcomes || changed
    then partial
    else if cancel
    then cancelled
    else failed

unfoldable pub conclusion_detail : Bool → List Bool → String
unfolding show
conclusion_detail true outcomes =
    "Fresh SSH verified all requested configuration entries and managed order. End-to-end traffic is not tested."
conclusion_detail false outcomes =
    "Configuration verification matched "
    +s show (count (λ b. b) outcomes)
    +s "/"
    +s show (length outcomes)
    +s " requested entries. Inspect the target before retrying."

unfoldable pub with_error : Option String → OperationRun → OperationRun
with_error none run = run
with_error (some code) run = record run { error_code = some code }

pub error_note : Option String → String
error_note none = ""
error_note (some code) = " The executor reported " +s code +s "."

abbrev pub unverified_detail : String
unverified_detail =
    "Execution was attempted, but a fresh SSH connection could not verify the result. This does not prove any command was applied. Use the saved backup and recovery commands through console/OOB."

-- The verification of the last reading, with what `verify` returned.
unfoldable pub conclude_with :
    Snapshot
    → Snapshot
    → Answer (Unit {0})
    → OperationRun
    → Review
    → List AuditEvent
    → Result (Bool × List Bool)
    → Effects
unfolding execution_error conclusion conclusion_detail with_error error_note
conclude_with before after ansible run row events (err e) =
    stop run (some (record row { status = verifying })) events true e
conclude_with before after ansible run row events (ok (complete, outcomes)) =
    let status =
      conclusion complete outcomes (after.fingerprint != before.fingerprint) run.cancel_requested in
    finish (with_error (execution_error ansible) (record run { status = status })) row events true
      (conclusion_detail complete outcomes +s error_note (execution_error ansible))

-- From `row.status='APPLYING'` on.
unfoldable pub send : Plan → Snapshot → World → Review → List AuditEvent → Answer Snapshot → Effects
unfolding conclude_with verify
send plan before world row events (refused e) =
    finish (record world.run_after { status = applied_unverified }) row events true
      unverified_detail
send plan before world row events broke =
    crash world.run_after (some (record row { status = verifying })) events true
send plan before world row events (gave after) =
    conclude_with before after world.ansible world.run_after row events (verify plan after)

-- From the flag `cancel_requested` on, once the rows are checked.
unfoldable pub depart :
    Plan → Snapshot → World → Review → List AuditEvent → Result (Unit {0}) → Effects
unfolding send
depart plan before world row events (err e) = stop world.run (some row) events false e
depart plan before world row events (ok done) =
    if world.run.cancel_requested
    then finish (record world.run { status = cancelled }) row events false
        "Cancelled before firewall execution. No change commands were sent."
    else send plan before world row events world.after

-- From the second reading on.
unfoldable pub recheck :
    (String → String)
    → Plan
    → Option ℕ
    → Snapshot
    → World
    → Review
    → List AuditEvent
    → Answer Snapshot
    → Effects
unfolding check_rows depart
recheck sha256 plan session before world row events (refused e) =
    stop world.run (some row) events false e
recheck sha256 plan session before world row events broke = crash world.run (some row) events false
recheck sha256 plan session before world row events (gave again) =
    if again.fingerprint != before.fingerprint
    then stop world.run (some row) events false during_error
    else depart plan before world row events (check_rows sha256 plan session world)

-- What is stored once the backup is there: the output of the run, and a row of the audit log.
abbrev pub started_output : ℕ → Review → String
started_output backup row =
    "Backup " +s show backup +s " saved. Executing review " +s take_chars 12 row.checksum +s ".\n"

abbrev pub starting_event : Request → List User → ℕ → Review → AuditEvent
starting_event req users backup row =
    audit users none "Firewall apply starting" req.device.ip_address "running"
      ("Review " +s row.id +s "; backup " +s show backup) (some req.user.id)

-- From the backup on.
unfoldable pub back_up :
    (String → String) → Plan → Request → Snapshot → World → Review → Answer ℕ → Effects
unfolding recheck show take_chars audit
back_up sha256 plan req before world row (refused e) = stop req.run (some row) [] false e
back_up sha256 plan req before world row broke = crash req.run (some row) [] false
back_up sha256 plan req before world row (gave backup) =
    recheck sha256 plan req.session before
      (record world { run = record world.run { output = started_output backup row } }) row
      (starting_event req world.users backup row ∷ []) world.again

-- From the first reading on.
unfoldable pub compare_state :
    (String → String) → Plan → Request → World → Review → Answer Snapshot → Effects
unfolding back_up
compare_state sha256 plan req world row (refused e) = stop req.run (some row) [] false e
compare_state sha256 plan req world row broke = crash req.run (some row) [] false
compare_state sha256 plan req world row (gave before) =
    if before.fingerprint != plan.baseline.fingerprint
    then stop req.run (some row) [] false changed_error
    else back_up sha256 plan req before world row world.backup

unfoldable pub hold_lock :
    (String → String) → Plan → Request → World → Review → Answer (Unit {0}) → Effects
unfolding compare_state
hold_lock sha256 plan req world row (refused e) = stop req.run (some row) [] false e
hold_lock sha256 plan req world row broke = crash req.run (some row) [] false
hold_lock sha256 plan req world row (gave done) =
    compare_state sha256 plan req world row world.before

unfoldable pub proceed :
    (String → String) → World → Option Review → Request → Result (Review × StoredPlan) → Effects
unfolding hold_lock
proceed sha256 world receipt req (err e) = stop req.run receipt [] false e
proceed sha256 world receipt req (ok (row, stored)) =
    hold_lock sha256 stored.plan req world row world.lock

-- `execute(run, params, device, user)`. `receipt` is the row that `params` names.
unfoldable pub execute :
    (String → String)
    → Fernet StoredPlan
    → (StoredPlan → String)
    → ℕ
    → World
    → Option Review
    → Request
    → Effects
unfolding open_receipt proceed
execute sha256 key digest clock world receipt req =
    proceed sha256 world receipt req (open_receipt key digest clock receipt req)
