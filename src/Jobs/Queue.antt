-- ===== src/Jobs/Queue.antt =====
-- `enqueue` and the restart of `JobManager.__init__` in app/services/jobs.py: what enters the
-- queue, and what a restart makes of the runs that the old process had begun.
pub mod Capacity
pub mod Filed
use narsika.Base.{
  ℕ, String, Bool, false, ◌||◌, Option, none, some, List, [], ◌∷◌, ◌++◌, map, count, leb, ◌==◌,
  nat_eq, Result, ok, fail, ◌>>=◌, ◌+s◌, if◌then◌else◌,
}
use narsika.Base.Json.{Json}
use narsika.Models.{
  Kind, Status, status_eq, pending, running, interrupted, User, Device, OperationRun, Db, get_row,
  new_id,
}
use narsika.Security.{Fernet, encrypt}
use narsika.Jobs.Target.{TargetIdentity, target_identity}

-- The dictionary of a run: the fields of its own operation, and the keys that the server adds,
-- `_target`, `_actor_session_version`, `_scheduled_task` and `_schedule_revision`.
pub record Parameters : Type 0 where
  pub request : Json
  pub target : Option TargetIdentity
  pub actor_session_version : Option ℕ
  pub scheduled_task : Option ℕ
  pub schedule_revision : Option ℕ

-- `status IN ('PENDING','RUNNING')`
abbrev pub is_active_run : OperationRun → Bool
is_active_run run = run.status == pending || run.status == running

abbrev pub is_pending : OperationRun → Bool
is_pending run = run.status == pending

abbrev pub is_running : OperationRun → Bool
is_running run = run.status == running

abbrev pub queue_limit : ℕ
queue_limit = 32

unfoldable pub active_count : List OperationRun → ℕ
active_count runs = count is_active_run runs

-- Reading an attribute of None ends the request with this error (`internal_error` of __init__.py).
abbrev pub internal_error {ℓ} : {A : Type ℓ} → Result A
internal_error = fail "The operation could not be completed." "INTERNAL_ERROR" 500

module _ (sha256 : String → String) where
  add_target : List Device → Option ℕ → Parameters → Result Parameters
  unfolding get_row
  add_target devices none parameters = ok parameters
  add_target devices (some ident) parameters =
      if ident == 0 then ok parameters else elim (get_row (λ (d : Device). d.id) ident devices) [
        | none ↦ internal_error
        | some device ↦ ok (record parameters { target = some (target_identity sha256 device) })
      ]

add_actor : Option User → Parameters → Parameters
add_actor none parameters = parameters
add_actor (some user) parameters = record parameters {
  actor_session_version = some user.session_version;
}

module _ (sha256 : String → String) (key : Fernet Parameters) where
  -- The row that the INSERT writes.
  new_run : String → Kind → Option ℕ → ℕ → Parameters → Db → OperationRun
  unfolding new_id
  new_run now kind device_id user_id parameters db = record {
    id = new_id (λ (run : OperationRun). run.id) db.runs;
    kind = kind;
    status = pending;
    device_id = device_id;
    requested_by_id = user_id;
    encrypted_parameters = encrypt key parameters;
    output = "";
    progress = 0;
    cancel_requested = false;
    error_code = none;
    created_at = now;
    started_at = none;
    finished_at = none;
  }

  unfoldable pub insert_run :
      String → Kind → Option ℕ → ℕ → Db → Parameters → Result (OperationRun × Db)
  unfolding new_run active_count
  insert_run now kind device_id user_id db parameters =
      let run = new_run now kind device_id user_id parameters db in
      if leb queue_limit (active_count db.runs)
      then fail "The operation queue is full. Retry later." "BUSY" 429
      else ok (run, record db { runs = db.runs ++ run ∷ [] })

  -- `enqueue(kind, device_id, user_id, parameters)`: the new run, and the tables after it.
  unfoldable pub enqueue :
      String → Kind → Option ℕ → ℕ → Parameters → Db → Result (OperationRun × Db)
  unfolding add_target add_actor insert_run
  enqueue now kind device_id user_id parameters db = do
    targeted ← add_target sha256 db.devices device_id parameters
    let user = get_row (λ (u : User). u.id) user_id db.users
    insert_run now kind device_id user_id db (add_actor user targeted)

-- One RUNNING row at the start of a process: a killed process cannot have finished it.
unfoldable pub interrupt : String → OperationRun → OperationRun
interrupt now run =
    if run.status == running
    then (record run {
      status = interrupted;
      error_code = some "PROCESS_RESTART";
      finished_at = some now;
      output =
          run.output
          +s "\nProcess restarted. Check the target for partial changes before rerunning.";
    })
    else run

unfoldable pub restart : String → List OperationRun → List OperationRun
unfolding interrupt
restart now runs = map (interrupt now) runs
