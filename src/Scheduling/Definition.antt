-- ===== src/Scheduling/Definition.antt =====
-- `validate_definition` and `preflight` of app/services/scheduling.py, with the rows of scheduled
-- tasks. The check of a run's parameters (`prepare_run` of app/api.py, in Api/Runs) and the hash of a
-- playbook's file are parameters.
use narsika.Base.{
  ℕ, String, Bool, not, ◌||◌, Option, none, some, List, [], ◌∷◌, filter, length, is_some, ◌==◌,
  ◌!=◌, nat_eq, text_eq, option_eq, Result, ApiError, ok, err, fail_if, api_error, fail, ◌>>=◌,
  ◌>>◌, if◌then◌else◌,
}
use narsika.Base.Json.{Json}
use narsika.Models.{Vendor, Kind, kind_eq, playbook, User, Device, Db, get_row}
use narsika.Security.{Fernet, decrypt}
use narsika.Jobs.Target.{TargetIdentity, identity_eq, target_identity}
use narsika.Jobs.Queue.{Parameters}
use narsika.Jobs.Execute.{may_run}
use narsika.Scheduling.Rule.{Rule}

pub record Target : Type 0 where
  pub id : ℕ
  pub name : String
  pub identity : TargetIdentity

pub record PlaybookVersion : Type 0 where
  pub id : ℕ
  pub version : String
  pub sha256 : String

-- What `definition` saves.
pub record Saved : Type 0 where
  pub parameters : Json
  pub targets : List Target
  pub playbook : Option PlaybookVersion

pub record Book : Type 0 where
  pub id : ℕ
  pub name : String
  pub vendor : Vendor
  pub active : Bool
  pub version : String

pub record ScheduledTask : Type 0 where
  pub id : ℕ
  pub name : String
  pub owner_id : ℕ
  pub kind : Kind
  pub enabled : Bool
  pub revision : ℕ
  pub rule : Rule
  pub encrypted_definition : String
  pub next_due : Option ℕ
  pub attention : String
  pub creation_token : String
  pub last_review_token : String

pub data OccurrenceStatus : Type 0 where
  queued skipped_overlap blocked skipped_capacity missed : OccurrenceStatus

abbrev pub occurrence_text : OccurrenceStatus → String
occurrence_text queued = "queued"
occurrence_text skipped_overlap = "skipped_overlap"
occurrence_text blocked = "blocked"
occurrence_text skipped_capacity = "skipped_capacity"
occurrence_text missed = "missed"

pub record Occurrence : Type 0 where
  pub id : ℕ
  pub task_id : ℕ
  pub token : String
  pub scheduled_for : ℕ
  pub source : String
  pub status : OccurrenceStatus
  pub detail : String
  pub revision : ℕ

pub record ScheduleRun : Type 0 where
  pub occurrence_id : ℕ
  pub device_id : ℕ
  pub device_name : String
  pub run_id : ℕ

pub record Calendar : Type 0 where
  pub db : Db
  pub playbooks : List Book
  pub occurrences : List Occurrence
  pub links : List ScheduleRun

abbrev pub owner_error : ApiError
owner_error =
    api_error "The task owner is no longer authorized. Restore access and review this task."
      "AUTHORIZATION_CHANGED" 409

abbrev pub playbook_error : ApiError
playbook_error =
    api_error "The playbook version or content changed. Edit and review this task."
      "PLAYBOOK_CHANGED" 409

abbrev pub target_error : ApiError
target_error =
    api_error "A target or its connection credentials changed. Edit and review this task."
      "TARGET_CHANGED" 409

abbrev pub removed_error : ApiError
removed_error = api_error "This device is no longer a target of the task." "TARGET_CHANGED" 409

check_owner : Option User → Result (Unit {0})
unfolding may_run
check_owner none = err owner_error
check_owner (some owner) = fail_if (not (may_run owner)) owner_error

-- The parameters: the digest of hashlib, `content` of a playbook's file, `prepare_run`.
module _ (sha256 : String → String) (content : Book → String)
    (prepare : Kind → Device → Json → Result (Unit {0})) where
  check_book : Option Book → PlaybookVersion → Result (Unit {0})
  check_book none expected = err playbook_error
  check_book (some book) expected =
      fail_if
        (not book.active
          || book.version != expected.version
          || sha256 (content book) != expected.sha256)
        playbook_error

  -- A saved playbook task has a version; the missing key would raise.
  check_playbook : List Book → Kind → Option PlaybookVersion → Result (Unit {0})
  unfolding check_book get_row
  check_playbook books playbook none =
      fail "The operation could not be completed." "INTERNAL_ERROR" 500
  check_playbook books playbook (some expected) =
      check_book (get_row (λ (b : Book). b.id) expected.id books) expected
  check_playbook books kind saved = ok tt

  check_device : Kind → Json → Target → Option Device → Result (Unit {0})
  unfolding target_identity
  check_device kind parameters target none = err target_error
  check_device kind parameters target (some device) = do
    fail_if (is_some device.archived_at || target_identity sha256 device != target.identity)
        target_error
    prepare kind device parameters

  check_targets : List Device → Kind → Json → List Target → Result (Unit {0})
  unfolding check_device get_row
  check_targets devices kind parameters [] = ok tt
  check_targets devices kind parameters (target ∷ targets) = do
    check_device kind parameters target (get_row (λ (d : Device). d.id) target.id devices)
    check_targets devices kind parameters targets

  -- The targets that are checked: one run checks its own.
  own_targets : Option ℕ → List Target → Result (List Target)
  own_targets none targets = ok targets
  own_targets (some device_id) targets =
      let own = filter (λ (t : Target). t.id == device_id) targets in
      fail_if (length own == 0) removed_error >> ok own

  unfoldable pub validate_definition :
      Fernet Saved → Calendar → ScheduledTask → Option ℕ → Result Saved
  unfolding check_owner check_playbook check_targets own_targets decrypt get_row
  validate_definition key calendar task device_id = do
    check_owner (get_row (λ (u : User). u.id) task.owner_id calendar.db.users)
    saved ← decrypt key task.encrypted_definition
    check_playbook calendar.playbooks task.kind saved.playbook
    targets ← own_targets device_id saved.targets
    check_targets calendar.db.devices task.kind saved.parameters targets
    ok saved

  -- `preflight`, which `JobManager.execute` calls before the operation of a run.
  unfoldable pub preflight :
      Fernet Saved → Calendar → List ScheduledTask → Parameters → Option ℕ → Result (Unit {0})
  unfolding validate_definition get_row
  preflight key calendar tasks parameters device_id = elim parameters.scheduled_task [
    | none ↦ ok tt
    | some ident ↦ elim (get_row (λ (t : ScheduledTask). t.id) ident tasks) [
      | none ↦
          fail "Scheduled task changed after dispatch. Review before rerunning." "SCHEDULE_CHANGED"
            409
      | some task ↦
          if parameters.schedule_revision != some task.revision
          then fail "Scheduled task changed after dispatch. Review before rerunning."
              "SCHEDULE_CHANGED" 409
          else (validate_definition key calendar task device_id >>= λ saved. ok tt)
    ]
  ]
