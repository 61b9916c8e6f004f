-- ===== src/Scheduling/Requests.antt =====
-- app/schedules_api.py: a reviewed task is saved, paused or resumed, and run by hand. The lock and the
-- write reservation of the database are held throughout. A token that is no receipt opens to nothing.
pub mod Retry
mod Tests
use narsika.Base.{
  ℕ, suc, String, Bool, true, false, not, ◌&&◌, ◌||◌, Option, none, some, List, [], ◌∷◌, ◌++◌, map,
  length, len, leb, ltb, ◌==◌, ◌!=◌, nat_eq, text_eq, option_eq, Result, ApiError, ok, err, fail,
  fail_if, api_error, invalid, ◌>>=◌, ◌>>◌, ◌+s◌, show, if◌then◌else◌,
}
use narsika.Base.Json.{Json, num, str, Fields, get_field}
use narsika.Ipv4.{Network}
use narsika.Models.{Kind, admin, role_eq, User, Device, get_row, put_row, new_id, first_row}
use narsika.Security.{Fernet, encrypt, decrypt}
use narsika.Security.Inputs.{integer, payload}
use narsika.Security.Access.{text, require, operate_level}
use narsika.Jobs.Queue.{Parameters}
use narsika.Api.Records.{get, boolean, logged_detail}
use narsika.Scheduling.Rule.{Zone, Rule, next_time}
use narsika.Scheduling.Definition.{
  Target, Saved, Book, ScheduledTask, Calendar, Occurrence, validate_definition,
}
use narsika.Scheduling.Dispatch.{Dispatched, dispatch}

pub record Schedules : Type 0 where
  pub calendar : Calendar
  pub tasks : List ScheduledTask

-- What a preview seals: the request as it was checked, for one user and ten minutes.
pub record Receipt : Type 0 where
  pub key : String
  pub actor : ℕ
  pub session : ℕ
  pub expires : ℕ
  pub task_id : Option ℕ
  pub revision : Option ℕ
  pub name : String
  pub kind : Kind
  pub rule : Rule
  pub enabled : Bool
  pub definition : Saved

abbrev pub task_key : ScheduledTask → ℕ
task_key task = task.id

abbrev pub find_task : Json → List ScheduledTask → Result ScheduledTask
find_task value tasks = get task_key (λ _. false) true (some value) tasks

-- `manage(task)`
unfoldable pub manage : User → ScheduledTask → Result (Unit {0})
manage actor task =
    fail_if (actor.role != admin && task.owner_id != actor.id)
      (api_error "Only the owner or an administrator can manage this task." "FORBIDDEN" 403)

abbrev pub changed_error : ApiError
changed_error = api_error "This task changed. Reload it." "CONFLICT" 409

abbrev pub past_error : ApiError
past_error = api_error "The start time has passed. Preview a future time." "REVIEW_EXPIRED" 409

-- `next_time` has an instant.
unfoldable pub due_of : Option ℕ → ApiError → Result ℕ
due_of none error = err error
due_of (some due) error = ok due

-- A text of at most 150,000 characters that opens.
unfoldable pub open_receipt : Fernet Receipt → Option Json → Result Receipt
unfolding len
open_receipt key (some (str token)) =
    if ltb 150000 (len token) then invalid "Invalid review." else elim (key.unseal token) [
      | none ↦ fail "This review is invalid. Preview the task again." "INVALID_REVIEW" 409
      | some receipt ↦ ok receipt
    ]
open_receipt key value = invalid "Invalid review."

unfoldable pub check_receipt : User → ℕ → Receipt → Result (Unit {0})
check_receipt actor clock receipt =
    fail_if
      (receipt.actor != actor.id
        || receipt.session != actor.session_version
        || ltb receipt.expires clock)
      (api_error "Review expired or account changed. Preview again." "REVIEW_EXPIRED" 409)

-- The body of `save` and the receipt in it.
unfoldable pub read_receipt : Fernet Receipt → Option Json → Result Receipt
unfolding payload get_field open_receipt
read_receipt key body = do
  data' ← payload ("review_token" ∷ []) ("review_token" ∷ []) body
  open_receipt key (get_field "review_token" data')

abbrev pub is_made_by : String → ScheduledTask → Bool
is_made_by key task = task.creation_token == key

-- `define` is `definition` for the targets and the parameters of the receipt, `same` the comparison of
-- two definitions, `zone_of` the time zone of a rule.
module _ (reviews : Fernet Receipt) (seal : Fernet Saved) (zone_of : Rule → Zone)
    (define : Calendar → Kind → Saved → Result Saved) (same : Saved → Saved → Bool) where
  -- The definition still holds, and the rule has a next time.
  unfoldable pub recheck : ℕ → Receipt → Schedules → Result ℕ
  unfolding due_of next_time
  recheck clock receipt s = do
    checked ← define s.calendar receipt.kind receipt.definition
    fail_if (not (same checked receipt.definition))
        (api_error "A target or playbook changed after preview. Preview again." "STALE_STATE" 409)
    due ← next_time (zone_of receipt.rule) receipt.rule clock
    due_of due past_error

  -- The columns that a save writes.
  unfoldable pub filled : Receipt → ℕ → ScheduledTask → ScheduledTask
  unfolding encrypt
  filled receipt due task = record task {
    name = receipt.name;
    kind = receipt.kind;
    rule = receipt.rule;
    enabled = receipt.enabled;
    encrypted_definition = encrypt seal receipt.definition;
    next_due = some due;
    attention = "";
    last_review_token = receipt.key;
  }

  unfoldable pub new_task : User → Receipt → ℕ → Schedules → ScheduledTask
  unfolding filled new_id
  new_task actor receipt due s = filled receipt due (record {
    id = new_id task_key s.tasks;
    name = "";
    owner_id = actor.id;
    kind = receipt.kind;
    enabled = false;
    revision = 1;
    rule = receipt.rule;
    encrypted_definition = "";
    next_due = none;
    attention = "";
    creation_token = receipt.key;
    last_review_token = "";
  })

  unfoldable pub saved_event : User → ScheduledTask → List ScheduledTask → Schedules → Schedules
  unfolding logged_detail show
  saved_event actor task tasks s = record {
    calendar = record s.calendar {
      db = logged_detail actor "Scheduled task saved" (show task.id) task.name s.calendar.db;
    };
    tasks = tasks;
  }

  -- A task that is edited, or left where this receipt has been used.
  unfoldable pub save_edit :
      User → ℕ → Receipt → ScheduledTask → Schedules → Result (ScheduledTask × Schedules)
  unfolding recheck filled saved_event put_row
  save_edit actor clock receipt task s =
      if task.last_review_token == receipt.key then ok (task, s) else do
        fail_if (some task.revision != receipt.revision)
            (api_error "This task changed. Preview it again." "CONFLICT" 409)
        due ← recheck clock receipt s
        let row = filled receipt due (record task { revision = suc task.revision })
        ok (row, saved_event actor row (put_row task_key task.id row s.tasks) s)

  -- A new task, or the one that this receipt has made.
  unfoldable pub save_new :
      User → ℕ → Receipt → Schedules → Option ScheduledTask → Result (ScheduledTask × Schedules)
  unfolding recheck new_task saved_event
  save_new actor clock receipt s (some existing) = ok (existing, s)
  save_new actor clock receipt s none = do
    fail_if (leb 200 (length s.tasks))
        (api_error "This installation supports up to 200 scheduled tasks." "CAPACITY" 409)
    due ← recheck clock receipt s
    let row = new_task actor receipt due s
    ok (row, saved_event actor row (s.tasks ++ row ∷ []) s)

  -- Primary keys start at 1, so that `if receipt['task_id']` asks whether there is one.
  unfoldable pub save_checked :
      User → ℕ → Receipt → Schedules → Option ℕ → Result (ScheduledTask × Schedules)
  unfolding manage save_edit save_new first_row get
  save_checked actor clock receipt s none =
      save_new actor clock receipt s (first_row (is_made_by receipt.key) s.tasks)
  save_checked actor clock receipt s (some ident) = do
    task ← find_task (num ident) s.tasks
    manage actor task
    save_edit actor clock receipt task s

  -- `save()`
  unfoldable pub save :
      Option User → ℕ → Option Json → Schedules → Result (ScheduledTask × Schedules)
  unfolding require read_receipt check_receipt save_checked
  save session clock body s = do
    actor ← require operate_level session
    receipt ← read_receipt reviews body
    check_receipt actor clock receipt
    save_checked actor clock receipt s receipt.task_id

-- The parameters of `validate_definition` and of `dispatch`.
module _ (sha256 : String → String) (content : Book → String)
    (prepare : Kind → Device → Json → Result (Unit {0})) (key : Fernet Saved)
    (run_key : Fernet Parameters) (zone_of : Rule → Zone) where
  -- A task that is resumed is valid and has a next time.
  unfoldable pub resume : Bool → ℕ → ScheduledTask → Calendar → Result ScheduledTask
  unfolding validate_definition next_time due_of
  resume false clock task calendar = ok (record task { enabled = false })
  resume true clock task calendar = do
    saved ← validate_definition sha256 content prepare key calendar task none
    next ← next_time (zone_of task.rule) task.rule clock
    due ←
        due_of next
          (api_error "This one-time task has ended. Edit its start time." "VALIDATION_ERROR" 422)
    ok (record task { next_due = some due; enabled = true })

  unfoldable pub check_revision : Option Json → ScheduledTask → Result (Unit {0})
  unfolding integer
  check_revision value task = do
    revision ← integer value "revision" 1 65535
    fail_if (revision != task.revision) changed_error

  -- `state(ident)`
  unfoldable pub set_state :
      Option User → ℕ → ℕ → Option Json → Schedules → Result (ScheduledTask × Schedules)
  unfolding require payload get_field boolean get manage check_revision resume put_row logged_detail
      show
  set_state session clock ident body s = do
    actor ← require operate_level session
    data' ← payload ("enabled" ∷ "revision" ∷ []) ("enabled" ∷ "revision" ∷ []) body
    enabled ← boolean (get_field "enabled" data') "enabled"
    task ← find_task (num ident) s.tasks
    manage actor task
    check_revision (get_field "revision" data') task
    row ← resume enabled clock task s.calendar
    let action = if enabled then "Scheduled task resumed" else "Scheduled task paused"
    ok (
      row,
      record {
        calendar = record s.calendar {
          db = logged_detail actor action (show task.id) task.name s.calendar.db;
        };
        tasks = put_row task_key ident row s.tasks;
      },
    )

  -- `data['request_key']`, of 16 to 64 characters
  unfoldable pub read_request_key : Option Json → Result String
  unfolding text len
  read_request_key value = do
    request_key ← text value "request key" 64 true
    fail_if (ltb (len request_key) 16)
        (api_error "Use a unique request key of at least 16 characters." "VALIDATION_ERROR" 422)
    ok request_key

  -- `run_now(ident)`: the occurrence, whether it was there before, and the tables
  unfoldable pub run_now :
      Option User
      → Bool
      → String
      → ℕ
      → ℕ
      → Option Json
      → Schedules
      → Result (Occurrence × Bool × Schedules)
  unfolding require payload get_field read_request_key get manage check_revision dispatch put_row
  run_now session working now clock ident body s = do
    actor ← require operate_level session
    data' ← payload ("request_key" ∷ "revision" ∷ []) ("request_key" ∷ "revision" ∷ []) body
    request_key ← read_request_key (get_field "request_key" data')
    fail_if (not working)
        (api_error "The operation worker is not running." "CAPABILITY_UNAVAILABLE" 503)
    task ← find_task (num ident) s.tasks
    manage actor task
    check_revision (get_field "revision" data') task
    d ←
        dispatch sha256 content prepare key run_key now task ("manual:" +s request_key) clock
          "manual" (some actor.id) s.calendar
    ok (
      d.occurrence,
      d.existing,
      record { calendar = d.calendar; tasks = put_row task_key ident d.task s.tasks },
    )
