-- ===== src/Scheduling/Dispatch.antt =====
-- `has_active` and `dispatch` of app/services/scheduling.py: one occurrence of a scheduled task. The
-- caller holds the write lock of the database, and an error rolls everything back.
pub mod Targets
pub mod Atomic
pub mod Tests
use narsika.Base.{
  ℕ, ◌+◌, String, Bool, true, false, not, ◌&&◌, ◌||◌, Option, none, some, List, [], ◌∷◌, ◌++◌, any,
  length, ltb, ◌==◌, nat_eq, text_eq, Result, ok, err, ◌>>=◌, ◌+s◌, show, if◌then◌else◌,
}
use narsika.Base.Json.{Json}
use narsika.Models.{Kind, User, Device, OperationRun, AuditEvent, Db, new_id}
use narsika.Security.{Fernet, audit}
use narsika.Jobs.Queue.{Parameters, is_active_run, active_count, queue_limit, enqueue}
use narsika.Scheduling.Definition.{
  Target, Saved, Book, ScheduledTask, OccurrenceStatus, queued, skipped_overlap, blocked,
  skipped_capacity, occurrence_text, Occurrence, ScheduleRun, Calendar, validate_definition,
}

-- `filter_by(task_id=task.id, token=token).first()`
unfoldable pub find_occurrence : ℕ → String → List Occurrence → Option Occurrence
find_occurrence task_id token [] = none
find_occurrence task_id token (row ∷ rows) =
    if row.task_id == task_id && row.token == token
    then some row
    else find_occurrence task_id token rows

-- The join of the three tables: a pending or running run of an occurrence of the task.
unfoldable pub has_active : Calendar → ℕ → Bool
has_active calendar task_id =
    any
      (λ (link : ScheduleRun).
        any (λ (o : Occurrence). o.id == link.occurrence_id && o.task_id == task_id)
          calendar.occurrences
        && any (λ (run : OperationRun). run.id == link.run_id && is_active_run run)
            calendar.db.runs)
      calendar.links

-- The parameters of a run, with the keys that name the task.
abbrev pub task_parameters : ScheduledTask → Json → Parameters
task_parameters task parameters = record {
  request = parameters;
  target = none;
  actor_session_version = none;
  scheduled_task = some task.id;
  schedule_revision = some task.revision;
}

-- `actor_id or task.owner_id`
abbrev pub acting : Option ℕ → ℕ → ℕ
acting none owner_id = owner_id
acting (some ident) owner_id = if ident == 0 then owner_id else ident

-- What `dispatch` leaves: the occurrence, whether it was there before, the task, and the tables.
pub record Dispatched : Type 0 where
  pub occurrence : Occurrence
  pub existing : Bool
  pub task : ScheduledTask
  pub calendar : Calendar

module _ (sha256 : String → String) (content : Book → String)
    (prepare : Kind → Device → Json → Result (Unit {0})) (key : Fernet Saved)
    (run_key : Fernet Parameters) (now : String) where
  -- The loop over the targets: a run and its link for each.
  unfoldable pub submit : ScheduledTask → Json → ℕ → List Target → Calendar → Result Calendar
  unfolding enqueue
  submit task parameters occurrence_id [] calendar = ok calendar
  submit task parameters occurrence_id (target ∷ targets) calendar = do
    (run, db) ←
        enqueue sha256 run_key now task.kind (some target.id) task.owner_id
          (task_parameters task parameters) calendar.db
    submit task parameters occurrence_id targets (record calendar {
      db = db;
      links =
          calendar.links
          ++ record {
            occurrence_id = occurrence_id;
            device_id = target.id;
            device_name = target.name;
            run_id = run.id;
          }
            ∷ [];
    })

  abbrev pub refuse : OccurrenceStatus → String → Occurrence → Occurrence
  refuse status detail row = record row { status = status; detail = detail }

  -- Whether there is room for every target, and the submission.
  unfoldable pub submit_all :
      ScheduledTask → Occurrence → Calendar → Saved → Result (ScheduledTask × Occurrence × Calendar)
  unfolding submit active_count
  submit_all task row calendar saved =
      if ltb queue_limit (active_count calendar.db.runs + length saved.targets)
      then ok (
        task,
        refuse skipped_capacity
            "The operation queue had insufficient room for every target. No targets were submitted."
            row,
        calendar,
      )
      else (submit task saved.parameters row.id saved.targets calendar >>= λ after.
          ok (task, row, after))

  -- A definition that is no longer valid stops the task. An exception that is no APIError passes.
  unfoldable pub decide :
      ScheduledTask
      → Occurrence
      → Calendar
      → Result Saved
      → Result (ScheduledTask × Occurrence × Calendar)
  unfolding submit_all
  decide task row calendar (err e) =
      if e.code == "INTERNAL_ERROR"
      then err e
      else ok (
        record task { enabled = false; attention = e.message },
        refuse blocked e.message row,
        calendar,
      )
  decide task row calendar (ok saved) = submit_all task row calendar saved

  unfoldable pub occur :
      ScheduledTask → Occurrence → Calendar → Result (ScheduledTask × Occurrence × Calendar)
  unfolding decide has_active validate_definition
  occur task row calendar =
      if has_active calendar task.id
      then ok (
        task,
        refuse skipped_overlap "The previous occurrence is still queued or running." row,
        calendar,
      )
      else decide task row calendar
          (validate_definition sha256 content prepare key calendar task none)

  -- The audit row and the occurrence, which is written last here.
  abbrev pub recorded :
      List User → String → Option ℕ → ScheduledTask → Occurrence → Calendar → Calendar
  recorded users source actor_id task row calendar =
      let detail = if row.detail == "" then task.name else row.detail in
      record calendar {
        db = record calendar.db {
          audit_events =
              calendar.db.audit_events
              ++ audit users none ("Scheduled task " +s source) (show task.id)
                  (occurrence_text row.status) detail (some (acting actor_id task.owner_id))
                ∷ [];
        };
        occurrences = calendar.occurrences ++ row ∷ [];
      }

  abbrev pub new_occurrence : ScheduledTask → String → ℕ → String → Calendar → Occurrence
  new_occurrence task token due source calendar = record {
    id = new_id (λ (o : Occurrence). o.id) calendar.occurrences;
    task_id = task.id;
    token = token;
    scheduled_for = due;
    source = source;
    status = queued;
    detail = "";
    revision = task.revision;
  }

  unfoldable pub finish_dispatch :
      String → Option ℕ → Result (ScheduledTask × Occurrence × Calendar) → Result Dispatched
  unfolding audit show
  finish_dispatch source actor_id (err e) = err e
  finish_dispatch source actor_id (ok (task, row, calendar)) = ok (record {
    occurrence = row;
    existing = false;
    task = task;
    calendar = recorded calendar.db.users source actor_id task row calendar;
  })

  unfoldable pub dispatch_new :
      ScheduledTask
      → String
      → ℕ
      → String
      → Option ℕ
      → Calendar
      → Option Occurrence
      → Result Dispatched
  unfolding occur finish_dispatch new_id
  dispatch_new task token due source actor_id calendar (some row) =
      ok (record { occurrence = row; existing = true; task = task; calendar = calendar })
  dispatch_new task token due source actor_id calendar none =
      finish_dispatch source actor_id
        (occur task (new_occurrence task token due source calendar) calendar)

  -- `dispatch(task, token, due, source, actor_id)`
  unfoldable pub dispatch :
      ScheduledTask → String → ℕ → String → Option ℕ → Calendar → Result Dispatched
  unfolding dispatch_new find_occurrence
  dispatch task token due source actor_id calendar =
      dispatch_new task token due source actor_id calendar
        (find_occurrence task.id token calendar.occurrences)
