-- ===== src/Scheduling/Tick.antt =====
-- `tick` and `quarantine` of app/services/scheduling.py: the due tasks of one moment, in one
-- transaction, and what becomes of a task whose dispatch keeps raising.
pub mod Kept
pub mod Advance
pub mod Selection
pub mod Table
pub mod Ticked
pub mod Quarantine
mod Tests
use narsika.Base.{
  ℕ, zero, suc, ◌+◌, ◌-◌, ◌*◌, ◌/◌, String, Bool, true, false, not, ◌&&◌, ◌||◌, Option, none, some,
  List, [], ◌∷◌, ◌++◌, filter, ltb, leb, ◌==◌, ◌!=◌, nat_eq, text_eq, option_eq, is_some, Result,
  ApiError, ok, err, ◌>>=◌, ◌+s◌, show, if◌then◌else◌,
}
use narsika.Base.Json.{Json}
use narsika.Models.{Kind, Device, Db, get_row, new_id, put_row}
use narsika.Security.{Fernet, audit}
use narsika.Jobs.Queue.{Parameters}
use narsika.Scheduling.Rule.{Zone, next_time}
use narsika.Scheduling.Definition.{Saved, Book, ScheduledTask, missed, Occurrence, Calendar}
use narsika.Scheduling.Dispatch.{Dispatched, dispatch, find_occurrence}

abbrev pub grace_seconds : ℕ
grace_seconds = 60

abbrev pub max_tick_failures : ℕ
max_tick_failures = 5

-- `FAILURES` of this data directory: how often in a row the dispatch of a task has raised.
unfoldable pub failures_of : ℕ → List (ℕ × ℕ) → ℕ
failures_of ident [] = 0
failures_of ident ((key, n) ∷ rest) = if key == ident then n else failures_of ident rest

unfoldable pub drop_failures : ℕ → List (ℕ × ℕ) → List (ℕ × ℕ)
drop_failures ident [] = []
drop_failures ident ((key, n) ∷ rest) =
    let others = drop_failures ident rest in if key == ident then others else (key, n) ∷ others

abbrev pub due_token : ℕ → String
due_token due = "due:" +s show due

-- `enabled and next_due <= moment`
unfoldable pub is_due_task : ℕ → ScheduledTask → Bool
is_due_task moment task = elim task.next_due [
  | none ↦ false
  | some due ↦ task.enabled && leb due moment
]

-- `ORDER BY next_due, id`, and the first 50
unfoldable pub earlier : ScheduledTask → ScheduledTask → Bool
earlier a b = elim a.next_due [
  | none ↦ true
  | some x ↦ elim b.next_due [ none ↦ false | some y ↦ ltb x y || x == y && leb a.id b.id ]
]

unfoldable pub insert_task : ScheduledTask → List ScheduledTask → List ScheduledTask
unfolding earlier
insert_task task [] = task ∷ []
insert_task task (other ∷ rest) =
    let later = insert_task task rest in
    if earlier task other then task ∷ other ∷ rest else other ∷ later

unfoldable pub sort_tasks : List ScheduledTask → List ScheduledTask
unfolding insert_task
sort_tasks [] = []
sort_tasks (task ∷ rest) = insert_task task (sort_tasks rest)

unfoldable pub take_tasks : ℕ → List ScheduledTask → List ScheduledTask
take_tasks zero tasks = []
take_tasks (suc n) [] = []
take_tasks (suc n) (task ∷ rest) = task ∷ take_tasks n rest

unfoldable pub due_tasks : ℕ → List ScheduledTask → List ScheduledTask
unfolding is_due_task sort_tasks take_tasks
due_tasks moment tasks = take_tasks 50 (sort_tasks (filter (is_due_task moment) tasks))

-- An occurrence that came too late: it is written down, and nothing is submitted.
unfoldable pub miss : ScheduledTask → ℕ → Calendar → Calendar
unfolding find_occurrence audit new_id show
miss task due calendar =
    if is_some (find_occurrence task.id (due_token due) calendar.occurrences)
    then calendar
    else record calendar {
      db = record calendar.db {
        audit_events =
            calendar.db.audit_events
            ++ audit calendar.db.users none "Scheduled task missed" (show task.id) "missed"
                task.name (some task.owner_id)
              ∷ [];
      };
      occurrences =
          calendar.occurrences
          ++ record {
            id = new_id (λ (o : Occurrence). o.id) calendar.occurrences;
            task_id = task.id;
            token = due_token due;
            scheduled_for = due;
            source = "scheduled";
            status = missed;
            detail = "Past-due executions were skipped; no catch-up work was submitted.";
            revision = task.revision;
          }
            ∷ [];
    }

-- `task.next_due = next_time(…)`, and a task without a next time is done.
abbrev pub set_next : ScheduledTask → Option ℕ → ScheduledTask
set_next task none = record task { next_due = none; enabled = false }
set_next task (some next) = record task { next_due = some next }

-- The transaction: the tasks as they are after it, or the task at which an exception ended it.
pub data Pass : Type 0 where
  done : List ScheduledTask → Calendar → Pass
  broke : ℕ → Pass

abbrev pub add_task : ScheduledTask → Pass → Pass
add_task task (done tasks calendar) = done (task ∷ tasks) calendar
add_task task (broke ident) = broke ident

module _ (sha256 : String → String) (content : Book → String)
    (prepare : Kind → Device → Json → Result (Unit {0})) (key : Fernet Saved)
    (run_key : Fernet Parameters) (now : String) (zone : Zone) (moment : ℕ) where
  -- A task at its due time: late beyond the grace period, or dispatched.
  unfoldable pub handle : ScheduledTask → ℕ → Calendar → Result (ScheduledTask × Calendar)
  unfolding miss dispatch
  handle task due calendar =
      if ltb grace_seconds (moment - due)
      then ok (task, miss task due calendar)
      else (dispatch sha256 content prepare key run_key now task (due_token due) due "scheduled"
            none calendar
          >>= λ (d : Dispatched). ok (d.task, d.calendar))

  -- One task of the loop. `dispatch` leaves the rule of the task as it is.
  unfoldable pub advance_at :
      ScheduledTask → Option ℕ → Calendar → Result (ScheduledTask × Calendar)
  unfolding handle next_time
  advance_at task none calendar = ok (task, calendar)
  advance_at task (some due) calendar = do
    handled ← handle task due calendar
    next ← next_time zone task.rule moment
    ok (set_next handled.0 next, handled.1)

  unfoldable pub advance : ScheduledTask → Calendar → Result (ScheduledTask × Calendar)
  unfolding advance_at
  advance task calendar = advance_at task task.next_due calendar

  unfoldable pub tick_rows : List ScheduledTask → Calendar → Pass
  unfolding advance
  tick_rows [] calendar = done [] calendar
  tick_rows (task ∷ tasks) calendar = elim (advance task calendar) [
    | err e ↦ broke task.id
    | ok reply ↦ add_task reply.0 (tick_rows tasks reply.1)
  ]

-- The tables, and `FAILURES`.
pub record Clock : Type 0 where
  pub tasks : List ScheduledTask
  pub calendar : Calendar
  pub failures : List (ℕ × ℕ)

abbrev pub attention_text : String
attention_text =
    "Scheduling stopped after repeated internal errors. Edit and review this task before enabling it again."

unfoldable pub quarantine : ℕ → Clock → Clock
unfolding get_row put_row audit show
quarantine ident clock = elim (get_row (λ (t : ScheduledTask). t.id) ident clock.tasks) [
  | none ↦ clock
  | some task ↦ record clock {
    tasks =
        put_row (λ (t : ScheduledTask). t.id) ident
          (record task { enabled = false; attention = attention_text }) clock.tasks;
    calendar = record clock.calendar {
      db = record clock.calendar.db {
        audit_events =
            clock.calendar.db.audit_events
            ++ audit clock.calendar.db.users none "Scheduled task blocked" (show task.id) "failed"
                attention_text (some task.owner_id)
              ∷ [];
      };
    };
  }
]

pub put_tasks : List ScheduledTask → List ScheduledTask → List ScheduledTask
unfolding put_row
put_tasks [] tasks = tasks
put_tasks (new ∷ news) tasks =
    put_tasks news (put_row (λ (t : ScheduledTask). t.id) new.id new tasks)

-- The end of the transaction. The Boolean says that the exception is raised again.
unfoldable pub settle_pass : Clock → Pass → Clock × Bool
unfolding put_tasks failures_of drop_failures quarantine
settle_pass clock (done tasks calendar) =
    (record { tasks = put_tasks tasks clock.tasks; calendar = calendar; failures = [] }, false)
settle_pass clock (broke ident) =
    let n = failures_of ident clock.failures + 1 in
    let others = drop_failures ident clock.failures in
    if ltb n max_tick_failures
    then (record clock { failures = (ident, n) ∷ others }, true)
    else (quarantine ident (record clock { failures = others }), false)

module _ (sha256 : String → String) (content : Book → String)
    (prepare : Kind → Device → Json → Result (Unit {0})) (key : Fernet Saved)
    (run_key : Fernet Parameters) (now : String) (zone : Zone) where
  tick_due : ℕ → Clock → List ScheduledTask → Clock × Bool
  unfolding tick_rows settle_pass
  tick_due moment clock [] = (clock, false)
  tick_due moment clock rows =
      settle_pass clock
        (tick_rows sha256 content prepare key run_key now zone moment rows clock.calendar)

  -- `tick(moment)`
  unfoldable pub tick : ℕ → Clock → Clock × Bool
  unfolding tick_due due_tasks
  tick moment clock = tick_due moment clock (due_tasks moment clock.tasks)
