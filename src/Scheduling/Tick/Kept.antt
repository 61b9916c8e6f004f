-- ===== src/Scheduling/Tick/Kept.antt =====
-- What `dispatch` and the loop of `tick` of app/services/scheduling.py may change in a task.
use narsika.Base.{
  ℕ, String, Option, none, some, ◌+◌, length, ltb, ◌==◌, text_eq, Result, ok, err, ◌≡◌, refl, ap,
  Returns, Returns-any, bind-Returns, if_ind, ◌-◌,
}
use narsika.Base.Json.{Json}
use narsika.Models.{Kind, Device}
use narsika.Security.{Fernet}
use narsika.Jobs.Queue.{Parameters, active_count, queue_limit}
use narsika.Scheduling.Definition.{
  Saved, Book, ScheduledTask, Occurrence, Calendar, validate_definition,
}
use narsika.Scheduling.Rule.{Zone}
use narsika.Scheduling.Dispatch.{
  Dispatched, submit, submit_all, decide, occur, dispatch, dispatch_new, finish_dispatch,
  has_active, find_occurrence,
}
use narsika.Scheduling.Tick.{set_next, handle, grace_seconds, due_token}

-- No column but these three has changed.
abbrev pub IsKept : ScheduledTask → ScheduledTask → Type 0
IsKept task row =
    row ≡ record task { enabled = row.enabled; attention = row.attention; next_due = row.next_due }

pub set_next-IsKept :
    (task row : ScheduledTask) (next : Option ℕ) → IsKept task row → IsKept task (set_next row next)
set_next-IsKept task row none kept = ap (λ (r : ScheduledTask). set_next r none) kept
set_next-IsKept task row (some t) kept = ap (λ (r : ScheduledTask). set_next r (some t)) kept

module _ (sha256 : String → String) (content : Book → String)
    (prepare : Kind → Device → Json → Result (Unit {0})) (key : Fernet Saved)
    (run_key : Fernet Parameters) (now : String) where
  abbrev Answered : ScheduledTask → Result (ScheduledTask × Occurrence × Calendar) → Type 0
  Answered task = Returns (λ (r : ScheduledTask × Occurrence × Calendar). IsKept task r.0)

  submit_all-IsKept :
      (task : ScheduledTask) (row : Occurrence) (calendar : Calendar) (saved : Saved)
      → Answered task (submit_all sha256 content prepare key run_key now task row calendar saved)
  unfolding submit_all
  submit_all-IsKept task row calendar saved =
      if_ind (Answered task)
        (ltb queue_limit (active_count calendar.db.runs + length saved.targets)) (λ _. refl)
        (λ _.
          bind-Returns (λ _. Unit {0})
            (λ (r : ScheduledTask × Occurrence × Calendar). IsKept task r.0) _ _
            (Returns-any (
              submit sha256 content prepare key run_key now task saved.parameters row.id
                saved.targets calendar))
            (λ after _. refl))

  decide-IsKept :
      (task : ScheduledTask) (row : Occurrence) (calendar : Calendar) (answer : Result Saved)
      → Answered task (decide sha256 content prepare key run_key now task row calendar answer)
  unfolding decide
  decide-IsKept task row calendar (err e) =
      if_ind (Answered task) (e.code == "INTERNAL_ERROR") (λ _. tt) (λ _. refl)
  decide-IsKept task row calendar (ok saved) = submit_all-IsKept task row calendar saved

  occur-IsKept :
      (task : ScheduledTask) (row : Occurrence) (calendar : Calendar)
      → Answered task (occur sha256 content prepare key run_key now task row calendar)
  unfolding occur
  occur-IsKept task row calendar =
      if_ind (Answered task) (has_active calendar task.id) (λ _. refl)
        (λ _.
          decide-IsKept task row calendar
            (validate_definition sha256 content prepare key calendar task none))

  dispatch-IsKept :
      (task : ScheduledTask) (token : String) (due : ℕ) (source : String) (actor_id : Option ℕ)
      (calendar : Calendar)
      → Returns
          (λ (d : Dispatched). IsKept task d.task)
          (dispatch sha256 content prepare key run_key now task token due source actor_id calendar)
  unfolding dispatch dispatch_new finish_dispatch
  dispatch-IsKept task token due source actor_id calendar =
      found (find_occurrence task.id token calendar.occurrences)
    where
      ended :
          (answer : Result (ScheduledTask × Occurrence × Calendar))
          → Answered task answer
          → Returns
              (λ (d : Dispatched). IsKept task d.task)
              (finish_dispatch sha256 content prepare key run_key now source actor_id answer)
      ended (err e) h = tt
      ended (ok reply) h = h

      found :
          (old : Option Occurrence)
          → Returns
              (λ (d : Dispatched). IsKept task d.task)
              (dispatch_new sha256 content prepare key run_key now task token due source actor_id
                calendar old)
      found (some row) = refl
      found none = ended _ (occur-IsKept task _ calendar)

  pub handle-IsKept :
      (zone : Zone) (moment : ℕ) (task : ScheduledTask) (due : ℕ) (calendar : Calendar)
      → Returns
          (λ (r : ScheduledTask × Calendar). IsKept task r.0)
          (handle sha256 content prepare key run_key now zone moment task due calendar)
  unfolding handle
  handle-IsKept zone moment task due calendar =
      if_ind (Returns (λ (r : ScheduledTask × Calendar). IsKept task r.0))
        (ltb grace_seconds (moment - due)) (λ _. refl)
        (λ _.
          bind-Returns (λ (d : Dispatched). IsKept task d.task)
            (λ (r : ScheduledTask × Calendar). IsKept task r.0) _ _
            (dispatch-IsKept task (due_token due) due "scheduled" none calendar) (λ d kept. kept))
