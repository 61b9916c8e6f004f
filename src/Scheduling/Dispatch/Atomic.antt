-- ===== src/Scheduling/Dispatch/Atomic.antt =====
-- `dispatch` submits every target of the task or none.
use narsika.Base.{◌≤◌, String, true, false, none, [], ◌∷◌, ◌++◌, Result, ok, ◌≡◌, ◌≢◌, text_eq}
use narsika.Base.Json.{Json}
use narsika.Models.{Kind, Device}
use narsika.Security.{Fernet}
use narsika.Jobs.Queue.{Parameters, active_count}
use narsika.Scheduling.Definition.{
  Saved, Book, ScheduledTask, queued, Occurrence, Calendar, validate_definition,
}
use narsika.Scheduling.Dispatch.Targets.{Submitted}
use narsika.Scheduling.Dispatch.{Dispatched}

module _ (sha256 : String → String) (content : Book → String)
    (prepare : Kind → Device → Json → Result (Unit {0})) (key : Fernet Saved)
    (run_key : Fernet Parameters) (now : String) where
  -- All targets in the queue, or nothing there has changed.
  pub data AllOrNone (task : ScheduledTask) (before : Calendar) (row : Occurrence)
      (after : Calendar) : Type 0 where
    none_submitted :
        row.status ≢ queued
        → after.db.runs ≡ before.db.runs
        → after.links ≡ before.links
        → AllOrNone task before row after
    all_submitted :
        (saved : Saved)
        → validate_definition sha256 content prepare key before task none ≡ ok saved
        → row.status ≡ queued
        → Submitted sha256 run_key task saved.parameters row.id saved.targets before after
        → active_count after.db.runs ≤ 32
        → AllOrNone task before row after

  abbrev Outcome : ScheduledTask → Calendar → ScheduledTask × Occurrence × Calendar → Type 0
  Outcome task before (changed, row, after) =
      AllOrNone task before row after × (after.occurrences ≡ before.occurrences)

  -- A repeated token changes nothing; a new one leaves one occurrence more.
  pub data IsAtomic (task : ScheduledTask) (before : Calendar) (d : Dispatched) : Type 0 where
    repeated : d.existing ≡ true → d.calendar ≡ before → IsAtomic task before d
    recorded_once :
        d.existing ≡ false
        → d.calendar.occurrences ≡ before.occurrences ++ d.occurrence ∷ []
        → AllOrNone task before d.occurrence d.calendar
        → IsAtomic task before d
