-- ===== src/Jobs/Dispatch.antt =====
-- `JobManager.dispatch_pending` of app/services/jobs.py: one pass over the pending runs, oldest
-- first, which cancels, starts or leaves each of them.
pub mod Bounds
pub mod Exclusion
pub mod Order
pub mod Progress
use narsika.Base.{
  ℕ, suc, ◌-◌, String, Bool, true, false, not, ◌&&◌, ◌||◌, Option, none, some, List, [], ◌∷◌, ◌++◌,
  length, ltb, ◌==◌, nat_eq, contains, ◌+s◌, show, if◌then◌else◌,
}
use narsika.Models.{
  kind_text, Status, status_eq, pending, running, cancelled, User, OperationRun, AuditEvent,
}
use narsika.Security.{audit}
use narsika.Jobs.Queue.{is_pending}

-- The local variables of the pass. `stopped` is the early return when the pool is shutting down.
pub record Pass : Type 0 where
  pub capacity : ℕ
  pub active_targets : List ℕ
  pub futures : List ℕ
  pub events : List AuditEvent
  pub stopped : Bool

-- `LIMIT 32` of the query
abbrev pub batch : ℕ
batch = 32

-- `{row.device_id for row in … if row.device_id is not None}` over the running rows
unfoldable pub running_targets : List OperationRun → List ℕ
running_targets [] = []
running_targets (run ∷ runs) =
    let rest = running_targets runs in
    elim run.device_id [ none ↦ rest | some d ↦ if run.status == running then d ∷ rest else rest ]

-- `run.device_id is not None and run.device_id in active_targets`
unfoldable pub is_blocked : Option ℕ → List ℕ → Bool
is_blocked none active = false
is_blocked (some d) active = contains d active

unfoldable pub add_active : Option ℕ → List ℕ → List ℕ
add_active none active = active
add_active (some d) active = d ∷ active

-- `str(run.device_id or run.id)`
unfoldable pub audit_target : OperationRun → String
unfolding show
audit_target run = elim run.device_id [
  | none ↦ show run.id
  | some d ↦ if d == 0 then show run.id else show d
]

abbrev cancel_note : String
cancel_note = "Cancelled before execution. No commands were sent."

unfoldable pub cancel_pending : String → OperationRun → OperationRun
cancel_pending now run = record run {
  status = cancelled;
  finished_at = some now;
  output = cancel_note;
}

unfoldable pub start : String → OperationRun → OperationRun
start now run = record run { status = running; started_at = some now }

-- `now` is the time of the pass, and `submit ident` says whether the pool accepts the run (it
-- raises RuntimeError while it shuts down).
module _ (users : List User) (now : String) (submit : ℕ → Bool) where
  -- The body of the loop, for one pending run.
  unfoldable pub visit : Pass → OperationRun → Pass × OperationRun
  unfolding is_blocked add_active cancel_pending start audit audit_target
  visit p run =
      if run.cancel_requested
      then (
        record p {
          events =
              p.events
              ++ audit users none ("Run " +s kind_text run.kind) (audit_target run) "cancelled"
                  cancel_note (some run.requested_by_id)
                ∷ [];
        },
        cancel_pending now run,
      )
      else if p.capacity == 0 || is_blocked run.device_id p.active_targets
      then (p, run)
      else if submit run.id
      then (
        record p {
          capacity = p.capacity - 1;
          active_targets = add_active run.device_id p.active_targets;
          futures = run.id ∷ p.futures;
        },
        start now run,
      )
      else (record p { stopped = true }, record run { status = pending; started_at = none })

  -- Whether the row is one of the `left` pending rows of the query that the loop still reads.
  unfoldable pub is_selected : ℕ → Pass → OperationRun → Bool
  is_selected left p run = is_pending run && ltb 0 left && not p.stopped

  unfoldable pub visit_row : ℕ → Pass → OperationRun → ℕ × Pass × OperationRun
  unfolding visit is_selected
  visit_row left p run =
      if is_selected left p run
      then (left - 1, (visit p run).0, (visit p run).1)
      else (left, p, run)

  unfoldable pub walk : ℕ → Pass → List OperationRun → Pass × List OperationRun
  walk left p [] = (p, [])
  walk left p (run ∷ runs) =
      let (left', p', run') = visit_row left p run in
      let (q, rest) = walk left' p' runs in (q, run' ∷ rest)

-- `futures` are the ids of the runs that the pool has not finished. The events are those that the
-- pass writes.
abbrev pub first_pass : ℕ → List ℕ → List OperationRun → Pass
first_pass workers futures runs = record {
  capacity = workers - length futures;
  active_targets = running_targets runs;
  futures = futures;
  events = [];
  stopped = false;
}

unfoldable pub dispatch_pending :
    List User → String → (ℕ → Bool) → ℕ → List ℕ → List OperationRun → Pass × List OperationRun
unfolding walk running_targets
dispatch_pending users now submit workers futures runs =
    walk users now submit batch (first_pass workers futures runs) runs
