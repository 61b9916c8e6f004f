-- ===== src/Jobs/Lifecycle.antt =====
-- The queue as a whole: the steps of the web threads, the dispatcher, the workers and the service.
pub mod Invariant
use narsika.Base.{
  ℕ, suc, ◌+◌, ◌≤◌, String, ◌≡◌, refl, ◌⊎◌, Result, inl, inr, Bool, true, false, ◌&&◌, Option, none,
  some, List, [], ◌∷◌, ◌++◌, count, length, arith, ok, ◌==◌, nat_eq, option_eq, count-append,
  if◌then◌else◌,
}
use narsika.Models.{Kind, User, Device, OperationRun, Db, pending, running, Status, status_eq}
use narsika.Security.{Fernet}
use narsika.Jobs.Queue.{
  Parameters, is_active_run, is_pending, is_running, active_count, queue_limit, enqueue, restart,
}
use narsika.Jobs.Queue.Capacity.{enqueue-Queued, restart_idle}
use narsika.Jobs.Dispatch.{Pass, visit_row, walk, first_pass, dispatch_pending}
use narsika.Jobs.Dispatch.Bounds.{dispatch_pending_bounded}
use narsika.Jobs.Execute.{Performed, execute}
use narsika.Jobs.Execute.Outcome.{KeepsContract, attempt, execute_concludes, is_concluded}
use narsika.Jobs.Dispatch.Exclusion.{runs_on, IsExclusive, dispatch_pending-IsExclusive}

-- `cancel_run` of app/api.py sets the flag of an active run.
unfoldable pub request_cancel : ℕ → List OperationRun → List OperationRun
request_cancel ident [] = []
request_cancel ident (run ∷ runs) =
    (if run.id == ident && is_active_run run then record run { cancel_requested = true } else run)
    ∷ request_cancel ident runs

-- The process: the tables, and the ids of the runs in the pool.
pub record System : Type 0 where
  pub db : Db
  pub futures : List ℕ

module _ (sha256 : String → String) (key : Fernet Parameters)
    (preflight : Parameters → Option ℕ → Result (Unit {0})) (workers : ℕ) where
  -- One step of the web threads, of the dispatcher, of a worker, or of the service itself. A worker
  -- may end any run that is RUNNING, with whatever its operation came to.
  pub data Step (s t : System) : Type 0 where
    enqueued :
        (now : String) (kind : Kind) (device : Option ℕ) (user : ℕ) (p : Parameters)
        (run : OperationRun)
        → enqueue sha256 key now kind device user p s.db ≡ ok (run, t.db)
        → t.futures ≡ s.futures
        → Step s t
    cancel_requested :
        (ident : ℕ) → t.db.runs ≡ request_cancel ident s.db.runs → t.futures ≡ s.futures → Step s t
    dispatched :
        (now : String) (submit : ℕ → Bool)
        → t.db.runs ≡ (dispatch_pending s.db.users now submit workers s.futures s.db.runs).1
        → t.futures ≡ (dispatch_pending s.db.users now submit workers s.futures s.db.runs).0.futures
        → Step s t
    ended :
        (now : String) (perform : OperationRun → Parameters → Option Device → Performed)
        (before : List OperationRun) (run : OperationRun) (after : List OperationRun)
        → s.db.runs ≡ before ++ run ∷ after
        → run.status ≡ running
        → KeepsContract (attempt sha256 key preflight perform s.db run)
        → t.db.runs ≡ before ++ (execute sha256 key preflight perform s.db now run).0 ∷ after
        → t.futures ≡ s.futures
        → Step s t
    reaped :
        (before : List ℕ) (ident : ℕ) (after : List ℕ)
        → s.futures ≡ before ++ ident ∷ after
        → t.futures ≡ before ++ after
        → t.db ≡ s.db
        → Step s t
    restarted : (now : String) → t.db.runs ≡ restart now s.db.runs → t.futures ≡ [] → Step s t

  -- What can happen from a state on: the steps, the latest one last.
  pub data History (first : System) : System → Type 0 where
    nothing : History first first
    later : {now after : System} → Step now after → History first now → History first after

  pub record IsSound (s : System) : Type 0 where
    pub bounded : active_count s.db.runs ≤ queue_limit
    pub exclusive : IsExclusive s.db.runs
    pub pooled : length s.futures ≤ workers
