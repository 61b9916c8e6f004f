-- ===== src/Jobs/Lifecycle/Invariant.antt =====
-- Every sequence of requests, passes of the dispatcher, finished runs and restarts keeps the bounds
-- of the queue.
use narsika.Base.{
  ℕ, ◌≤◌, String, ◌≡◌, ◌≢◌, refl, ap, Result, inl, inr, Bool, Option, List, [], ◌∷◌, ◌++◌, count,
  length, length-append, arith, count-append,
}
use narsika.Models.{User, Device, OperationRun, Db, running}
use narsika.Security.{Fernet}
use narsika.Jobs.Queue.{Parameters, is_active_run, active_count, restart}
use narsika.Jobs.Queue.Capacity.{enqueue-Queued}
use narsika.Jobs.Dispatch.{Pass, visit_row, walk, first_pass, dispatch_pending}
use narsika.Jobs.Dispatch.Bounds.{dispatch_pending_bounded}
use narsika.Jobs.Execute.{Performed, execute}
use narsika.Jobs.Execute.Outcome.{KeepsContract, attempt, execute_concludes}
use narsika.Jobs.Dispatch.Exclusion.{runs_on, dispatch_pending-IsExclusive}
use narsika.Jobs.Lifecycle.{
  request_cancel, System, Step, enqueued, cancel_requested, dispatched, ended, reaped, restarted,
  History, nothing, later, IsSound,
}

module _ (users : List User) (now : String) (submit : ℕ → Bool) where
  active_count-walk :
      (left : ℕ) (p : Pass) (runs : List OperationRun)
      → active_count (walk users now submit left p runs).1 ≤ active_count runs
  unfolding walk visit_row active_count
  active_count-walk left p [] = omega arith
  active_count-walk left p (run ∷ runs) =
      let step = visit_row users now submit left p run in
      ground (arith, active_count-walk step.0 step.1 runs)

  active_count-dispatch_pending :
      (workers : ℕ) (futures : List ℕ) (runs : List OperationRun)
      → active_count (dispatch_pending users now submit workers futures runs).1 ≤ active_count runs
  unfolding dispatch_pending
  active_count-dispatch_pending workers futures runs =
      active_count-walk 32 (first_pass workers futures runs) runs

request_cancel_counts :
    (ident d : ℕ) (runs : List OperationRun)
    → (active_count (request_cancel ident runs) ≡ active_count runs)
      × (count (runs_on d) (request_cancel ident runs) ≡ count (runs_on d) runs)
unfolding request_cancel active_count
request_cancel_counts ident d [] = (refl, refl)
request_cancel_counts ident d (run ∷ runs) =
    let (active, on) = request_cancel_counts ident d runs in (ground arith, ground arith)

restart_counts :
    (now : String) (d : ℕ) (runs : List OperationRun)
    → (active_count (restart now runs) ≤ active_count runs)
      × (count (runs_on d) (restart now runs) ≡ 0)
unfolding restart active_count
restart_counts now d [] = (omega arith, refl)
restart_counts now d (run ∷ runs) =
    let (active, on) = restart_counts now d runs in (ground arith, ground arith)

-- A row that is running gives way to one that is not.
replaced_counts :
    (d : ℕ) (before after : List OperationRun) (old new : OperationRun)
    → old.status ≡ running
    → new.status ≢ running
    → (active_count (before ++ new ∷ after) ≤ active_count (before ++ old ∷ after))
      × (count (runs_on d) (before ++ new ∷ after) ≤ count (runs_on d) (before ++ old ∷ after))
unfolding active_count
replaced_counts d before after old new was now = (
  ground (
    arith,
    count-append is_active_run before (new ∷ after),
    count-append is_active_run before (old ∷ after),
  ),
  ground (
    arith,
    count-append (runs_on d) before (new ∷ after),
    count-append (runs_on d) before (old ∷ after),
  ),
)

module _ (sha256 : String → String) (key : Fernet Parameters)
    (preflight : Parameters → Option ℕ → Result (Unit {0})) (workers : ℕ) where
  execute-ne-running :
      (perform : OperationRun → Parameters → Option Device → Performed) (db : Db) (now : String)
      (run : OperationRun)
      → KeepsContract (attempt sha256 key preflight perform db run)
      → (execute sha256 key preflight perform db now run).0.status ≢ running
  execute-ne-running perform db now run contract e =
      elim (execute_concludes sha256 key preflight perform db now run contract) [
        | inl (_, _, waits) ↦ cc (waits.0, e)
        | inr (ends, _) ↦ cc (ends.0, e)
      ]

  Step-IsSound :
      {s t : System}
      → Step sha256 key preflight workers s t
      → IsSound sha256 key preflight workers s
      → IsSound sha256 key preflight workers t
  Step-IsSound {s} {t} (enqueued now kind device user p run e f) h =
      let (waits, rows, _, fits) = enqueue-Queued sha256 key now kind device user p s.db e in
      record {
        bounded = fits;
        exclusive = λ d.
            rw rows (ground (arith, count-append (runs_on d) s.db.runs (run ∷ []), h.exclusive d));
        pooled = rw f h.pooled;
      }
  Step-IsSound {s} {t} (cancel_requested ident e f) h = record {
    bounded = rw e (omega (arith, (request_cancel_counts ident 0 s.db.runs).0));
    exclusive =
        λ d. rw e (omega (arith, (request_cancel_counts ident d s.db.runs).1, h.exclusive d));
    pooled = rw f h.pooled;
  }
  Step-IsSound {s} {t} (dispatched now submit e f) h = record {
    bounded = rw e (
        omega
          (arith, active_count-dispatch_pending s.db.users now submit workers s.futures s.db.runs));
    exclusive = rw e (
        dispatch_pending-IsExclusive s.db.users now submit workers s.futures s.db.runs h.exclusive);
    pooled =
        rw f
          (dispatch_pending_bounded s.db.users now submit workers s.futures s.db.runs h.pooled).0;
  }
  Step-IsSound {s} {t} (ended now perform before run after was begun contract e f) h =
      let new = (execute sha256 key preflight perform s.db now run).0 in
      let stopped = execute-ne-running perform s.db now run contract in
      record {
        bounded = rw e (
            omega (
              arith,
              (replaced_counts 0 before after run new begun stopped).0,
              ap active_count was,
            ));
        exclusive = λ d. rw e (
            omega (
              arith,
              (replaced_counts d before after run new begun stopped).1,
              ap (count (runs_on d)) was,
              h.exclusive d,
            ));
        pooled = rw f h.pooled;
      }
  Step-IsSound {s} {t} (reaped before ident after e f g) h = record {
    bounded = rw g h.bounded;
    exclusive = rw g h.exclusive;
    pooled = rw f (
        omega (
          arith,
          length-append before after,
          length-append before (ident ∷ after),
          ap (length {A = ℕ}) e,
        ));
  }
  Step-IsSound {s} {t} (restarted now e f) h = record {
    bounded = rw e (omega (arith, (restart_counts now 0 s.db.runs).0));
    exclusive = λ d. rw e (omega (arith, (restart_counts now d s.db.runs).1));
    pooled = rw f (omega arith);
  }

  -- From a sound state, every sequence of queued requests, cancel requests, passes of the
  -- dispatcher, ended runs, reaped futures and restarts leads to a sound state: at most 32 runs
  -- are pending or running, at most one run is running on each device, and the pool holds at most
  -- as many runs as there are workers. The ended runs are those whose firewall operation, if it
  -- returned, has stored a final status.
  pub History-IsSound :
      {s t : System}
      → IsSound sha256 key preflight workers s
      → History sha256 key preflight workers s t
      → IsSound sha256 key preflight workers t
  History-IsSound h nothing = h
  History-IsSound h (later step before) = Step-IsSound step (History-IsSound h before)
