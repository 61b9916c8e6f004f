-- ===== src/Jobs/Queue/Capacity.antt =====
-- The queue is bounded, and a restart leaves nothing running.
use narsika.Base.{
  ℕ, ◌+◌, ◌≤◌, String, ◌≡◌, ◌≢◌, Option, List, [], ◌∷◌, ◌++◌, count, count-append, arith, All, ok,
  bind-eq-ok,
}
use narsika.Models.{Kind, OperationRun, Db, running, pending, status_eq}
use narsika.Security.{Fernet}
use narsika.Jobs.Queue.{
  Parameters, is_active_run, active_count, queue_limit, add_target, new_run, insert_run, enqueue,
  restart, is_pending,
}

module _ (sha256 : String → String) (key : Fernet Parameters) where
  -- What a successful call has done: the run is pending, no older row has changed, and the queue
  -- holds one active run more, within its limit.
  abbrev pub Queued : Db → OperationRun → Db → Type 0
  Queued db run db' =
      (run.status ≡ pending)
      × (db'.runs ≡ db.runs ++ run ∷ [])
      × (active_count db'.runs ≡ active_count db.runs + 1)
      × (active_count db'.runs ≤ queue_limit)

  insert_run-Queued :
      (now : String) (kind : Kind) (device : Option ℕ) (user : ℕ) (db : Db) (p : Parameters)
      {run : OperationRun} {db' : Db}
      → insert_run sha256 key now kind device user db p ≡ ok (run, db')
      → Queued db run db'
  unfolding insert_run
  insert_run-Queued now kind device user db p e = ground (
    arith,
    count-append is_active_run db.runs (new_run sha256 key now kind device user p db ∷ []),
  )

  -- Where enqueue succeeds, the new run is pending and stands behind the older rows, none of which
  -- has changed, and the queue has one active run more, at most 32.
  pub enqueue-Queued :
      (now : String) (kind : Kind) (device : Option ℕ) (user : ℕ) (p : Parameters) (db : Db)
      {run : OperationRun} {db' : Db}
      → enqueue sha256 key now kind device user p db ≡ ok (run, db')
      → Queued db run db'
  unfolding enqueue
  enqueue-Queued now kind device user p db e =
      let (targeted, _, inserted) = bind-eq-ok (add_target sha256 db.devices device p) _ e in
      insert_run-Queued now kind device user db _ inserted

-- After a restart no run is running, and the active runs are as many as were pending.
pub restart_idle :
    (now : String) (runs : List OperationRun)
    → All (λ (run : OperationRun). run.status ≢ running) (restart now runs)
      × (active_count (restart now runs) ≡ count is_pending runs)
unfolding restart active_count
restart_idle now [] = (tt, omega arith)
restart_idle now (run ∷ runs) = let (idle, kept) = restart_idle now runs in ground arith
