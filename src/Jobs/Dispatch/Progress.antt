-- ===== src/Jobs/Dispatch/Progress.antt =====
-- A pass that has a free worker makes progress at the head of the queue.
use narsika.Base.{
  ℕ, ◌<◌, String, ◌≡◌, refl, Bool, true, false, List, [], ◌∷◌, ◌++◌, arith, All, length,
}
use narsika.Models.{User, OperationRun, pending}
use narsika.Jobs.Queue.{is_pending}
use narsika.Jobs.Dispatch.{
  Pass, running_targets, is_blocked, start, visit_row, walk, first_pass, dispatch_pending,
}

module _ (users : List User) (now : String) (submit : ℕ → Bool) where
  -- Rows that are not pending are passed over.
  walk_idle :
      (left : ℕ) (p : Pass) (idle runs : List OperationRun)
      → All (λ run. is_pending run ≡ false) idle
      → (walk users now submit left p (idle ++ runs)).1
        ≡ idle ++ (walk users now submit left p runs).1
  unfolding walk visit_row
  walk_idle left p [] runs h = ground arith
  walk_idle left p (run ∷ idle) runs (here, h) = ground (arith, walk_idle left p idle runs h)

  walk_head :
      (left : ℕ) (p : Pass) (run : OperationRun) (runs : List OperationRun)
      → run.status ≡ pending
      → run.cancel_requested ≡ false
      → 0 < left
      → 0 < p.capacity
      → p.stopped ≡ false
      → is_blocked run.device_id p.active_targets ≡ false
      → submit run.id ≡ true
      → (rest : List OperationRun) × ((walk users now submit left p (run ∷ runs)).1
          ≡ start now run ∷ rest)
  unfolding walk
  walk_head left p run runs is_pending live room free going clear accepted =
      let step = visit_row users now submit left p run in
      ((walk users now submit step.0 step.1 runs).1, unfold visit_row in ground arith)

  -- Where a worker is free, the first pending run of the queue is started, if it was not
  -- cancelled, no run is running on its device, and the pool accepts it; the rows before it are
  -- unchanged.
  pub dispatch_pending_starts :
      (workers : ℕ) (futures : List ℕ) (idle : List OperationRun) (run : OperationRun)
      (runs : List OperationRun)
      → All (λ r. is_pending r ≡ false) idle
      → run.status ≡ pending
      → run.cancel_requested ≡ false
      → length futures < workers
      → is_blocked run.device_id (running_targets (idle ++ run ∷ runs)) ≡ false
      → submit run.id ≡ true
      → (rest : List OperationRun) × ((dispatch_pending users now submit workers futures
            (idle ++ run ∷ runs)).1
          ≡ idle ++ start now run ∷ rest)
  unfolding dispatch_pending
  dispatch_pending_starts workers futures idle run runs before waits live room clear accepted =
      let p = first_pass workers futures (idle ++ run ∷ runs) in
      let (rest, e) =
        walk_head 32 p run runs waits live (omega arith) (omega arith) refl clear accepted in
      (rest, cc (walk_idle 32 p idle (run ∷ runs) before))
