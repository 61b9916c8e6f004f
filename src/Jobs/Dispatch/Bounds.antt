-- ===== src/Jobs/Dispatch/Bounds.antt =====
-- How many runs a pass starts.
use narsika.Base.{ℕ, ◌+◌, ◌≤◌, String, ◌≡◌, Bool, List, [], ◌∷◌, length, count, arith}
use narsika.Models.{User, OperationRun}
use narsika.Jobs.Queue.{is_running}
use narsika.Jobs.Dispatch.{Pass, visit_row, walk, first_pass, dispatch_pending}

module _ (users : List User) (now : String) (submit : ℕ → Bool) where
  futures-walk :
      (left : ℕ) (p : Pass) (runs : List OperationRun)
      → length (walk users now submit left p runs).0.futures ≤ length p.futures + p.capacity
  unfolding walk visit_row
  futures-walk left p [] = omega arith
  futures-walk left p (run ∷ runs) =
      let step = visit_row users now submit left p run in
      ground (arith, futures-walk step.0 step.1 runs)

  running-walk :
      (left : ℕ) (p : Pass) (runs : List OperationRun)
      → count is_running (walk users now submit left p runs).1 + length p.futures
        ≡ count is_running runs + length (walk users now submit left p runs).0.futures
  unfolding walk visit_row
  running-walk left p [] = omega arith
  running-walk left p (run ∷ runs) =
      let step = visit_row users now submit left p run in
      ground (arith, running-walk step.0 step.1 runs)

  -- Where the pool holds at most as many runs as there are workers, it does so after a pass of the
  -- dispatcher, and the pass has made as many runs RUNNING as it has handed to the pool.
  pub dispatch_pending_bounded :
      (workers : ℕ) (futures : List ℕ) (runs : List OperationRun)
      → length futures ≤ workers
      → (length (dispatch_pending users now submit workers futures runs).0.futures ≤ workers)
        × (count is_running (dispatch_pending users now submit workers futures runs).1
              + length futures
            ≡ count is_running runs
              + length (dispatch_pending users now submit workers futures runs).0.futures)
  unfolding dispatch_pending
  dispatch_pending_bounded workers futures runs h =
      let p = first_pass workers futures runs in
      (omega (arith, futures-walk 32 p runs), running-walk 32 p runs)
