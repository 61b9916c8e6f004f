-- ===== src/Jobs/Dispatch/Exclusion.antt =====
-- Two runs never work on one device.
use narsika.Base.{
  ℕ, ◌+◌, ◌≤◌, String, ◌≡◌, Bool, false, ◌&&◌, some, List, [], ◌∷◌, count, arith, ◌==◌, contains,
  nat_eq, option_eq, if◌then◌else◌,
}
use narsika.Models.{User, OperationRun, running, status_eq}
use narsika.Jobs.Dispatch.{
  Pass, running_targets, is_blocked, add_active, visit_row, walk, first_pass, dispatch_pending,
}

abbrev pub runs_on : ℕ → OperationRun → Bool
runs_on d run = run.status == running && run.device_id == some d

-- At most one run is running on each device.
abbrev pub IsExclusive : List OperationRun → Type 0
IsExclusive runs = (d : ℕ) → count (runs_on d) runs ≤ 1

count-running_targets :
    (d : ℕ) (runs : List OperationRun)
    → contains d (running_targets runs) ≡ false
    → count (runs_on d) runs ≡ 0
unfolding running_targets
count-running_targets d [] h = omega arith
count-running_targets d (run ∷ runs) h = ground (arith, count-running_targets d runs)

module _ (users : List User) (now : String) (submit : ℕ → Bool) where
  runs_on-walk :
      (d left : ℕ) (p : Pass) (runs : List OperationRun)
      → count (runs_on d) (walk users now submit left p runs).1
        ≤ count (runs_on d) runs + (if contains d p.active_targets then 0 else 1)
  unfolding walk visit_row is_blocked add_active
  runs_on-walk d left p [] = ground arith
  runs_on-walk d left p (run ∷ runs) =
      let step = visit_row users now submit left p run in
      ground (arith, runs_on-walk d step.0 step.1 runs)

  --
  pub dispatch_pending-IsExclusive :
      (workers : ℕ) (futures : List ℕ) (runs : List OperationRun)
      → IsExclusive runs
      → IsExclusive (dispatch_pending users now submit workers futures runs).1
  unfolding dispatch_pending
  dispatch_pending-IsExclusive workers futures runs h d = ground (
    arith,
    runs_on-walk d 32 (first_pass workers futures runs) runs,
    count-running_targets d runs,
    h d,
  )
