-- ===== src/Jobs/Dispatch/Order.antt =====
-- Runs on one device start in the order in which they were queued.
use narsika.Base.{
  ℕ, String, ◌≡◌, Bool, true, false, ◌&&◌, ◌||◌, some, List, [], ◌∷◌, arith, ◌==◌, contains, nat_eq,
  option_eq,
}
use narsika.Models.{User, OperationRun, pending, running, status_eq}
use narsika.Jobs.Dispatch.{
  Pass, is_blocked, add_active, visit_row, walk, first_pass, dispatch_pending,
}

-- The row waits on device `d`; the step from `old` to `new` starts a run on `d`.
abbrev pub waits_on : ℕ → OperationRun → Bool
waits_on d run = run.status == pending && run.device_id == some d

abbrev pub starts_on : ℕ → OperationRun → OperationRun → Bool
starts_on d old new = waits_on d old && new.status == running

-- Along the queue: once a row on `d` has stayed pending, no later row on `d` is started.
abbrev pub NoOvertaking : ℕ → Bool → List OperationRun → List OperationRun → Type 0
NoOvertaking d passed (old ∷ olds) (new ∷ news) =
    (passed ≡ true → starts_on d old new ≡ false)
    × NoOvertaking d (passed || waits_on d new) olds news
NoOvertaking d passed [] [] = Unit
NoOvertaking d passed _ _ = ⊥

-- The loop can start nothing more on `d`.
abbrev shut_for : ℕ → ℕ → Pass → Bool
shut_for d left p = p.stopped || p.capacity == 0 || contains d p.active_targets || left == 0

module _ (users : List User) (now : String) (submit : ℕ → Bool) where
  walk-NoOvertaking :
      (d : ℕ) (passed : Bool) (left : ℕ) (p : Pass) (runs : List OperationRun)
      → (passed ≡ true → shut_for d left p ≡ true)
      → NoOvertaking d passed runs (walk users now submit left p runs).1
  unfolding walk
  walk-NoOvertaking d passed left p [] h = tt
  walk-NoOvertaking d passed left p (run ∷ runs) h =
      let step = visit_row users now submit left p run in
      (
        unfold visit_row is_blocked add_active in ground arith,
        walk-NoOvertaking d (passed || waits_on d step.2) step.0 step.1 runs
            (unfold visit_row is_blocked add_active in ground arith),
      )

  -- Along the queue, once a pass of the dispatcher has left a run on a device pending, it starts
  -- no later run on that device.
  pub dispatch_pending-NoOvertaking :
      (workers d : ℕ) (futures : List ℕ) (runs : List OperationRun)
      → NoOvertaking d false runs (dispatch_pending users now submit workers futures runs).1
  unfolding dispatch_pending
  dispatch_pending-NoOvertaking workers d futures runs =
      walk-NoOvertaking d false 32 (first_pass workers futures runs) runs (λ e. cc)
