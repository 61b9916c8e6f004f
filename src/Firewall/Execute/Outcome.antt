-- ===== src/Firewall/Execute/Outcome.antt =====
-- What `execute` of app/services/firewall.py leaves behind.
use narsika.Base.{
  ℕ, String, Bool, true, Option, none, some, List, [], ◌∷◌, text_eq, ◌!=◌, Result, ok, err, ◌≡◌,
  refl, ap, ◌∙◌, arith, if_ind,
}
use narsika.Models.{OperationRun, AuditEvent}
use narsika.Security.{Fernet}
use narsika.Jobs.Execute.{Performed, returned}
use narsika.Jobs.Execute.Outcome.{is_concluded}
use narsika.Firewall.Snapshot.{Snapshot, Plan}
use narsika.Firewall.Review.{StoredPlan, Review, ended}
use narsika.Firewall.Verify.{verify}
use narsika.Firewall.Execute.{
  Answer, gave, refused, broke, World, Request, Effects, open_receipt, conclusion, execution_error,
  with_error, conclude_with, send, depart, recheck, back_up, compare_state, hold_lock, proceed,
  execute, check_rows, started_output, starting_event,
}

-- The status with which an operation returned, if it returned.
abbrev pub Ends : Performed → Option Review → Type 0
Ends (returned detail run) receipt =
    (is_concluded run.status ≡ true)
    × ((row : Review) × (receipt ≡ some row) × (row.status ≡ ended run.status))
Ends _ receipt = Unit

abbrev pub EffectsEnd : Effects → Type 0
EffectsEnd effects = Ends effects.performed effects.receipt

conclusion-is_concluded :
    (complete : Bool) (outcomes : List Bool) (changed cancel : Bool)
    → is_concluded (conclusion complete outcomes changed cancel) ≡ true
unfolding conclusion
conclusion-is_concluded complete outcomes changed cancel = ground arith

status-with_error :
    (code : Option String) (run : OperationRun) → (with_error code run).status ≡ run.status
unfolding with_error
status-with_error none run = refl
status-with_error (some code) run = refl

conclude_with-Ends :
    (before after : Snapshot) (ansible : Answer (Unit {0})) (run : OperationRun) (row : Review)
    (events : List AuditEvent) (verified : Result (Bool × List Bool))
    → EffectsEnd (conclude_with before after ansible run row events verified)
unfolding conclude_with
conclude_with-Ends before after ansible run row events (err e) = tt
conclude_with-Ends before after ansible run row events (ok (complete, outcomes)) =
    let changed = after.fingerprint != before.fingerprint in
    (
      ap is_concluded (status-with_error (execution_error ansible) _)
          ∙ conclusion-is_concluded complete outcomes changed run.cancel_requested,
      (_, refl, refl),
    )

send-Ends :
    (plan : Plan) (before : Snapshot) (world : World) (row : Review) (events : List AuditEvent)
    (answer : Answer Snapshot)
    → EffectsEnd (send plan before world row events answer)
unfolding send
send-Ends plan before world row events (refused e) = (refl, (_, refl, refl))
send-Ends plan before world row events broke = tt
send-Ends plan before world row events (gave after) =
    conclude_with-Ends before after world.ansible world.run_after row events (verify plan after)

depart-Ends :
    (plan : Plan) (before : Snapshot) (world : World) (row : Review) (events : List AuditEvent)
    (answer : Result (Unit {0}))
    → EffectsEnd (depart plan before world row events answer)
unfolding depart
depart-Ends plan before world row events (err e) = tt
depart-Ends plan before world row events (ok done) =
    if_ind EffectsEnd world.run.cancel_requested (λ _. (refl, (_, refl, refl)))
      (λ _. send-Ends plan before world row events world.after)

module _ (sha256 : String → String) (plan : Plan) where
  recheck-Ends :
      (session : Option ℕ) (before : Snapshot) (world : World) (row : Review)
      (events : List AuditEvent) (answer : Answer Snapshot)
      → EffectsEnd (recheck sha256 plan session before world row events answer)
  unfolding recheck
  recheck-Ends session before world row events (refused e) = tt
  recheck-Ends session before world row events broke = tt
  recheck-Ends session before world row events (gave again) =
      if_ind EffectsEnd (again.fingerprint != before.fingerprint) (λ _. tt)
        (λ _. depart-Ends plan before world row events (check_rows sha256 plan session world))

  back_up-Ends :
      (req : Request) (before : Snapshot) (world : World) (row : Review) (answer : Answer ℕ)
      → EffectsEnd (back_up sha256 plan req before world row answer)
  unfolding back_up
  back_up-Ends req before world row (refused e) = tt
  back_up-Ends req before world row broke = tt
  back_up-Ends req before world row (gave backup) =
      recheck-Ends req.session before
        (record world { run = record world.run { output = started_output backup row } }) row
        (starting_event req world.users backup row ∷ []) world.again

  compare_state-Ends :
      (req : Request) (world : World) (row : Review) (answer : Answer Snapshot)
      → EffectsEnd (compare_state sha256 plan req world row answer)
  unfolding compare_state
  compare_state-Ends req world row (refused e) = tt
  compare_state-Ends req world row broke = tt
  compare_state-Ends req world row (gave before) =
      if_ind EffectsEnd (before.fingerprint != plan.baseline.fingerprint) (λ _. tt)
        (λ _. back_up-Ends req before world row world.backup)

  hold_lock-Ends :
      (req : Request) (world : World) (row : Review) (answer : Answer (Unit {0}))
      → EffectsEnd (hold_lock sha256 plan req world row answer)
  unfolding hold_lock
  hold_lock-Ends req world row (refused e) = tt
  hold_lock-Ends req world row broke = tt
  hold_lock-Ends req world row (gave done) = compare_state-Ends req world row world.before

-- Where the operation of a firewall run returns, it has stored a final status in the run, and the
-- receipt has the same status.
pub execute-Ends :
    (sha256 : String → String) (key : Fernet StoredPlan) (digest : StoredPlan → String) (clock : ℕ)
    (world : World) (receipt : Option Review) (req : Request)
    → EffectsEnd (execute sha256 key digest clock world receipt req)
unfolding execute proceed
execute-Ends sha256 key digest clock world receipt req =
    go (open_receipt key digest clock receipt req)
  where
    go :
        (answer : Result (Review × StoredPlan))
        → EffectsEnd (proceed sha256 world receipt req answer)
    go (err e) = tt
    go (ok (row, stored)) = hold_lock-Ends sha256 stored.plan req world row world.lock
