-- ===== src/Firewall/Execute/Replay.antt =====
-- The errors of `execute` of app/services/firewall.py after the commands were sent, and what
-- `JobManager.execute` of app/services/jobs.py makes of them.
use narsika.Base.{
  ℕ, filter, String, Bool, true, false, Option, none, some, List, [], ◌∷◌, ◌==◌, text_eq, ◌!=◌,
  Result, ok, err, ◌≡◌, ◌≢◌, refl, arith, if_ind, inl, inr, sym, ap, ◌∙◌,
}
use mathlib.Core.Path.{subst}
use narsika.Models.{OperationRun, AuditEvent, User, Device, Db}
use narsika.Security.{Fernet}
use narsika.Jobs.Queue.{Parameters}
use narsika.Jobs.Execute.{Performed, returned, raised, crashed, guards}
use narsika.Jobs.Execute.{execute as perform_run}
use narsika.Jobs.Execute.Outcome.{
  is_requeued, KeepsContract, IsConcluded, attempt_called, execute_concludes,
}
use narsika.Firewall.Execute.Outcome.{Ends, execute-Ends}
use narsika.Firewall.Snapshot.{
  Snapshot, Plan, Item, Expected, expected_entry, expected_rule, FilterRule, lookup,
}
use narsika.Firewall.Review.{StoredPlan, Review}
use narsika.Firewall.Normalize.{cidr, selector_of}
use narsika.Firewall.Verify.{
  verify, same_cidr, field_equal, all_equal, rule_outcome, outcome, outcomes_of, value_equal,
}
use narsika.Firewall.Execute.{
  Answer, gave, refused, broke, World, Request, Effects, open_receipt, conclude_with, send, depart,
  recheck, back_up, compare_state, hold_lock, proceed, execute, check_rows, started_output,
  starting_event,
}

-- The errors of these calls are not of the kind that puts a run back into the queue.
abbrev Mild {ℓ} : {A : Type ℓ} → Result A → Type 0
Mild (ok a) = Unit
Mild (err e) = e.retryable_before_network ≡ false

same_cidr-Mild : (a b : String) → Mild (same_cidr a b)
unfolding same_cidr cidr selector_of
same_cidr-Mild a b = ground arith

field_equal-Mild :
    (fields : List (String × String)) (field : String × String) → Mild (field_equal fields field)
unfolding field_equal value_equal
field_equal-Mild fields (key, value) = go (lookup key fields)
  where
    go : (actual : Option String) → Mild (value_equal key value actual)
    go none = tt
    go (some actual) = ground (arith, same_cidr-Mild actual value)

all_equal-Mild : (fields expected : List (String × String)) → Mild (all_equal fields expected)
unfolding all_equal
all_equal-Mild fields [] = tt
all_equal-Mild fields (field ∷ rest) =
    ground (arith, field_equal-Mild fields field, all_equal-Mild fields rest)

outcome-Mild :
    (after : Snapshot) (item : Item) (expected : Expected) → Mild (outcome after item expected)
unfolding outcome rule_outcome
outcome-Mild after item (expected_entry acl sequence body) = tt
outcome-Mild after item (expected_rule fields) =
    go (filter (λ (r : FilterRule). r.comment == item.tag) after.rules)
  where
    go : (rules : List FilterRule) → Mild (rule_outcome fields rules)
    go [] = tt
    go (rule ∷ []) = ground (arith, all_equal-Mild rule.fields fields)
    go (rule ∷ other ∷ rules) = tt

outcomes_of-Mild : (after : Snapshot) (items : List Item) → Mild (outcomes_of after items)
unfolding outcomes_of
outcomes_of-Mild after [] = tt
outcomes_of-Mild after (item ∷ items) =
    ground (arith, outcome-Mild after item item.expected, outcomes_of-Mild after items)

verify-Mild : (plan : Plan) (after : Snapshot) → Mild (verify plan after)
unfolding verify
verify-Mild plan after = ground (arith, outcomes_of-Mild after plan.items)

-- Where the commands were sent, the result is not of the kind that puts a run back into the queue.
abbrev IsFinal : Effects → Type 0
IsFinal effects = effects.sent ≡ true → is_requeued effects.performed ≡ false

conclude_with-IsFinal :
    (before after : Snapshot) (ansible : Answer (Unit {0})) (run : OperationRun) (row : Review)
    (events : List AuditEvent) (verified : Result (Bool × List Bool))
    → Mild verified
    → IsFinal (conclude_with before after ansible run row events verified)
unfolding conclude_with
conclude_with-IsFinal before after ansible run row events (err e) mild = λ _. mild
conclude_with-IsFinal before after ansible run row events (ok (complete, outcomes)) mild = λ _. refl

depart-IsFinal :
    (plan : Plan) (before : Snapshot) (world : World) (row : Review) (events : List AuditEvent)
    (checked : Result (Unit {0}))
    → IsFinal (depart plan before world row events checked)
unfolding depart send
depart-IsFinal plan before world row events (err e) = λ h. absurd cc
depart-IsFinal plan before world row events (ok done) =
    if_ind IsFinal world.run.cancel_requested (λ _ _. refl) (λ _. go world.after)
  where
    go : (answer : Answer Snapshot) → IsFinal (send plan before world row events answer)
    go (refused e) = λ _. refl
    go broke = λ _. refl
    go (gave after) =
        conclude_with-IsFinal before after world.ansible world.run_after row events
          (verify plan after) (verify-Mild plan after)

module _ (sha256 : String → String) (plan : Plan) where
  recheck-IsFinal :
      (session : Option ℕ) (before : Snapshot) (world : World) (row : Review)
      (events : List AuditEvent) (answer : Answer Snapshot)
      → IsFinal (recheck sha256 plan session before world row events answer)
  unfolding recheck
  recheck-IsFinal session before world row events (refused e) = λ h. absurd cc
  recheck-IsFinal session before world row events broke = λ h. absurd cc
  recheck-IsFinal session before world row events (gave again) =
      if_ind IsFinal (again.fingerprint != before.fingerprint) (λ _ h. absurd cc)
        (λ _. depart-IsFinal plan before world row events (check_rows sha256 plan session world))

  compare_state-IsFinal :
      (req : Request) (world : World) (row : Review) (answer : Answer Snapshot)
      → IsFinal (compare_state sha256 plan req world row answer)
  unfolding compare_state back_up
  compare_state-IsFinal req world row (refused e) = λ h. absurd cc
  compare_state-IsFinal req world row broke = λ h. absurd cc
  compare_state-IsFinal req world row (gave before) =
      if_ind IsFinal (before.fingerprint != plan.baseline.fingerprint) (λ _ h. absurd cc)
        (λ _. go world.backup)
    where
      go : (answer : Answer ℕ) → IsFinal (back_up sha256 plan req before world row answer)
      go (refused e) = λ h. absurd cc
      go broke = λ h. absurd cc
      go (gave backup) =
          recheck-IsFinal req.session before
            (record world { run = record world.run { output = started_output backup row } }) row
            (starting_event req world.users backup row ∷ []) world.again

-- An error after the commands were sent does not ask for another attempt.
execute-IsFinal :
    (sha256 : String → String) (key : Fernet StoredPlan) (digest : StoredPlan → String) (clock : ℕ)
    (world : World) (receipt : Option Review) (req : Request)
    → IsFinal (execute sha256 key digest clock world receipt req)
unfolding execute proceed hold_lock
execute-IsFinal sha256 key digest clock world receipt req =
    go (open_receipt key digest clock receipt req)
  where
    go : (answer : Result (Review × StoredPlan)) → IsFinal (proceed sha256 world receipt req answer)
    go (err e) = λ h. absurd cc
    go (ok (row, stored)) = locked world.lock
      where
        locked :
            (answer : Answer (Unit {0}))
            → IsFinal (hold_lock sha256 stored.plan req world row answer)
        locked (refused e) = λ h. absurd cc
        locked broke = λ h. absurd cc
        locked (gave done) = compare_state-IsFinal sha256 stored.plan req world row world.before

Ends-KeepsContract : (p : Performed) (receipt : Option Review) → Ends p receipt → KeepsContract p
Ends-KeepsContract (returned detail run) receipt h = λ _. h.0
Ends-KeepsContract (raised e run) receipt h = tt
Ends-KeepsContract (crashed run) receipt h = tt

module _ (sha256 : String → String) (jobs : Fernet Parameters)
    (preflight : Parameters → Option ℕ → Result (Unit {0}))
    (perform : OperationRun → Parameters → Option Device → Performed) where
  requeued_final : {b : Bool} → b ≡ true → b ≢ false
  requeued_final h final = cc

  -- Where the checks of JobManager.execute pass for a run, its operation is the execution of a
  -- firewall run, and that execution has sent its commands, the run is not put back into the
  -- queue: JobManager.execute leaves it with a final status, its time of end and one audit row
  -- that names that status, whatever the device answered and whatever error came up.
  pub execute_sent-IsConcluded :
      (db : Db) (now : String) (run : OperationRun) (parameters : Parameters) (device : Device)
      (key : Fernet StoredPlan) (digest : StoredPlan → String) (clock : ℕ) (world : World)
      (receipt : Option Review) (session : Option ℕ) (user : User)
      → guards sha256 jobs preflight db run ≡ ok (parameters, some device)
      → perform run parameters (some device)
        ≡ (execute sha256 key digest clock world receipt
            (record { run = run; session = session; device = device; user = user })).performed
      → (execute sha256 key digest clock world receipt
          (record { run = run; session = session; device = device; user = user })).sent
        ≡ true
      → IsConcluded now (perform_run sha256 jobs preflight perform db now run)
  execute_sent-IsConcluded db now run parameters device key digest clock world receipt session user
        passed called sent =
      let req : Request = record { run = run; session = session; device = device; user = user } in
      let effects = execute sha256 key digest clock world receipt req in
      let same =
        attempt_called sha256 jobs preflight perform db run parameters device passed ∙ called in
      let kept =
        Ends-KeepsContract effects.performed effects.receipt
          (execute-Ends sha256 key digest clock world receipt req) in
      let final = execute-IsFinal sha256 key digest clock world receipt req sent in
      elim (execute_concludes sha256 jobs preflight perform db now run
        (subst KeepsContract (sym same) kept)) [
          | inl (live, again, waits) ↦ absurd (requeued_final again (ap is_requeued same ∙ final))
          | inr (ends, short) ↦ ends
        ]
