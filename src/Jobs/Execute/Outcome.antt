-- ===== src/Jobs/Execute/Outcome.antt =====
-- What a taken-up run ends with.
use narsika.Base.{
  map, Bool, ℕ, ◌≤◌, String, ◌≡◌, refl, ◌⊎◌, inl, inr, true, false, Option, none, some, ok, List,
  [], ◌∷◌, Result, len, len-keep_last, Bool-cases, if_ind, arith, ◌+s◌,
}
use narsika.Models.{
  firewall, Status, status_text, kind_text, pending, running, failed, Device, OperationRun,
  AuditEvent, Db,
}
use narsika.Security.{Fernet, audit_lem}
use narsika.Jobs.Dispatch.{audit_target}
use narsika.Jobs.Queue.{Parameters}
use narsika.Jobs.Execute.{
  waiting_note, Performed, returned, raised, crashed, output_limit, guards, run_operation, complete,
  conclude, cancel_early, settle, execute,
}

waiting_fits : len waiting_note ≤ output_limit
unfolding len
waiting_fits = omega arith

output-settle :
    (db : Db) (now : String) (p : Performed) → len (settle db now p).0.output ≤ output_limit
unfolding settle
output-settle db now (returned detail run) = len-keep_last output_limit _
output-settle db now (raised e run) = elim (Bool-cases e.retryable_before_network) [
  | inl again ↦ rw again waiting_fits
  | inr final ↦ rw final (len-keep_last output_limit _)
]
output-settle db now (crashed run) = len-keep_last output_limit _

-- Where a run stands after it was taken up: it ended, or it waits for the connection again.
abbrev pub is_requeued : Performed → Bool
is_requeued (raised e run) = e.retryable_before_network
is_requeued _ = false

abbrev pub is_concluded : Status → Bool
is_concluded pending = false
is_concluded running = false
is_concluded _ = true

abbrev pub row_of : Performed → OperationRun
row_of (returned detail run) = run
row_of (raised e run) = run
row_of (crashed run) = run

-- Where the operation was called and returned, a firewall change has stored a status of its own.
abbrev pub KeepsContract : Performed → Type 0
KeepsContract (returned detail run) = run.kind ≡ firewall → is_concluded run.status ≡ true
KeepsContract _ = Unit

-- The run is back in the queue, and nothing was written to the audit log.
abbrev pub IsWaiting : OperationRun × List AuditEvent → Type 0
IsWaiting (run, events) = (run.status ≡ pending) × (run.started_at ≡ none) × (events ≡ [])

-- The run ended now, and one audit row names its final status.
abbrev pub IsConcluded : String → OperationRun × List AuditEvent → Type 0
IsConcluded now (run, events) =
    (is_concluded run.status ≡ true)
    × (run.finished_at ≡ some now)
    × (map (λ (e : AuditEvent). e.result) events ≡ status_text run.status ∷ [])

conclude-IsConcluded :
    (db : Db) (now : String) (run : OperationRun) (detail : String)
    → is_concluded run.status ≡ true
    → IsConcluded now (conclude db now run detail)
unfolding conclude
conclude-IsConcluded db now run detail h =
    let (_, result, _) =
      audit_lem db.users none ("Run " +s kind_text run.kind) (audit_target run)
        (status_text run.status) detail (some run.requested_by_id) in
    (h, refl, cc result)

is_concluded-complete :
    (run : OperationRun)
    → (run.kind ≡ firewall → is_concluded run.status ≡ true)
    → is_concluded (complete run).status ≡ true
unfolding complete
is_concluded-complete run h = ground arith

settle_status :
    (db : Db) (now : String) (p : Performed)
    → KeepsContract p
    → (is_requeued p ≡ true) × IsWaiting (settle db now p)
      ⊎ (is_requeued p ≡ false) × IsConcluded now (settle db now p)
unfolding settle
settle_status db now (returned detail run) h =
    inr (refl, conclude-IsConcluded db now (complete run) detail (is_concluded-complete run h))
settle_status db now (raised e run) h = elim (Bool-cases e.retryable_before_network) [
  | inl again ↦ inl (again, rw again (refl, refl, refl))
  | inr final ↦ inr (
    final,
    rw final (
        conclude-IsConcluded db now (record run { status = failed; error_code = some e.code })
          e.message refl),
  )
]
settle_status db now (crashed run) h = inr (refl, conclude-IsConcluded db now _ _ refl)

cancel_early-IsConcluded :
    (db : Db) (now : String) (run : OperationRun)
    → IsConcluded now (cancel_early db now run)
      × (len (cancel_early db now run).0.output ≤ output_limit)
unfolding cancel_early
cancel_early-IsConcluded db now run =
    let (_, result, _) =
      audit_lem db.users none ("Run " +s kind_text run.kind) (audit_target run) "cancelled" ""
        (some run.requested_by_id) in
    ((refl, refl, cc result), len-keep_last output_limit _)

module _ (sha256 : String → String) (key : Fernet Parameters)
    (preflight : Parameters → Option ℕ → Result (Unit {0}))
    (perform : OperationRun → Parameters → Option Device → Performed) where
  -- What the checks and the operation of a run came to.
  abbrev pub attempt : Db → OperationRun → Performed
  attempt db run =
      run_operation sha256 key preflight perform run (guards sha256 key preflight db run)

  -- Where the checks pass, the operation is called with what they found.
  pub attempt_called :
      (db : Db) (run : OperationRun) (parameters : Parameters) (device : Device)
      → guards sha256 key preflight db run ≡ ok (parameters, some device)
      → attempt db run ≡ perform run parameters (some device)
  unfolding run_operation
  attempt_called db run parameters device passed = rw passed refl

  -- A run that was taken up goes back into the queue only where the connection lock refused it,
  -- and then nothing is written to the audit log. Otherwise it has ended: its status is final, it
  -- has its time of end, one audit row names that status, and its output is at most 100,000
  -- characters. The condition is that a firewall operation that returns has stored a final status.
  pub execute_concludes :
      (db : Db) (now : String) (run : OperationRun)
      → KeepsContract (attempt db run)
      → (run.cancel_requested ≡ false)
          × (is_requeued (attempt db run) ≡ true)
          × IsWaiting (execute sha256 key preflight perform db now run)
        ⊎ IsConcluded now (execute sha256 key preflight perform db now run)
          × (len (execute sha256 key preflight perform db now run).0.output ≤ output_limit)
  unfolding execute
  execute_concludes db now run h =
      if_ind
        (λ (r : OperationRun × List AuditEvent).
          (run.cancel_requested ≡ false) × (is_requeued (attempt db run) ≡ true) × IsWaiting r
          ⊎ IsConcluded now r × (len r.0.output ≤ output_limit))
        run.cancel_requested (λ _. inr (cancel_early-IsConcluded db now run))
        (λ live. elim (settle_status db now (attempt db run) h) [
          | inl (again, waits) ↦ inl (live, again, waits)
          | inr (final, ends) ↦ inr (ends, output-settle db now (attempt db run))
        ])
