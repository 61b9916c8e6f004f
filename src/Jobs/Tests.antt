-- ===== src/Jobs/Tests.antt =====
-- The operation queue on small inputs.
use Prim.Native.Nat.{ℕ}
use narsika.Base.{
  String, ◌≡◌, ◌≢◌, refl, ◌⊎◌, Bool, true, false, Option, none, some, List, [], ◌∷◌, Result, ok,
  api_error, map, ◌≤◌, arith, len,
}
use narsika.Base.Json.{null}
use narsika.Models.{
  operator, mikrotik, backup, Status, pending, running, success, User, Device, OperationRun, Db,
  get_row, new_id,
}
use narsika.Security.{Fernet, encrypt, decrypt}
use narsika.Jobs.Target.{target_identity}
use narsika.Jobs.Queue.{Parameters, active_count, enqueue, restart}
use narsika.Jobs.Queue.Capacity.{Queued, enqueue-Queued}
use narsika.Jobs.Dispatch.{is_blocked, running_targets, start, visit_row, dispatch_pending}
use narsika.Jobs.Dispatch.Order.{NoOvertaking, dispatch_pending-NoOvertaking}
use narsika.Jobs.Dispatch.Progress.{dispatch_pending_starts}
use narsika.Jobs.Execute.{Performed, returned, raised, output_limit, guards, execute, may_run}
use narsika.Jobs.Execute.Guards.{IsAuthorized, execute_unauthorized}
use narsika.Jobs.Execute.Outcome.{attempt, is_requeued, IsWaiting, IsConcluded, execute_concludes}
use narsika.Jobs.Execute.Roundtrip.{completed, guards-enqueue}
use narsika.Jobs.Lifecycle.{System, Step, enqueued, dispatched, nothing, later, IsSound}
use narsika.Jobs.Lifecycle.Invariant.{History-IsSound}

abbrev sha : String → String
sha s = s

abbrev device : Device
device = record {
  id = 7;
  name = "edge";
  ip_address = "10.0.0.1";
  platform = mikrotik;
  ssh_port = 22;
  credential_id = none;
  credential = none;
  os_type = "";
  snmp_port = 161;
  group_id = none;
  snmp_credential_id = none;
  model = "";
  notes = "";
  health_json = none;
  archived_at = none;
}

abbrev owner : User
owner = record {
  id = 1;
  username = "ops";
  role = operator;
  password = "";
  password_hash = "scrypt";
  name = "";
  must_change_password = false;
  disabled_at = none;
  session_version = 3;
}

abbrev bare : Parameters
bare = record {
  request = null;
  target = none;
  actor_session_version = none;
  scheduled_task = none;
  schedule_revision = none;
}

abbrev stored : Parameters
stored = completed sha owner device bare

-- A cipher with one token.
abbrev key : Fernet Parameters
key = record { seal = λ _. "token"; unseal = λ _. some stored }

abbrev allow : Parameters → Option ℕ → Result (Unit {0})
allow _ _ = ok tt

abbrev row : ℕ → Status → OperationRun
row ident status = record {
  id = ident;
  kind = backup;
  status = status;
  device_id = some 7;
  requested_by_id = 1;
  encrypted_parameters = "token";
  output = "";
  progress = 0;
  cancel_requested = false;
  error_code = none;
  created_at = "t0";
  started_at = none;
  finished_at = none;
}

abbrev tables : List OperationRun → Db
tables runs = record { users = owner ∷ []; devices = device ∷ []; runs = runs; audit_events = [] }

abbrev two : List OperationRun
two = row 1 pending ∷ row 2 pending ∷ []

accept : ℕ → Bool
accept _ = true

program : Unit {0}
unfolding enqueue dispatch_pending visit_row running_targets start execute guards restart get_row
    new_id active_count is_blocked accept encrypt decrypt target_identity may_run
program = tt

-- Of two runs on one device a pass starts the first.
dispatch_two :
    map (λ (r : OperationRun). r.status) (dispatch_pending (owner ∷ []) "t1" accept 2 [] two).1
    ≡ running ∷ pending ∷ []
unfolding program
dispatch_two = refl

enqueue-Queued_example : Queued sha key (tables []) (row 1 pending) (tables (row 1 pending ∷ []))
unfolding program
enqueue-Queued_example = enqueue-Queued sha key "t0" backup (some 7) 1 bare (tables []) refl

dispatch_pending-NoOvertaking_example :
    NoOvertaking 7 false two (dispatch_pending (owner ∷ []) "t1" accept 2 [] two).1
dispatch_pending-NoOvertaking_example =
    dispatch_pending-NoOvertaking (owner ∷ []) "t1" accept 2 7 [] two

dispatch_pending_starts_example :
    (rest : List OperationRun) × ((dispatch_pending (owner ∷ []) "t1" accept 2 [] two).1
      ≡ start "t1" (row 1 pending) ∷ rest)
unfolding program
dispatch_pending_starts_example =
    dispatch_pending_starts (owner ∷ []) "t1" accept 2 [] [] (row 1 pending) (row 2 pending ∷ []) tt
      refl refl (omega arith) refl refl

-- A backup that returns, and a connection that is busy.
abbrev works : OperationRun → Parameters → Option Device → Performed
works run _ _ = returned "saved" run

abbrev busy : OperationRun → Parameters → Option Device → Performed
busy run _ _ = raised (record (api_error "busy" "BUSY" 409) { retryable_before_network = true }) run

execute_status : (execute sha key allow works (tables two) "t2" (row 1 running)).0.status ≡ success
unfolding program
execute_status = refl

abbrev orphan : Db
orphan = record (tables two) { users = [] }

orphan_unauthorized : ¬ (IsAuthorized sha key allow orphan (row 1 running))
unfolding program
orphan_unauthorized a = cc (a.owner)

execute_unauthorized_example :
    (execute sha key allow works orphan "t2" (row 1 running)
      ≡ execute sha key allow busy orphan "t2" (row 1 running))
    × ((execute sha key allow works orphan "t2" (row 1 running)).0.status ≢ success)
execute_unauthorized_example =
    execute_unauthorized sha key allow works busy orphan "t2" (row 1 running) orphan_unauthorized

execute_concludes_example :
    ((row 1 running).cancel_requested ≡ false)
      × (is_requeued (attempt sha key allow busy (tables two) (row 1 running)) ≡ true)
      × IsWaiting (execute sha key allow busy (tables two) "t2" (row 1 running))
    ⊎ IsConcluded "t2" (execute sha key allow busy (tables two) "t2" (row 1 running))
      × (len (execute sha key allow busy (tables two) "t2" (row 1 running)).0.output ≤ output_limit)
unfolding program
execute_concludes_example =
    execute_concludes sha key allow busy (tables two) "t2" (row 1 running) tt

guards-enqueue_example :
    guards sha key allow (tables (row 1 pending ∷ [])) (row 1 pending) ≡ ok (bare, some device)
unfolding program
guards-enqueue_example =
    guards-enqueue sha key 7 1 (tables []) owner device (omega arith) refl refl allow refl refl "t0"
      backup bare refl refl refl

abbrev system : List OperationRun → List ℕ → System
system runs futures = record { db = tables runs; futures = futures }

system-IsSound : IsSound sha key allow 2 (system [] [])
unfolding program
system-IsSound = record {
  bounded = omega arith;
  exclusive = λ d. omega arith;
  pooled = omega arith;
}

abbrev queued : System
queued = system (row 1 pending ∷ []) []

abbrev dispatched_system : System
dispatched_system =
    let (p, runs) = dispatch_pending (owner ∷ []) "t1" accept 2 [] (row 1 pending ∷ []) in
    system runs p.futures

Step-enqueued : Step sha key allow 2 (system [] []) queued
unfolding program
Step-enqueued = enqueued "t0" backup (some 7) 1 bare (row 1 pending) refl refl

Step-dispatched : Step sha key allow 2 queued dispatched_system
Step-dispatched = dispatched "t1" accept refl refl

-- A run is queued, and started by the next pass.
History-IsSound_example : IsSound sha key allow 2 dispatched_system
History-IsSound_example =
    History-IsSound sha key allow 2 system-IsSound
      (later Step-dispatched (later Step-enqueued nothing))
