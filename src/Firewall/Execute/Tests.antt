-- ===== src/Firewall/Execute/Tests.antt =====
-- The execution of a firewall run, and the check of its result, on one router.
use narsika.Base.{ℕ, Option, Result, String, true, false, none, some, [], ◌∷◌, ok, ◌≡◌, refl}
use narsika.Models.{Db, Device, OperationRun, User, operator, firewall, running, mikrotik}
use narsika.Security.{Fernet}
use narsika.Firewall.Compile.{compile_plan}
use narsika.Firewall.Snapshot.{Snapshot}
use narsika.Firewall.Review.{StoredPlan, Review, queued}
use narsika.Firewall.Verify.{comments, verify}
use narsika.Firewall.Verify.Order.{run_items, verify-run_items}
use narsika.Firewall.Execute.{gave, World, Request, execute}
use narsika.Firewall.Execute.Safety.{IsOpened, IsCleared, execute_sent}
use narsika.Firewall.Execute.Outcome.{EffectsEnd, execute-Ends}
use narsika.Firewall.Execute.Replay.{execute_sent-IsConcluded}
use narsika.Base.Json.{obj, end}
use narsika.Jobs.Target.{target_identity}
use narsika.Jobs.Queue.{Parameters}
use narsika.Jobs.Execute.{Performed, guards, execute as perform_run}
use narsika.Jobs.Execute.Outcome.{IsConcluded}
use narsika.Firewall.Tests.{hash, router, empty_state, modest_plan}

-- The state after the run: the device has the rule of the plan.
abbrev new_state : Snapshot
new_state = record empty_state { rules = run_items modest_plan.items []; fingerprint = "g" }

abbrev stored : StoredPlan
stored = record { plan = modest_plan; reviewer_session_version = 3 }

abbrev key : Fernet StoredPlan
key = record { seal = λ _. "token"; unseal = λ _. some stored }

abbrev checksum : StoredPlan → String
checksum plan = "0123456789abcdef"

abbrev review : Review
review = record {
  id = "r";
  device_id = 1;
  actor_id = 1;
  encrypted_plan = "token";
  checksum = "0123456789abcdef";
  expires_at = 600;
  status = queued;
  run_id = some 5;
}

abbrev owner : User
owner = record {
  id = 1;
  username = "ops";
  role = operator;
  password = "";
  password_hash = "scrypt";
  name = "";
  must_change_password = false;
  disabled_at = none;
  session_version = 3;
}

abbrev run : OperationRun
run = record {
  id = 5;
  kind = firewall;
  status = running;
  device_id = some 1;
  requested_by_id = 1;
  encrypted_parameters = "";
  output = "";
  progress = 0;
  cancel_requested = false;
  error_code = none;
  created_at = "t0";
  started_at = some "t1";
  finished_at = none;
}

abbrev world : World
world = record {
  users = owner ∷ [];
  lock = gave tt;
  before = gave empty_state;
  backup = gave 9;
  again = gave empty_state;
  user = owner;
  device = router;
  run = run;
  ansible = gave tt;
  run_after = run;
  after = gave new_state;
}

abbrev request : Request
request = record { run = run; session = some 3; device = router; user = owner }

verified : verify modest_plan new_state ≡ ok (true, true ∷ [])
unfolding verify run_items compile_plan
verified = refl

on_router : modest_plan.platform ≡ mikrotik
unfolding compile_plan
on_router = refl

verify-run_items_example :
    comments new_state.rules ≡ comments (run_items modest_plan.items modest_plan.baseline.rules)
verify-run_items_example = verify-run_items modest_plan new_state on_router verified

commands_sent : (execute hash key checksum 100 world (some review) request).sent ≡ true
unfolding execute run_items compile_plan
commands_sent = refl

execute_sent_example :
    (row : Review) × (plan : StoredPlan) × IsOpened key checksum 100 (some review) request row plan
    × IsCleared hash plan.plan (some 3) world
execute_sent_example = execute_sent hash key checksum 100 world (some review) request commands_sent

execute-Ends_example : EffectsEnd (execute hash key checksum 100 world (some review) request)
execute-Ends_example = execute-Ends hash key checksum 100 world (some review) request

-- The operation of the run, and the parameters and tables with which the worker calls it.
abbrev apply : OperationRun → Parameters → Option Device → Performed
apply _ _ _ = (execute hash key checksum 100 world (some review) request).performed

abbrev parameters : Parameters
parameters = record {
  request = obj end;
  target = some (target_identity hash router);
  actor_session_version = some 3;
  scheduled_task = none;
  schedule_revision = none;
}

-- What is left of them after the checks.
abbrev rest : Parameters
rest = record parameters { target = none; actor_session_version = none }

abbrev jobs : Fernet Parameters
jobs = record { seal = λ _. ""; unseal = λ _. some parameters }

abbrev pass : Parameters → Option ℕ → Result (Unit {0})
pass _ _ = ok tt

abbrev db : Db
db = record { users = owner ∷ []; devices = router ∷ []; runs = run ∷ []; audit_events = [] }

passed : guards hash jobs pass db run ≡ ok (rest, some router)
unfolding guards target_identity narsika.Security.decrypt
passed = refl

execute_sent-IsConcluded_example : IsConcluded "t2" (perform_run hash jobs pass apply db "t2" run)
execute_sent-IsConcluded_example =
    execute_sent-IsConcluded hash jobs pass apply db "t2" run rest router key checksum 100 world
      (some review) (some 3) owner passed refl commands_sent
