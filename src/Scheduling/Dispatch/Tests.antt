-- ===== src/Scheduling/Dispatch/Tests.antt =====
-- One occurrence of a backup task with two devices.
use narsika.Base.{ℕ, String, true, false, none, some, [], ◌∷◌, map, Result, ok, ◌≡◌, refl}
use narsika.Base.Json.{Json, obj, end}
use narsika.Models.{User, Device, Kind, operator, mikrotik, backup, OperationRun}
use narsika.Security.{Fernet}
use narsika.Jobs.Target.{target_identity}
use narsika.Jobs.Queue.{Parameters}
use narsika.Scheduling.Rule.{daily}
use narsika.Scheduling.Definition.{Saved, Book, ScheduledTask, Calendar, queued}
use narsika.Scheduling.Dispatch.{Dispatched, dispatch}

abbrev pub sha : String → String
sha s = s

abbrev pub content : Book → String
content book = ""

abbrev pub prepare : Kind → Device → Json → Result (Unit {0})
prepare kind device parameters = ok tt

abbrev pub device : ℕ → Device
device ident = record {
  id = ident;
  name = "edge";
  ip_address = "10.0.0.1";
  platform = mikrotik;
  ssh_port = 22;
  credential_id = none;
  credential = none;
  os_type = "";
  snmp_port = 161;
  group_id = none;
  snmp_credential_id = none;
  model = "";
  notes = "";
  health_json = none;
  archived_at = none;
}

abbrev pub owner : User
owner = record {
  id = 1;
  username = "ops";
  role = operator;
  password = "";
  password_hash = "scrypt";
  name = "";
  must_change_password = false;
  disabled_at = none;
  session_version = 3;
}

abbrev pub saved : Saved
saved = record {
  parameters = obj end;
  targets =
      record { id = 7; name = "edge"; identity = target_identity sha (device 7) }
      ∷ record { id = 8; name = "edge"; identity = target_identity sha (device 8) }
      ∷ [];
  playbook = none;
}

abbrev pub key : Fernet Saved
key = record { seal = λ _. "saved"; unseal = λ _. some saved }

abbrev pub run_key : Fernet Parameters
run_key = record { seal = λ _. "token"; unseal = λ _. none }

abbrev pub task : ScheduledTask
task = record {
  id = 4;
  name = "nightly";
  owner_id = 1;
  kind = backup;
  enabled = true;
  revision = 1;
  rule = record { frequency = daily; start = record { date = 3; time = 0 } };
  encrypted_definition = "saved";
  next_due = some 259200;
  attention = "";
  creation_token = "k";
  last_review_token = "k";
}

abbrev pub calendar : Calendar
calendar = record {
  db = record {
    users = owner ∷ [];
    devices = device 7 ∷ device 8 ∷ [];
    runs = [];
    audit_events = [];
  };
  playbooks = [];
  occurrences = [];
  links = [];
}

abbrev nothing : Dispatched
nothing = record {
  occurrence = record {
    id = 0;
    task_id = 0;
    token = "";
    scheduled_for = 0;
    source = "";
    status = queued;
    detail = "";
    revision = 0;
  };
  existing = false;
  task = task;
  calendar = calendar;
}

abbrev dispatched_or : Result Dispatched → Dispatched
dispatched_or (ok d) = d
dispatched_or _ = nothing

abbrev nightly : Dispatched
nightly = dispatched_or (
    dispatch sha content prepare key run_key "t0" task "due:259200" 259200 "scheduled" none
      calendar)

nightly_runs :
    map (λ (run : OperationRun). run.device_id) nightly.calendar.db.runs ≡ some 7 ∷ some 8 ∷ []
unfolding dispatch target_identity
nightly_runs = refl
