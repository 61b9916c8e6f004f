-- ===== src/Api/Tests.antt =====
-- The requests of the API on small inputs.
use narsika.Base.{
  All, inl, String, true, false, none, some, List, [], ◌∷◌, Result, ok, ◌≡◌, refl, arith,
}
use narsika.Base.Json.{null, num, str, obj, field, end, Fields}
use narsika.Ipv4.{Network, in_network}
use narsika.Models.{
  get_row, admin, operator, Platform, mikrotik, any_vendor, playbook, User, Device, Credential,
}
use narsika.Security.{Fernet}
use narsika.Security.Inputs.{payload}
use narsika.Network.{Secret}
use narsika.Scheduling.Definition.{Book}
use narsika.Api.Devices.{Inventory, device_keys, create_device}
use narsika.Api.Devices.Addresses.{IsUnique}
use narsika.Api.Credentials.{credential_item}
use narsika.Api.Credentials.Telemetry.{IsReset, credential_item-IsReset}
use narsika.Api.Candidates.{Scan, Candidate, Discovery}
use narsika.Api.Candidates.Verify.{verify_candidate}
use narsika.Api.Candidates.Verification.{IsSettled, verify_candidate-IsSettled}
use narsika.Api.Inventory.{unchanged, created, requests-IsUnique}
use narsika.Api.Runs.{book_run, prepare_run}
use narsika.Api.Runs.Allowed.{IsPrepared, prepare_run-IsPrepared}

abbrev root : User
root = record {
  id = 1;
  username = "root";
  password = "";
  password_hash = "scrypt";
  name = "";
  role = admin;
  must_change_password = false;
  disabled_at = none;
  session_version = 3;
}

abbrev scope : List Network
scope = record { base = 167772160; prefixlen = 8 } ∷ []

abbrev empty : Inventory
empty = record {
  db = record { users = root ∷ []; devices = []; runs = []; audit_events = [] };
  groups = [];
  credentials = [];
  counters = [];
}

abbrev nothing_found : Discovery
nothing_found = record { inventory = empty; scans = []; candidates = [] }

abbrev new_device : Fields
new_device =
    field "name" (str "edge")
      (field "ip_address" (str "10.0.0.1") (field "platform" (str "mikrotik") end))

abbrev edge : Device
edge = record {
  id = 1;
  name = "edge";
  ip_address = "10.0.0.1";
  platform = mikrotik;
  os_type = "mikrotik_routeros";
  ssh_port = 22;
  snmp_port = 161;
  group_id = none;
  credential_id = none;
  snmp_credential_id = none;
  credential = none;
  model = "";
  notes = "";
  health_json = none;
  archived_at = none;
}

abbrev one_device : Inventory
one_device = record empty {
  db = record empty.db {
    devices = edge ∷ [];
    audit_events =
        record {
          actor_id = some 1;
          actor = "root";
          action = "Device added";
          target = "10.0.0.1";
          result = "success";
          detail = "";
        }
        ∷ [];
  };
}

abbrev registered : Discovery
registered = record nothing_found { inventory = one_device }

creates : create_device scope (some root) new_device empty ≡ ok (edge, one_device)
unfolding create_device in_network
creates = refl

accepts :
    payload device_keys ("name" ∷ "ip_address" ∷ "platform" ∷ []) (some (obj new_device))
    ≡ ok new_device
unfolding payload
accepts = refl

requests-IsUnique_example : IsUnique one_device.db.devices
requests-IsUnique_example =
    requests-IsUnique scope {state = nothing_found} {last = registered}
      (created (some root) (some (obj new_device)) new_device edge accepts creates unchanged) tt
      (record { keys = tt; addresses = λ ip. omega arith })

-- A credential whose text is the password.
abbrev sealing : Fernet Secret
sealing = record {
  seal = λ s. "";
  unseal = λ s. some (record {
    password = some s;
    enable_password = none;
    private_key = none;
    passphrase = none;
    auth_password = none;
    priv_password = none;
  });
}

abbrev router : Device
router = record edge {
  credential =
      some
        (record { id = 1; name = "ssh"; username = "ops"; kind = "ssh"; encrypted_secret = "s" });
}

abbrev facts : Book
facts = record { id = 4; name = "facts.yml"; vendor = any_vendor; active = true; version = "1" }

abbrev run_request : Fields
run_request = field "playbook_id" (num 4) (field "variables" (obj (field "limit" (num 3) end)) end)

prepares :
    prepare_run sealing scope
      (facts ∷ [])
      (some (str "playbook"))
      router
      run_request
      (some operator)
    ≡ ok (playbook, book_run 4 (field "limit" (num 3) end))
unfolding prepare_run in_network
prepares = refl

prepare_run-IsPrepared_example :
    IsPrepared
      (facts ∷ [])
      router
      (some operator)
      (playbook, book_run 4 (field "limit" (num 3) end))
prepare_run-IsPrepared_example =
    prepare_run-IsPrepared sealing scope (facts ∷ []) (some (str "playbook")) router run_request
      (some operator) prepares

abbrev found : Candidate
found = record {
  id = 3;
  scan_id = 5;
  ip_address = "10.0.0.4";
  vendor_hint = "unknown";
  verified = none;
  imported_device_id = none;
}

abbrev scanned : Discovery
scanned = record {
  inventory = record empty {
    credentials =
        record { id = 1; name = "ssh"; username = "ops"; kind = "ssh"; encrypted_secret = "s" }
        ∷ [];
  };
  scans =
      record { id = 5; run_id = 2; cidr = "10.0.0.0/29"; ssh_port = 22; credential_id = none } ∷ [];
  candidates = found ∷ [];
}

abbrev verify_request : Fields
verify_request = field "platform" (str "mikrotik") (field "credential_id" (num 1) end)

abbrev board : Candidate → Scan → Platform → Credential → Result String
board candidate scan platform profile = ok "version: 7.1 board-name: x"

-- While the device was asked, another request has imported the candidate.
abbrev imports : Discovery → Discovery
imports state = record state { candidates = record found { imported_device_id = some 8 } ∷ [] }

verifies :
    (verify_candidate sealing
      (λ s. false)
      board
      imports
      (some root)
      9
      3
      (some (obj verify_request))
      scanned).0
    ≡ ok (record found {
      verified = some (record { at = 9; platform = mikrotik; credential_id = 1 });
      imported_device_id = some 8;
    })
unfolding verify_candidate
verifies = refl

verify_candidate-IsSettled_example :
    IsSettled sealing
      (λ s. false)
      board
      imports
      9
      3
      (some (obj verify_request))
      scanned
      (verify_candidate sealing
        (λ s. false)
        board
        imports
        (some root)
        9
        3
        (some (obj verify_request))
        scanned)
verify_candidate-IsSettled_example =
    verify_candidate-IsSettled sealing (λ s. false) board imports (some root) 9 3
      (some (obj verify_request)) scanned

-- The device uses profile 1 and has both samples.
abbrev sampled : Inventory
sampled = record empty {
  db = record empty.db {
    devices = record edge { credential_id = some 1; health_json = some null } ∷ [];
  };
  credentials =
      record { id = 1; name = "ssh"; username = "ops"; kind = "ssh"; encrypted_secret = "s" } ∷ [];
  counters = 1 ∷ [];
}

abbrev ops : Credential
ops = record { id = 1; name = "ssh"; username = "ops"; kind = "ssh"; encrypted_secret = "s" }

abbrev netops : Credential
netops = record ops { username = "netops" }

abbrev cleared : Inventory
cleared = record sampled {
  db = record sampled.db {
    devices =
        record edge { credential_id = some 1; credential = some netops; health_json = none } ∷ [];
    audit_events =
        record {
          actor_id = some 1;
          actor = "root";
          action = "Credential updated";
          target = "ssh";
          result = "success";
          detail = "";
        }
        ∷ [];
  };
  credentials = netops ∷ [];
  counters = [];
}

renames :
    credential_item sealing (some root) 1 (some (obj (field "username" (str "netops") end))) sampled
    ≡ ok (netops, cleared)
unfolding credential_item
renames = refl

credential_item-IsReset_example : All (IsReset 1 cleared.counters) cleared.db.devices
unfolding get_row
credential_item-IsReset_example =
    credential_item-IsReset sealing (some root) 1 (some (obj (field "username" (str "netops") end)))
      sampled cleared ops netops renames refl (inl (λ h. absurd cc))
