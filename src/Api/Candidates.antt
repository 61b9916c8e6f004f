-- ===== src/Api/Candidates.antt =====
-- Discovery in app/api.py: `discovery_scans` and `import_candidates`, over the rows of scans and
-- candidates. `verify_candidate` is in Verify.
pub mod Verify
pub mod Import
pub mod Verification
use narsika.Base.{
  ℕ, ◌-◌, String, Bool, true, false, not, ◌&&◌, ◌||◌, Option, none, some, List, [], ◌∷◌, ◌++◌,
  contains, length, ltb, leb, is_some, ◌==◌, nat_eq, text_eq, Result, ApiError, ok, err, fail,
  fail_if, api_error, invalid, ◌>>=◌, ◌>>◌, show, ◌+s◌, if◌then◌else◌,
}
use narsika.Base.Json.{Json, num, str, arr, obj, Fields, end, field, get_field, items}
use narsika.Ipv4.{Network, show_network}
use narsika.Models.{
  Platform, cisco, mikrotik, platform_eq, discovery, Credential, Device, User, OperationRun, Db,
  put_row, new_id, first_row, get_row,
}
use narsika.Models.Passwords.{starts_with}
use narsika.Security.{Fernet}
use narsika.Security.Inputs.{integer, payload}
use narsika.Security.Scope.{address, network}
use narsika.Security.Access.{admin_level, operate_level, require}
use narsika.Network.{Secret, secret}
use narsika.Jobs.Queue.{Parameters, internal_error, enqueue}
use narsika.Api.Records.{get, reference, last_record, logged}
use narsika.Api.Devices.{
  Group, Inventory, device_id, is_active_at, group_key, is_archived_group, credential_key, os_text,
  find_credential, credential_reference, blank_device, read_platform,
}

pub record Scan : Type 0 where
  pub id : ℕ
  pub run_id : ℕ
  pub cidr : String
  pub ssh_port : ℕ
  pub credential_id : Option ℕ

-- `verified_at`, `verified_platform` and `verified_credential_id`, which are set and cleared together.
pub record Verified : Type 0 where
  pub at : ℕ
  pub platform : Platform
  pub credential_id : ℕ

pub record Candidate : Type 0 where
  pub id : ℕ
  pub scan_id : ℕ
  pub ip_address : String
  pub vendor_hint : String
  pub verified : Option Verified
  pub imported_device_id : Option ℕ

pub record Discovery : Type 0 where
  pub inventory : Inventory
  pub scans : List Scan
  pub candidates : List Candidate

abbrev pub scan_key : Scan → ℕ
scan_key scan = scan.id

abbrev pub candidate_key : Candidate → ℕ
candidate_key candidate = candidate.id

abbrev pub find_scan : ℕ → List Scan → Result Scan
unfolding get
find_scan ident scans = get scan_key (λ _. false) true (some (num ident)) scans

-- `[integer(i, 'candidate ID', 1, 2**63-1) for i in ids]`
unfoldable pub read_ids : List Json → Result (List ℕ)
unfolding integer
read_ids [] = ok []
read_ids (value ∷ values) = do
  ident ← integer (some value) "candidate ID" 1 last_record
  idents ← read_ids values
  ok (ident ∷ idents)

-- `dict.fromkeys(ids)`: each id once, in the order of its first occurrence
unfoldable pub once : List ℕ → List ℕ → List ℕ
once seen [] = []
once seen (ident ∷ idents) =
    let rest = once (ident ∷ seen) idents in
    let same = once seen idents in elim (contains ident seen) [ true ↦ same | false ↦ ident ∷ rest ]

unfoldable pub read_selection : Option Json → Result (List ℕ)
unfolding items read_ids once
read_selection (some (arr values)) = do
  fail_if (not (leb 1 (length (items values)) && leb (length (items values)) 256))
      (api_error "Select between 1 and 256 candidates." "VALIDATION_ERROR" 422)
  idents ← read_ids (items values)
  ok (once [] idents)
read_selection value = invalid "Select between 1 and 256 candidates."

abbrev pub unverified : ApiError
unverified =
    api_error "Verify every selected candidate within the last 30 minutes before importing."
      "VALIDATION_ERROR" 422

-- `reference(data.get('group_id'), Group)`
unfoldable pub read_group : Fields → List Group → Result (Option ℕ)
unfolding get_field reference
read_group data' groups = elim (get_field "group_id" data') [
  | none ↦ ok none
  | some value ↦ reference group_key is_archived_group (λ _. true) value groups
]

-- A verification of the last 1,800 seconds; the clock and `verified_at` count microseconds.
unfoldable pub fresh : ℕ → Candidate → Result Verified
fresh clock candidate = elim candidate.verified [
  | none ↦ err unverified
  | some v ↦ if ltb 1800000000 (clock - v.at) then err unverified else ok v
]

-- The device of a candidate.
unfoldable pub imported_device :
    Candidate → Verified → Scan → Option ℕ → String → List Credential → ℕ → Device
unfolding get_row
imported_device candidate v scan group ip profiles ident = record (blank_device ident) {
  name = candidate.ip_address;
  ip_address = ip;
  platform = v.platform;
  os_type = os_text v.platform;
  ssh_port = scan.ssh_port;
  credential_id = some v.credential_id;
  credential = find_credential profiles (some v.credential_id);
  group_id = group;
}

-- The state of the loop: the tables, and how many were created and skipped.
pub record Imported : Type 0 where
  pub state : Discovery
  pub created : List ℕ
  pub skipped : List ℕ

module _ (allowed : List Network) where
  unfoldable pub add_device : Candidate → Verified → Scan → Option ℕ → Imported → String → Imported
  unfolding imported_device new_id put_row
  add_device candidate v scan group loop ip =
      let inventory = loop.state.inventory in
      let ident = new_id device_id inventory.db.devices in
      let device = imported_device candidate v scan group ip inventory.credentials ident in
      record loop {
        state = record loop.state {
          inventory = record inventory {
            db = record inventory.db { devices = inventory.db.devices ++ device ∷ [] };
          };
          candidates =
              put_row candidate_key candidate.id
                (record candidate { imported_device_id = some ident }) loop.state.candidates;
        };
        created = loop.created ++ ident ∷ [];
      }

  -- A candidate whose address an active device has is skipped.
  unfoldable pub place :
      ℕ → Option ℕ → Candidate → Verified → Scan → Imported → Option Device → Result Imported
  unfolding address add_device
  place clock group candidate v scan loop (some duplicate) =
      ok (record loop { skipped = loop.skipped ++ candidate.id ∷ [] })
  place clock group candidate v scan loop none = do
    ip ← address allowed (some (str candidate.ip_address)) true
    ok (add_device candidate v scan group loop ip)

  -- One pass of the loop.
  unfoldable pub import_one : ℕ → Option ℕ → ℕ → Imported → Result Imported
  unfolding get fresh first_row place
  import_one clock group ident loop = do
    candidate ← get candidate_key (λ _. false) true (some (num ident)) loop.state.candidates
    scan ← find_scan candidate.scan_id loop.state.scans
    v ← fresh clock candidate
    place clock group candidate v scan loop
        (first_row (is_active_at candidate.ip_address) loop.state.inventory.db.devices)

  unfoldable pub import_all : ℕ → Option ℕ → List ℕ → Imported → Result Imported
  unfolding import_one
  import_all clock group [] loop = ok loop
  import_all clock group (ident ∷ idents) loop = do
    next ← import_one clock group ident loop
    import_all clock group idents next

  -- `import_candidates()`
  unfoldable pub import_candidates : Option User → ℕ → Option Json → Discovery → Result Imported
  unfolding require payload read_selection get_field read_group import_all logged show
  import_candidates session clock body state = do
    actor ← require admin_level session
    data' ← payload ("candidate_ids" ∷ "group_id" ∷ []) ("candidate_ids" ∷ []) body
    idents ← read_selection (get_field "candidate_ids" data')
    group ← read_group data' state.inventory.groups
    loop ← import_all clock group idents (record { state = state; created = []; skipped = [] })
    ok (record loop {
      state = record loop.state {
        inventory = record loop.state.inventory {
          db =
              logged actor "Discovery candidates imported" (show (length loop.created))
                loop.state.inventory.db;
        };
      };
    })

-- `discovery_scans()` for POST: the scan, and the tables with its run
module _ (sha256 : String → String) (key : Fernet Parameters) (most_hosts : ℕ)
    (allowed : List Network) where
  abbrev scan_request : String → ℕ → Parameters
  scan_request cidr port = record {
    request = obj (field "cidr" (str cidr) (field "ssh_port" (num port) end));
    target = none;
    actor_session_version = none;
    scheduled_task = none;
    schedule_revision = none;
  }

  unfoldable pub queue_scan :
      String → User → String → ℕ → Option ℕ → Discovery → Result (Scan × Discovery)
  unfolding enqueue logged new_id
  queue_scan now actor cidr port profile state = do
    queued ←
        enqueue sha256 key now discovery none actor.id (scan_request cidr port) state.inventory.db
    let scan : Scan = record {
      id = new_id scan_key state.scans;
      run_id = queued.0.id;
      cidr = cidr;
      ssh_port = port;
      credential_id = profile;
    }
    ok (
      scan,
      record state {
        inventory = record state.inventory {
          db = logged actor "Discovery scan queued" cidr queued.1;
        };
        scans = state.scans ++ scan ∷ [];
      },
    )

  -- `data.get('ssh_port', 22)`, and `reference(data.get('credential_id'), Credential, 'ssh')`
  abbrev read_port : Option Json → Result ℕ
  unfolding integer
  read_port none = ok 22
  read_port value = integer value "SSH port" 1 65535

  read_profile : Option Json → List Credential → Result (Option ℕ)
  unfolding reference
  read_profile none profiles = ok none
  read_profile (some value) profiles = credential_reference "ssh" value profiles

  unfoldable pub create_scan :
      Option User → String → Bool → Option Json → Discovery → Result (Scan × Discovery)
  unfolding require payload network get_field show_network integer read_profile queue_scan
  create_scan session now working body state = do
    actor ← require operate_level session
    data' ← payload ("cidr" ∷ "ssh_port" ∷ "credential_id" ∷ []) ("cidr" ∷ []) body
    net ← network most_hosts allowed (get_field "cidr" data')
    port ← read_port (get_field "ssh_port" data')
    profile ← read_profile (get_field "credential_id" data') state.inventory.credentials
    fail_if (not working)
        (api_error "The operation worker is not running." "CAPABILITY_UNAVAILABLE" 503)
    queue_scan now actor (show_network net) port profile state
