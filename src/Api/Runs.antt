-- ===== src/Api/Runs.antt =====
-- `prepare_run`, `create_run`, `queue_run` and `cancel_run` of app/api.py: from a request to a run.
pub mod Allowed
use narsika.Base.{
  ℕ, String, Bool, true, false, not, ◌&&◌, ◌||◌, Option, none, some, List, [], ◌∷◌, ◌++◌, any, all,
  filter, contains, is_some, ◌==◌, ◌!=◌, nat_eq, text_eq, option_eq, list_eq, Result, ApiError, ok,
  err, fail, fail_if, api_error, invalid, ◌>>=◌, ◌>>◌, show, if◌then◌else◌,
}
use narsika.Base.Json.{
  Json, null, bool, num, str, arr, obj, Fields, end, field, get_field, set_field, keys,
}
use narsika.Ipv4.{Network}
use narsika.Models.{
  Role, admin, role_eq, Platform, suits, Kind, kind_text, backup, vlan, playbook, Device, User,
  OperationRun, Db, pending, running, status_eq, put_row, get_row,
}
use narsika.Models.Passwords.{starts_with}
use narsika.Security.{Fernet}
use narsika.Security.Scope.{address}
use narsika.Security.Access.{operate_level, require}
use narsika.Network.{Secret, secret}
use narsika.Jobs.Queue.{Parameters, enqueue, is_active_run}
use narsika.Scheduling.Definition.{Book}
use narsika.Automation.Operation.{VlanChange, AclChange, validate_vlan, validate_acl, get_or_text}
use narsika.Api.Records.{get, logged, logged_detail}
use narsika.Api.Devices.{device_id, is_archived}

-- The validated parameters of a run.
pub data Prepared : Type 0 where
  book_run : ℕ → Fields → Prepared
  vlan_run : VlanChange → Prepared
  backup_run : Prepared

-- The dictionary that is stored.
unfoldable pub prepared_fields : Prepared → Fields
prepared_fields (book_run ident variables) =
    field "playbook_id" (num ident) (field "variables" (obj variables) end)
prepared_fields (vlan_run v) = field "vlan_id" (num v.vlan_id) (
    field "vlan_name" (str v.vlan_name)
      (field "operation" (str v.operation) (field "save_config" (bool v.save_config) end)))
prepared_fields backup_run = end

abbrev pub legacy_acl_playbooks : List String
legacy_acl_playbooks = "Original/cisco_acl.yml" ∷ "Original/mikrotik_acl.yml" ∷ []

-- The variables that the server sets itself.
unfoldable pub is_managed : String → Bool
unfolding starts_with
is_managed key =
    starts_with "ansible_" key || contains key ("narsika_targets" ∷ "narsika_artifact_root" ∷ [])

abbrev pub moved : ApiError
moved =
    api_error
      "Access-list changes moved to Firewall control (/firewall.html), where every change is reviewed, backed up and verified."
      "MOVED" 410

abbrev pub legacy_error : ApiError
legacy_error =
    api_error
      "Legacy access-list playbooks can be run only by an administrator and cannot be scheduled. Use Firewall control for reviewed changes."
      "FORBIDDEN" 403

-- The kind of the request.
unfoldable pub read_kind : Option Json → Result Kind
read_kind (some (str s)) =
    if s == "acl"
    then err moved
    else if s == "playbook"
    then ok playbook
    else if s == "vlan"
    then ok vlan
    else if s == "backup"
    then ok backup
    else invalid "Unsupported operation."
read_kind value = invalid "Unsupported operation."

-- `variables.get(key)` as a value of another dictionary: null where it is missing
abbrev pub get_or_null : String → Fields → Json
unfolding get_field
get_or_null key fields = elim (get_field key fields) [ none ↦ null | some value ↦ value ]

acl_params : Fields → Fields
unfolding get_field
acl_params variables = field "name" (get_or_null "acl_name" variables) (
    field "protocol" (get_or_null "protocol" variables) (
      field "action" (get_or_null "action" variables) (
        field "source" (get_or_null "src_ip" variables) (
          field "destination" (get_or_null "dst_ip" variables)
            (field "port" (get_or_null "port" variables) end)))))

abbrev port_json : Option ℕ → Json
port_json none = null
port_json (some port) = num port

set_acl : AclChange → Fields → Fields
unfolding set_field
set_acl cleaned variables = set_field "port" (port_json cleaned.port) (
    set_field "dst_ip" (str cleaned.destination) (
      set_field "src_ip" (str cleaned.source) (
        set_field "action" (str cleaned.action) (
          set_field "protocol" (str cleaned.protocol)
            (set_field "acl_name" (str cleaned.name) variables)))))

-- A legacy access-list playbook: administrators only, with validated variables.
unfoldable pub legacy_acl : Option Role → String → Fields → Result Fields
unfolding validate_acl acl_params set_acl
legacy_acl role name variables =
    if contains name legacy_acl_playbooks
    then (fail_if (role != some admin) legacy_error
        >> (validate_acl (acl_params variables) >>= λ cleaned. ok (set_acl cleaned variables)))
    else ok variables

-- `{'present':'create','absent':'remove'}.get(variables.get('state'))`; a list or a dictionary has no
-- hash.
vlan_action : Json → Result Json
vlan_action (str s) =
    if s == "present"
    then ok (str "create")
    else if s == "absent"
    then ok (str "remove")
    else ok null
vlan_action (arr xs) = fail "The operation could not be completed." "INTERNAL_ERROR" 500
vlan_action (obj fields) = fail "The operation could not be completed." "INTERNAL_ERROR" 500
vlan_action value = ok null

abbrev name_or_empty : Fields → Json
unfolding get_field
name_or_empty variables = elim (get_field "vlan_name" variables) [
  | none ↦ str ""
  | some value ↦ value
]

vlan_params : Json → Fields → Fields
unfolding get_field
vlan_params action variables =
    field "vlan_id" (get_or_null "vlan_id" variables)
      (field "vlan_name" (name_or_empty variables) (field "operation" action end))

set_vlan : VlanChange → Fields → Fields
unfolding set_field
set_vlan cleaned variables =
    set_field "vlan_name" (str cleaned.vlan_name)
      (set_field "vlan_id" (num cleaned.vlan_id) variables)

-- The packaged playbook for VLANs, with validated variables.
unfoldable pub manage_vlan : Platform → String → Fields → Result Fields
unfolding vlan_action vlan_params validate_vlan set_vlan get_field
manage_vlan platform name variables =
    if name == "Original/manage-vlan.yml"
    then (vlan_action (get_or_null "state" variables) >>= λ action.
        validate_vlan platform (vlan_params action variables) >>= λ cleaned.
        ok (set_vlan cleaned variables))
    else ok variables

-- `data.get(key, {})`, which must be a dictionary
unfoldable pub read_dictionary : Option Json → String → Result Fields
read_dictionary none message = ok end
read_dictionary (some (obj fields)) message = ok fields
read_dictionary (some value) message = invalid message

abbrev pub book_key : Book → ℕ
book_key book = book.id

abbrev pub managed_error : ApiError
managed_error =
    api_error "Connection and artifact variables are managed by the server." "VALIDATION_ERROR" 422

abbrev pub inactive_error : ApiError
inactive_error = api_error "Select the active version of the playbook." "CONFLICT" 409

abbrev pub unsuited_error : ApiError
unsuited_error =
    api_error "The selected playbook does not support this platform." "VALIDATION_ERROR" 422

-- `actor_role` is the role of the requester; a scheduled task has none.
unfoldable pub prepare_book : List Book → Device → Fields → Option Role → Result Prepared
unfolding get get_field read_dictionary is_managed legacy_acl manage_vlan keys
prepare_book books device data' role = do
  book ← get book_key (λ _. false) true (get_field "playbook_id" data') books
  fail_if (not book.active) inactive_error
  fail_if (not (suits book.vendor device.platform)) unsuited_error
  variables ←
      read_dictionary (get_field "variables" data') "Playbook variables must be a JSON object."
  fail_if (any is_managed (keys variables)) managed_error
  ruled ← legacy_acl role book.name variables
  final ← manage_vlan device.platform book.name ruled
  ok (book_run book.id final)

abbrev pub unknown_error : ApiError
unknown_error = api_error "Unknown operation parameters." "VALIDATION_ERROR" 422

abbrev pub vlan_keys : List String
vlan_keys = "vlan_id" ∷ "vlan_name" ∷ "operation" ∷ "save_config" ∷ []

unfoldable pub prepare_vlan : Device → Fields → Result Prepared
unfolding get_field read_dictionary validate_vlan keys
prepare_vlan device data' = do
  params ← read_dictionary (get_field "parameters" data') "Parameters must be a JSON object."
  fail_if (any (λ key. not (contains key vlan_keys)) (keys params)) unknown_error
  change ← validate_vlan device.platform params
  ok (vlan_run change)

unfoldable pub prepare_backup : Fields → Result Prepared
unfolding get_field read_dictionary keys
prepare_backup data' = do
  params ← read_dictionary (get_field "parameters" data') "Parameters must be a JSON object."
  fail_if (keys params != []) unknown_error
  ok backup_run

module _ (key : Fernet Secret) (allowed : List Network) (books : List Book) where
  unfoldable pub prepare_kind : Kind → Device → Fields → Option Role → Result Prepared
  unfolding prepare_book prepare_vlan prepare_backup
  prepare_kind playbook device data' role = prepare_book books device data' role
  prepare_kind vlan device data' role = prepare_vlan device data'
  prepare_kind backup device data' role = prepare_backup data'
  prepare_kind kind device data' role = invalid "Unsupported operation."

  -- `prepare_run(kind, device, data, actor_role)`
  unfoldable pub prepare_run :
      Option Json → Device → Fields → Option Role → Result (Kind × Prepared)
  unfolding read_kind secret address prepare_kind
  prepare_run value device data' role = do
    kind ← read_kind value
    opened ← secret key device.credential
    ip ← address allowed (some (str device.ip_address)) true
    prepared ← prepare_kind kind device data' role
    ok (kind, prepared)

  module _ (sha256 : String → String) (run_key : Fernet Parameters) where
    -- `queue_run(kind, device, parameters)`, for a device
    unfoldable pub queue_run :
        Bool → String → User → Kind → Device → Prepared → Db → Result (OperationRun × Db)
    unfolding enqueue logged_detail prepared_fields
    queue_run working now actor kind device prepared db = do
      fail_if (not working)
          (api_error "The operation worker is not running." "CAPABILITY_UNAVAILABLE" 503)
      queued ←
          enqueue sha256 run_key now kind (some device.id) actor.id
            (record {
              request = obj (prepared_fields prepared);
              target = none;
              actor_session_version = none;
              scheduled_task = none;
              schedule_revision = none;
            })
            db
      ok (queued.0, logged_detail actor "Run queued" device.ip_address (kind_text kind) queued.1)

    -- `create_run(data)`
    unfoldable pub create_run :
        Option User → Bool → String → Fields → Db → Result (OperationRun × Db)
    unfolding require get get_field prepare_run queue_run
    create_run session working now data' db = do
      actor ← require operate_level session
      device ← get device_id is_archived true (get_field "device_id" data') db.devices
      prepared ← prepare_run (get_field "kind" data') device data' (some actor.role)
      queue_run working now actor prepared.0 device prepared.1 db

-- `cancel_run(ident)`: the owner or an administrator asks an active run to stop
unfoldable pub cancel_run : Option User → ℕ → Db → Result (OperationRun × Db)
unfolding require get put_row logged show
cancel_run session ident db = do
  actor ← require operate_level session
  run ← get (λ (r : OperationRun). r.id) (λ _. false) true (some (num ident)) db.runs
  fail_if (run.requested_by_id != actor.id && actor.role != admin)
      (api_error "Only the run owner or an administrator can cancel it." "FORBIDDEN" 403)
  let cancelled = record run { cancel_requested = true }
  ok (
      if is_active_run run
      then (
        cancelled,
        logged actor "Run cancellation requested" (show run.id)
            (record db { runs = put_row (λ (r : OperationRun). r.id) ident cancelled db.runs }),
      )
      else (run, db))
