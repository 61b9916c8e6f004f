-- ===== src/Api/Devices.antt =====
-- The inventory of app/api.py: `normalize_device`, and the requests that create, change and restore a
-- device, with `create_group` and `group_item`.
pub mod Addresses
use narsika.Base.{
  ℕ, String, Bool, true, false, not, ◌&&◌, ◌||◌, Option, none, some, List, [], ◌∷◌, ◌++◌, filter,
  is_some, ◌==◌, ◌!=◌, nat_eq, text_eq, option_eq, Result, ApiError, ok, err, fail, fail_if,
  api_error, invalid, ◌>>=◌, ◌>>◌, if◌then◌else◌,
}
use narsika.Base.Json.{Json, num, str, Fields, get_field}
use narsika.Ipv4.{Network}
use narsika.Models.{
  Platform, cisco, mikrotik, platform_eq, Credential, Device, User, Db, get_row, put_row, new_id,
  first_row,
}
use narsika.Security.Inputs.{integer, payload}
use narsika.Security.Scope.{address}
use narsika.Security.Access.{text, read_level, admin_level, require}
use narsika.Api.Records.{get, reference, conflict, logged}

pub record Group : Type 0 where
  pub id : ℕ
  pub name : String
  pub archived_at : Option String

-- The tables that the inventory works on. `counters` names the devices with a counter sample.
pub record Inventory : Type 0 where
  pub db : Db
  pub groups : List Group
  pub credentials : List Credential
  pub counters : List ℕ

abbrev pub device_id : Device → ℕ
device_id device = device.id

abbrev pub is_archived : Device → Bool
is_archived device = is_some device.archived_at

abbrev pub group_key : Group → ℕ
group_key group = group.id

abbrev pub is_archived_group : Group → Bool
is_archived_group group = is_some group.archived_at

abbrev pub credential_key : Credential → ℕ
credential_key profile = profile.id

-- `filter_by(ip_address=ip, archived_at=None)`
abbrev pub is_active_at : String → Device → Bool
is_active_at ip device = device.ip_address == ip && not (is_archived device)

abbrev pub device_keys : List String
device_keys =
    "name" ∷ "ip_address" ∷ "platform" ∷ "ssh_port" ∷ "snmp_port" ∷ "group_id" ∷ "credential_id"
    ∷ "snmp_credential_id" ∷ "model" ∷ "notes" ∷ []

abbrev pub os_text : Platform → String
os_text cisco = "cisco_ios"
os_text mikrotik = "mikrotik_routeros"

abbrev pub address_taken : ApiError
address_taken = api_error "This IP address is already in inventory." "CONFLICT" 409

-- Whether another active device has the address.
unfoldable pub is_taken : Option Device → Option ℕ → Bool
is_taken none row = false
is_taken (some duplicate) none = true
is_taken (some duplicate) (some ident) = duplicate.id != ident

-- `data['platform']` is one of the two names.
unfoldable pub read_platform : Json → Result Platform
read_platform (str s) =
    if s == "cisco"
    then ok cisco
    else if s == "mikrotik"
    then ok mikrotik
    else invalid "Select Cisco IOS or MikroTik RouterOS."
read_platform value = invalid "Select Cisco IOS or MikroTik RouterOS."

-- The relationship `credential` is loaded for the new key.
abbrev pub find_credential : List Credential → Option ℕ → Option Credential
unfolding get_row
find_credential profiles none = none
find_credential profiles (some ident) = get_row credential_key ident profiles

-- `if key in data: values[key] = …`
abbrev pub when_given : Option Json → (Json → Device → Result Device) → Device → Result Device
when_given none set device = ok device
when_given (some value) set device = set value device

set_name : Json → Device → Result Device
unfolding text
set_name value device = do
  name ← text (some value) "name" 100 true
  ok (record device { name = name })

set_model : Json → Device → Result Device
unfolding text
set_model value device = do
  model ← text (some value) "model" 100 false
  ok (record device { model = model })

set_notes : Json → Device → Result Device
unfolding text
set_notes value device = do
  notes ← text (some value) "notes" 2000 false
  ok (record device { notes = notes })

-- `row` is the id of the device that is changed, or `none` for a new one.
unfoldable pub set_address : List Network → List Device → Option ℕ → Json → Device → Result Device
unfolding address is_taken first_row
set_address allowed devices row value device = do
  ip ← address allowed (some value) true
  fail_if (is_taken (first_row (is_active_at ip) devices) row) address_taken
  ok (record device { ip_address = ip })

set_platform : Json → Device → Result Device
unfolding read_platform
set_platform value device = do
  platform ← read_platform value
  ok (record device { platform = platform; os_type = os_text platform })

set_ssh_port : Json → Device → Result Device
unfolding integer
set_ssh_port value device = do
  port ← integer (some value) "ssh_port" 1 65535
  ok (record device { ssh_port = port })

set_snmp_port : Json → Device → Result Device
unfolding integer
set_snmp_port value device = do
  port ← integer (some value) "snmp_port" 1 65535
  ok (record device { snmp_port = port })

set_group : List Group → Json → Device → Result Device
unfolding reference
set_group groups value device = do
  group ← reference group_key is_archived_group (λ _. true) value groups
  ok (record device { group_id = group })

-- A credential of this kind.
abbrev pub credential_reference : String → Json → List Credential → Result (Option ℕ)
unfolding reference
credential_reference kind value profiles =
    reference credential_key (λ _. false) (λ (c : Credential). c.kind == kind) value profiles

set_credential : List Credential → Json → Device → Result Device
unfolding reference get_row
set_credential profiles value device = do
  ident ← credential_reference "ssh" value profiles
  ok (record device { credential_id = ident; credential = find_credential profiles ident })

set_snmp_credential : List Credential → Json → Device → Result Device
unfolding reference
set_snmp_credential profiles value device = do
  ident ← credential_reference "snmpv3" value profiles
  ok (record device { snmp_credential_id = ident })

-- Whether a setting of the connection differs.
abbrev pub is_rewired : Device → Device → Bool
is_rewired old new =
    new.ip_address != old.ip_address
    || new.platform != old.platform
    || new.ssh_port != old.ssh_port
    || new.credential_id != old.credential_id
    || new.snmp_port != old.snmp_port
    || new.snmp_credential_id != old.snmp_credential_id

unfoldable pub reset_health : Option Device → Device → Device
reset_health none device = device
reset_health (some old) device =
    if is_rewired old device then record device { health_json = none } else device

abbrev pub row_id : Option Device → Option ℕ
row_id none = none
row_id (some old) = some old.id

-- The three loops of `normalize_device`.
set_labels : Fields → Device → Result Device
unfolding set_name set_model set_notes get_field
set_labels data' device = do
  named ← when_given (get_field "name" data') set_name device
  modelled ← when_given (get_field "model" data') set_model named
  when_given (get_field "notes" data') set_notes modelled

set_ports : Fields → Device → Result Device
unfolding set_ssh_port set_snmp_port get_field
set_ports data' device = do
  reached ← when_given (get_field "ssh_port" data') set_ssh_port device
  when_given (get_field "snmp_port" data') set_snmp_port reached

set_references : List Group → List Credential → Fields → Device → Result Device
unfolding set_group set_credential set_snmp_credential get_field
set_references groups profiles data' device = do
  grouped ← when_given (get_field "group_id" data') (set_group groups) device
  trusted ← when_given (get_field "credential_id" data') (set_credential profiles) grouped
  when_given (get_field "snmp_credential_id" data') (set_snmp_credential profiles) trusted

-- `normalize_device(data, row)`, with the values written to the device
unfoldable pub normalize_device :
    List Network → Inventory → Fields → Option Device → Device → Result Device
unfolding get_field set_labels set_address set_platform set_ports set_references reset_health
normalize_device allowed inventory data' row device = do
  labelled ← set_labels data' device
  placed ←
      when_given (get_field "ip_address" data')
        (set_address allowed inventory.db.devices (row_id row)) labelled
  typed ← when_given (get_field "platform" data') set_platform placed
  ported ← set_ports data' typed
  referring ← set_references inventory.groups inventory.credentials data' ported
  ok (reset_health row referring)

-- The columns of a new device before its values are set, with the defaults of the model.
abbrev pub blank_device : ℕ → Device
blank_device ident = record {
  id = ident;
  name = "";
  ip_address = "";
  platform = cisco;
  os_type = "cisco_ios";
  ssh_port = 22;
  snmp_port = 161;
  group_id = none;
  credential_id = none;
  snmp_credential_id = none;
  credential = none;
  model = "";
  notes = "";
  health_json = none;
  archived_at = none;
}

-- An event and the devices afterwards.
unfoldable pub store : User → String → String → List Device → Inventory → Inventory
unfolding logged
store actor action target devices inventory = record inventory {
  db = logged actor action target (record inventory.db { devices = devices });
}

-- `create_device(data)`
unfoldable pub create_device :
    List Network → Option User → Fields → Inventory → Result (Device × Inventory)
unfolding require normalize_device store new_id
create_device allowed session data' inventory = do
  actor ← require admin_level session
  device ←
      normalize_device allowed inventory data' none
        (blank_device (new_id device_id inventory.db.devices))
  ok (
    device,
    store actor "Device added" device.ip_address (inventory.db.devices ++ device ∷ []) inventory,
  )

-- `telemetry.COUNTERS.pop((…,row.id),None)`
abbrev pub drop_counter : ℕ → Inventory → Inventory
drop_counter ident inventory = record inventory {
  counters = filter (λ (i : ℕ). i != ident) inventory.counters;
}

-- `change_device(row)` for PATCH, with `get` of `device_item`
unfoldable pub update_device :
    List Network → Option User → ℕ → Option Json → Inventory → Result (Device × Inventory)
unfolding require get payload normalize_device store put_row
update_device allowed session ident body inventory = do
  viewer ← require read_level session
  row ← get device_id is_archived true (some (num ident)) inventory.db.devices
  actor ← require admin_level session
  data' ← payload device_keys [] body
  device ← normalize_device allowed inventory data' (some row) row
  ok (
    device,
    drop_counter ident (
        store actor "Device updated" device.ip_address
          (put_row device_id ident device inventory.db.devices) inventory),
  )

-- `change_device(row)` for DELETE
unfoldable pub archive_device : Option User → String → ℕ → Inventory → Result (Device × Inventory)
unfolding require get store put_row
archive_device session now ident inventory = do
  viewer ← require read_level session
  row ← get device_id is_archived true (some (num ident)) inventory.db.devices
  actor ← require admin_level session
  let device = record row { archived_at = some now }
  ok (
    device,
    drop_counter ident (
        store actor "Device archived" device.ip_address
          (put_row device_id ident device inventory.db.devices) inventory),
  )

-- `restore_device(ident)`
unfoldable pub restore_device : Option User → ℕ → Inventory → Result (Device × Inventory)
unfolding require get store put_row is_taken first_row
restore_device session ident inventory = do
  actor ← require admin_level session
  row ← get device_id is_archived false (some (num ident)) inventory.db.devices
  fail_if (is_taken (first_row (is_active_at row.ip_address) inventory.db.devices) (some row.id))
      (api_error "An active device already uses this IP address." "CONFLICT" 409)
  let device = record row { archived_at = none }
  ok (
    device,
    store actor "Device restored" device.ip_address
        (put_row device_id ident device inventory.db.devices) inventory,
  )

-- `create_group(data)`; the name is unique.
unfoldable pub create_group : Option User → Fields → Inventory → Result (Group × Inventory)
unfolding require text get_field first_row new_id logged
create_group session data' inventory = do
  actor ← require admin_level session
  name ← text (get_field "name" data') "group name" 100 true
  fail_if (is_some (first_row (λ (g : Group). g.name == name) inventory.groups)) conflict
  let group : Group = record {
    id = new_id group_key inventory.groups;
    name = name;
    archived_at = none;
  }
  ok (
    group,
    record inventory {
      groups = inventory.groups ++ group ∷ [];
      db = logged actor "Group added" name inventory.db;
    },
  )

-- `group_item(ident)` for DELETE: a group with an active device stays.
unfoldable pub archive_group : Option User → String → ℕ → Inventory → Result (Group × Inventory)
unfolding require get first_row put_row logged
archive_group session now ident inventory = do
  actor ← require admin_level session
  row ← get group_key is_archived_group true (some (num ident)) inventory.groups
  fail_if
      (is_some (
        first_row (λ (d : Device). d.group_id == some row.id && not (is_archived d))
          inventory.db.devices))
      (api_error "Move active devices out of this group first." "CONFLICT" 409)
  let group = record row { archived_at = some now }
  ok (
    group,
    record inventory {
      groups = put_row group_key ident group inventory.groups;
      db = logged actor "Group archived" group.name inventory.db;
    },
  )

-- `group_item(ident)` for PATCH
unfoldable pub rename_group : Option User → ℕ → Option Json → Inventory → Result (Group × Inventory)
unfolding require get payload text get_field first_row put_row logged
rename_group session ident body inventory = do
  actor ← require admin_level session
  row ← get group_key is_archived_group true (some (num ident)) inventory.groups
  data' ← payload ("name" ∷ []) ("name" ∷ []) body
  name ← text (get_field "name" data') "group name" 100 true
  fail_if (is_some (first_row (λ (g : Group). g.name == name && g.id != row.id) inventory.groups))
      conflict
  let group = record row { name = name }
  ok (
    group,
    record inventory {
      groups = put_row group_key ident group inventory.groups;
      db = logged actor "Group renamed" name inventory.db;
    },
  )
