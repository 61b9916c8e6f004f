-- ===== src/Api/Credentials.antt =====
-- The credential profiles of app/api.py: `credential_values`, `credentials` (POST) and
-- `credential_item`. A changed profile ends the telemetry of the devices that use it.
pub mod Telemetry
use narsika.Base.{
  ℕ, String, Bool, true, false, not, ◌&&◌, ◌||◌, Option, none, some, List, [], ◌∷◌, ◌++◌, any, map,
  filter, contains, len, ltb, ◌==◌, ◌!=◌, nat_eq, text_eq, option_eq, Result, ok, err, fail_if,
  api_error, invalid, ◌>>=◌, ◌>>◌, if◌then◌else◌,
}
use narsika.Base.Json.{Json, num, str, Fields, get_field}
use narsika.Models.{User, Credential, Device, get_row, put_row, new_id}
use narsika.Security.{Fernet, encrypt, decrypt}
use narsika.Security.Inputs.{payload}
use narsika.Security.Access.{text, require, admin_level}
use narsika.Network.{Secret}
use narsika.Api.Records.{get, conflict, logged}
use narsika.Api.Users.{default_text}
use narsika.Api.Devices.{Inventory, credential_key}

abbrev pub credential_keys : List String
credential_keys =
    "name" ∷ "username" ∷ "kind" ∷ "password" ∷ "enable_password" ∷ "private_key" ∷ "passphrase"
    ∷ "auth_password" ∷ "priv_password" ∷ []

abbrev pub no_secret : Secret
no_secret = record {
  password = none;
  enable_password = none;
  private_key = none;
  passphrase = none;
  auth_password = none;
  priv_password = none;
}

-- `data.get('kind', default)` is one of two.
unfoldable pub read_credential_kind : String → Option Json → Result String
read_credential_kind default none = ok default
read_credential_kind default (some (str s)) =
    if s == "ssh" || s == "snmpv3" then ok s else invalid "Unsupported credential type."
read_credential_kind default value = invalid "Unsupported credential type."

-- `if key in data: secret[key] = data[key]`
unfoldable pub read_secret : Option String → Option Json → Result (Option String)
unfolding len
read_secret original none = ok original
read_secret original (some (str s)) =
    if ltb 32768 (len s) then invalid "Invalid credential value." else ok (some s)
read_secret original value = invalid "Invalid credential value."

-- `secret.get(key, '')`
abbrev pub secret_text : Option String → String
secret_text none = ""
secret_text (some s) = s

unfoldable pub read_ssh : Secret → Fields → Result Secret
unfolding read_secret get_field
read_ssh original data' = do
  password ← read_secret original.password (get_field "password" data')
  enable ← read_secret original.enable_password (get_field "enable_password" data')
  private ← read_secret original.private_key (get_field "private_key" data')
  passphrase ← read_secret original.passphrase (get_field "passphrase" data')
  fail_if (secret_text password == "" && secret_text private == "")
      (api_error "Provide an SSH password or private key." "VALIDATION_ERROR" 422)
  ok (record original {
    password = password;
    enable_password = enable;
    private_key = private;
    passphrase = passphrase;
  })

unfoldable pub read_snmp : Secret → Fields → Result Secret
unfolding read_secret get_field len
read_snmp original data' = do
  auth ← read_secret original.auth_password (get_field "auth_password" data')
  priv ← read_secret original.priv_password (get_field "priv_password" data')
  fail_if (ltb (len (secret_text auth)) 8 || ltb (len (secret_text priv)) 8) (
      api_error "SNMPv3 authentication and privacy passwords require at least 8 characters."
        "VALIDATION_ERROR" 422)
  ok (record original { auth_password = auth; priv_password = priv })

unfoldable pub read_values : String → Secret → Fields → Result Secret
unfolding read_ssh read_snmp
read_values kind original data' =
    if kind == "ssh" then read_ssh original data' else read_snmp original data'

-- `secret == original`
abbrev pub same_secret : Secret → Secret → Bool
same_secret a b =
    a.password == b.password
    && a.enable_password == b.enable_password
    && a.private_key == b.private_key
    && a.passphrase == b.passphrase
    && a.auth_password == b.auth_password
    && a.priv_password == b.priv_password

-- `(Device.credential_id==row.id)|(Device.snmp_credential_id==row.id)`
abbrev pub is_affected : ℕ → Device → Bool
is_affected ident device =
    device.credential_id == some ident || device.snmp_credential_id == some ident

-- The relationship of a device follows the row; a device whose profile changed loses its sample.
unfoldable pub follow : Bool → Credential → Device → Device
follow changed row device = record device {
  credential = if device.credential_id == some row.id then some row else device.credential;
  health_json = if changed && is_affected row.id device then none else device.health_json;
}

-- `telemetry.COUNTERS.pop((…,ident),None)` for the devices that are affected
unfoldable pub drop_counters : ℕ → List Device → List ℕ → List ℕ
drop_counters ident devices counters =
    filter (λ (i : ℕ). not (any (λ (d : Device). d.id == i && is_affected ident d) devices))
      counters

module _ (key : Fernet Secret) where
  -- `credential_values(data)`, as a new row
  unfoldable pub new_credential : ℕ → Fields → Result Credential
  unfolding read_credential_kind text read_values encrypt get_field
  new_credential ident data' = do
    kind ← read_credential_kind "ssh" (get_field "kind" data')
    name ← text (get_field "name" data') "credential name" 100 true
    username ← text (get_field "username" data') "username" 100 true
    secret ← read_values kind no_secret data'
    ok (record {
      id = ident;
      name = name;
      username = username;
      kind = kind;
      encrypted_secret = encrypt key secret;
    })

  -- `credential_values(data, row)`, written to the row
  unfoldable pub changed_credential : Credential → Fields → Result Credential
  unfolding read_credential_kind text read_values encrypt decrypt get_field
  changed_credential row data' = do
    kind ← read_credential_kind row.kind (get_field "kind" data')
    fail_if (kind != row.kind)
        (api_error "Create a separate profile to change credential type." "VALIDATION_ERROR" 422)
    name ← text (default_text (get_field "name" data') row.name) "credential name" 100 true
    username ← text (default_text (get_field "username" data') row.username) "username" 100 true
    original ← decrypt key row.encrypted_secret
    secret ← read_values kind original data'
    ok (record row {
      name = name;
      username = username;
      encrypted_secret =
          if same_secret secret original then row.encrypted_secret else encrypt key secret;
    })

  -- The name of a profile is unique.
  unfoldable pub create_credential :
      Option User → Option Json → Inventory → Result (Credential × Inventory)
  unfolding require payload new_credential logged new_id
  create_credential session body inventory = do
    actor ← require admin_level session
    data' ← payload credential_keys ("name" ∷ "username" ∷ "kind" ∷ []) body
    row ← new_credential (new_id credential_key inventory.credentials) data'
    fail_if (any (λ (c : Credential). c.name == row.name) inventory.credentials) conflict
    ok (
      row,
      record inventory {
        credentials = inventory.credentials ++ row ∷ [];
        db = logged actor "Credential added" row.name inventory.db;
      },
    )

  -- The tables after a profile was changed from `old` to `row`.
  unfoldable pub store_credential : User → Credential → Credential → Inventory → Inventory
  unfolding follow drop_counters logged put_row
  store_credential actor old row inventory =
      let changed = row.username != old.username || row.encrypted_secret != old.encrypted_secret in
      record inventory {
        credentials = put_row credential_key old.id row inventory.credentials;
        counters =
            if changed
            then drop_counters old.id inventory.db.devices inventory.counters
            else inventory.counters;
        db =
            logged actor "Credential updated" row.name
              (record inventory.db { devices = map (follow changed row) inventory.db.devices });
      }

  -- `credential_item(ident)`
  unfoldable pub credential_item :
      Option User → ℕ → Option Json → Inventory → Result (Credential × Inventory)
  unfolding require get payload changed_credential store_credential
  credential_item session ident body inventory = do
    actor ← require admin_level session
    old ← get credential_key (λ _. false) true (some (num ident)) inventory.credentials
    data' ← payload credential_keys [] body
    row ← changed_credential old data'
    fail_if (any (λ (c : Credential). c.name == row.name && c.id != row.id) inventory.credentials)
        conflict
    ok (row, store_credential actor old row inventory)
