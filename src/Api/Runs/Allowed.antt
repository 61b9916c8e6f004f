-- ===== src/Api/Runs/Allowed.antt =====
-- What `prepare_run` of app/api.py lets into the queue.
use mathlib.Core.Path.{subst}
use narsika.Base.{
  sym, ℕ, String, Bool, true, false, not, Option, none, some, List, [], any, contains, ◌==◌, ◌!=◌,
  nat_eq, text_eq, option_eq, list_eq, ok, fail_if, fail_if-eq-ok, fail_if-not-eq-ok, ◌>>=◌, ◌>>◌,
  bind-eq-ok, Returns-ok, ◌≡◌, refl, arith, if◌then◌else◌,
}
use narsika.Base.Json.{Json, str, Fields, end, field, get_field, set_field, keys}
use narsika.Ipv4.{Network}
use narsika.Models.{
  Role, admin, role_eq, role_beq_iff, suits, Platform, Kind, playbook, vlan, backup, discovery,
  firewall, Credential, Device, get_row,
}
use narsika.Models.Rows.{get_row-id}
use narsika.Security.{Fernet}
use narsika.Security.Scope.{address}
use narsika.Security.Inputs.{integer}
use narsika.Network.{Secret, secret, credential_error}
use narsika.Scheduling.Definition.{Book}
use narsika.Automation.Operation.{VlanChange, AclChange, validate_vlan, validate_acl}
use narsika.Automation.Operation.Validity.{IsVlan, validate_vlan-IsVlan}
use narsika.Api.Records.{get, find_live, last_record}
use narsika.Api.Runs.{
  Prepared, book_run, vlan_run, backup_run, is_managed, legacy_acl_playbooks, legacy_acl,
  legacy_error, set_acl, acl_params, vlan_action, vlan_params, set_vlan, manage_vlan,
  read_dictionary, read_kind, book_key, managed_error, inactive_error, unsuited_error, prepare_book,
  unknown_error, vlan_keys, prepare_vlan, prepare_backup, prepare_kind, prepare_run, get_or_null,
}

-- No variable of the server is set.
abbrev pub IsClean : Fields → Type 0
IsClean variables = any is_managed (keys variables) ≡ false

set_field-IsClean :
    (key : String) (value : Json) (fields : Fields)
    → is_managed key ≡ false
    → IsClean fields
    → IsClean (set_field key value fields)
unfolding set_field keys
set_field-IsClean key value end free clean = ground arith
set_field-IsClean key value (field k v rest) free clean =
    ground (arith, set_field-IsClean key value rest)

set_acl-IsClean :
    (cleaned : AclChange) (variables : Fields)
    → IsClean variables
    → IsClean (set_acl cleaned variables)
unfolding set_acl is_managed
set_acl-IsClean cleaned variables clean = set_field-IsClean "port" _ _ refl (
    set_field-IsClean "dst_ip" _ _ refl (
      set_field-IsClean "src_ip" _ _ refl (
        set_field-IsClean "action" _ _ refl (
          set_field-IsClean "protocol" _ _ refl
            (set_field-IsClean "acl_name" _ variables refl clean)))))

set_vlan-IsClean :
    (cleaned : VlanChange) (variables : Fields)
    → IsClean variables
    → IsClean (set_vlan cleaned variables)
unfolding set_vlan is_managed
set_vlan-IsClean cleaned variables clean =
    set_field-IsClean "vlan_name" _ _ refl (set_field-IsClean "vlan_id" _ variables refl clean)

-- A legacy playbook has an administrator.
abbrev pub HasAdmin : Option Role → String → Type 0
HasAdmin role name = contains name legacy_acl_playbooks ≡ true → role ≡ some admin

legacy-admin :
    (role : Option Role) {u : Unit {0}}
    → fail_if (role != some admin) legacy_error ≡ ok u
    → role ≡ some admin
legacy-admin none h = absurd cc
legacy-admin (some r) h = ground (arith, role_beq_iff r admin)

legacy_acl-Allowed :
    (role : Option Role) (name : String) (variables : Fields) {after : Fields}
    → legacy_acl role name variables ≡ ok after
    → IsClean variables
    → IsClean after × HasAdmin role name
unfolding legacy_acl
legacy_acl-Allowed role name variables {after} h clean = go (contains name legacy_acl_playbooks) h
  where
    go :
        (legacy : Bool)
        → (if legacy
            then (fail_if (role != some admin) legacy_error
                >> (validate_acl (acl_params variables) >>= λ cleaned.
                    ok (set_acl cleaned variables)))
            else ok variables)
          ≡ ok after
        → IsClean after × (legacy ≡ true → role ≡ some admin)
    go false h = (Returns-ok IsClean (ok variables) clean h, λ impossible. absurd (cc impossible))
    go true h =
        let (_, passed, h₁) = bind-eq-ok (fail_if (role != some admin) legacy_error) _ h in
        let (cleaned, _, h₂) = bind-eq-ok (validate_acl (acl_params variables)) _ h₁ in
        (
          Returns-ok IsClean (ok _) (set_acl-IsClean cleaned variables clean) h₂,
          λ _. legacy-admin role passed,
        )

manage_vlan-IsClean :
    (platform : Platform) (name : String) (variables : Fields) {after : Fields}
    → manage_vlan platform name variables ≡ ok after
    → IsClean variables
    → IsClean after
unfolding manage_vlan
manage_vlan-IsClean platform name variables {after} h clean =
    go (name == "Original/manage-vlan.yml") h
  where
    go :
        (managed : Bool)
        → (if managed
            then (vlan_action (get_or_null "state" variables) >>= λ action.
                validate_vlan platform (vlan_params action variables) >>= λ cleaned.
                ok (set_vlan cleaned variables))
            else ok variables)
          ≡ ok after
        → IsClean after
    go false h = Returns-ok IsClean (ok variables) clean h
    go true h =
        let (action, _, h₁) = bind-eq-ok (vlan_action (get_or_null "state" variables)) _ h in
        let (cleaned, _, h₂) =
          bind-eq-ok (validate_vlan platform (vlan_params action variables)) _ h₁ in
        Returns-ok IsClean (ok _) (set_vlan-IsClean cleaned variables clean) h₂

-- A run that may enter the queue, for this device and this requester.
abbrev pub IsAllowed : List Book → Device → Option Role → Prepared → Type 0
IsAllowed books device role (book_run ident variables) =
    (book : Book) × (get_row book_key ident books ≡ some book)
    × (book.active ≡ true)
    × (suits book.vendor device.platform ≡ true)
    × IsClean variables
    × HasAdmin role book.name
IsAllowed books device role (vlan_run v) = IsVlan device.platform v
IsAllowed books device role backup_run = Unit

get_book :
    (value : Option Json) (books : List Book) {book : Book}
    → get book_key (λ _. false) true value books ≡ ok book
    → get_row book_key book.id books ≡ some book
unfolding get find_live
get_book value books {book} h =
    let (ident, _, h₁) = bind-eq-ok (integer value "record ID" 1 last_record) _ h in
    let found : get_row book_key ident books ≡ some book = ground (arith, h₁) in
    let same = get_row-id book_key ident book books found in
    subst (λ (i : ℕ). get_row book_key i books ≡ some book) (sym same) found

prepare_book-Allowed :
    (books : List Book) (device : Device) (data' : Fields) (role : Option Role) {p : Prepared}
    → prepare_book books device data' role ≡ ok p
    → IsAllowed books device role p
unfolding prepare_book
prepare_book-Allowed books device data' role h =
    let chosen = get_field "playbook_id" data' in
    let (book, found, h₁) = bind-eq-ok (get book_key (λ _. false) true chosen books) _ h in
    let (_, active, h₂) = bind-eq-ok (fail_if (not book.active) inactive_error) _ h₁ in
    let suited = suits book.vendor device.platform in
    let (_, fits, h₃) = bind-eq-ok (fail_if (not suited) unsuited_error) _ h₂ in
    let (variables, _, h₄) =
      bind-eq-ok
        (read_dictionary (get_field "variables" data') "Playbook variables must be a JSON object.")
        _ h₃ in
    let (_, free, h₅) = bind-eq-ok (fail_if (any is_managed (keys variables)) managed_error) _ h₄ in
    let (ruled, legacy, h₆) = bind-eq-ok (legacy_acl role book.name variables) _ h₅ in
    let (final, managed, h₇) = bind-eq-ok (manage_vlan device.platform book.name ruled) _ h₆ in
    let clean = fail_if-eq-ok (any is_managed (keys variables)) managed_error free in
    let (clean', admins) = legacy_acl-Allowed role book.name variables legacy clean in
    Returns-ok (IsAllowed books device role) (ok (book_run book.id final))
      (
        book,
        get_book chosen books found,
        fail_if-not-eq-ok book.active inactive_error active,
        fail_if-not-eq-ok suited unsuited_error fits,
        manage_vlan-IsClean device.platform book.name ruled managed clean',
        admins,
      )
      h₇

prepare_vlan-Allowed :
    (books : List Book) (device : Device) (data' : Fields) (role : Option Role) {p : Prepared}
    → prepare_vlan device data' ≡ ok p
    → IsAllowed books device role p
unfolding prepare_vlan
prepare_vlan-Allowed books device data' role h =
    let (params, _, h₁) =
      bind-eq-ok
        (read_dictionary (get_field "parameters" data') "Parameters must be a JSON object.") _ h in
    let (_, _, h₂) =
      bind-eq-ok (fail_if (any (λ key. not (contains key vlan_keys)) (keys params)) unknown_error) _
        h₁ in
    let (v, valid, h₃) = bind-eq-ok (validate_vlan device.platform params) _ h₂ in
    Returns-ok (IsAllowed books device role) (ok (vlan_run v))
      (validate_vlan-IsVlan device.platform params valid) h₃

prepare_backup-Allowed :
    (books : List Book) (device : Device) (data' : Fields) (role : Option Role) {p : Prepared}
    → prepare_backup data' ≡ ok p
    → IsAllowed books device role p
unfolding prepare_backup
prepare_backup-Allowed books device data' role h =
    let (params, _, h₁) =
      bind-eq-ok
        (read_dictionary (get_field "parameters" data') "Parameters must be a JSON object.") _ h in
    let (_, _, h₂) = bind-eq-ok (fail_if (keys params != []) unknown_error) _ h₁ in
    Returns-ok (IsAllowed books device role) (ok backup_run) tt h₂

-- The requester, the kind and the parameters belong together.
pub record IsPrepared (books : List Book) (device : Device) (role : Option Role)
    (r : Kind × Prepared) : Type 0 where
  pub profile : Credential
  pub assigned : device.credential ≡ some profile
  pub ssh : profile.kind ≡ "ssh"
  pub allowed : IsAllowed books device role r.1

module _ (key : Fernet Secret) (nets : List Network) (books : List Book) where
  prepare_kind-Allowed :
      (kind : Kind) (device : Device) (data' : Fields) (role : Option Role) {p : Prepared}
      → prepare_kind key nets books kind device data' role ≡ ok p
      → IsAllowed books device role p
  unfolding prepare_kind
  prepare_kind-Allowed playbook device data' role h = prepare_book-Allowed books device data' role h
  prepare_kind-Allowed vlan device data' role h = prepare_vlan-Allowed books device data' role h
  prepare_kind-Allowed backup device data' role h = prepare_backup-Allowed books device data' role h
  prepare_kind-Allowed discovery device data' role h = absurd cc
  prepare_kind-Allowed firewall device data' role h = absurd cc

  secret-ssh :
      (found : Option Credential) {opened : Secret}
      → secret key found ≡ ok opened
      → (profile : Credential) × (found ≡ some profile) × (profile.kind ≡ "ssh")
  unfolding secret
  secret-ssh none h = absurd cc
  secret-ssh (some profile) h =
      let (_, ssh, _) = bind-eq-ok (fail_if (not (profile.kind == "ssh")) credential_error) _ h in
      let same = fail_if-not-eq-ok (profile.kind == "ssh") credential_error ssh in
      (profile, refl, (text_eq.same_iff profile.kind "ssh").0 same)

  -- What prepare_run returns is allowed: the device has an SSH credential; a playbook is an active
  -- one of the table that suits the platform of the device, no variable of it is one that the
  -- server manages, and a legacy access-list playbook has an administrator as its requester; a
  -- change of VLANs is on Cisco IOS with an id from 2 to 4094 that is not reserved, one of the two
  -- operations, and a valid name where it creates.
  pub prepare_run-IsPrepared :
      (value : Option Json) (device : Device) (data' : Fields) (role : Option Role)
      {r : Kind × Prepared}
      → prepare_run key nets books value device data' role ≡ ok r
      → IsPrepared books device role r
  unfolding prepare_run
  prepare_run-IsPrepared value device data' role h =
      let (kind, _, h₁) = bind-eq-ok (read_kind value) _ h in
      let (opened, profile, h₂) = bind-eq-ok (secret key device.credential) _ h₁ in
      let (_, _, h₃) = bind-eq-ok (address nets (some (str device.ip_address)) true) _ h₂ in
      let (p, made, h₄) = bind-eq-ok (prepare_kind key nets books kind device data' role) _ h₃ in
      let (found, assigned, ssh) = secret-ssh device.credential profile in
      Returns-ok (IsPrepared books device role) (ok (kind, p))
        (record {
          profile = found;
          assigned = assigned;
          ssh = ssh;
          allowed = prepare_kind-Allowed kind device data' role made;
        })
        h₄
