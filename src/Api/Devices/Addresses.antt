-- ===== src/Api/Devices/Addresses.antt =====
-- Two active devices never have one address.
use mathlib.Core.Path.{subst}
use narsika.Base.{
  ℕ, ◌+◌, ◌≤◌, String, Bool, true, false, Option, none, some, List, [], ◌∷◌, ◌++◌, map, count,
  count-append, IsDistinct, ◌!=◌, nat_eq, text_eq, option_eq, eqb_iff, Option-cases, inl, inr,
  Result, ok, fail_if, fail_if-Returns, bind-eq-ok, Returns-ok, ◌⊎◌, ◌≡◌, refl, sym, ap, ◌∙◌, arith,
  Bool-cases,
}
use narsika.Base.Json.{Json, Fields, get_field}
use narsika.Ipv4.{Network}
use narsika.Models.{Credential, Device, get_row, put_row, new_id, first_row}
use narsika.Models.Rows.{
  count_one, one_if, count-put_row, get_row-id, first_row-none, first_row-holds, get_row-first_row,
  new_id-IsDistinct, put_row-IsDistinct,
}
use narsika.Security.Scope.{address}
use narsika.Api.Devices.{
  Group, Inventory, device_id, is_archived, is_active_at, is_taken, address_taken, when_given,
  set_name, set_model, set_notes, set_address, set_platform, set_ssh_port, set_snmp_port, set_group,
  set_credential, set_snmp_credential, set_labels, set_ports, set_references, reset_health, row_id,
  normalize_device,
}

-- The keys are distinct, and at most one active device has each address.
pub record IsUnique (devices : List Device) : Type 0 where
  pub keys : IsDistinct (map device_id devices)
  pub addresses : (ip : String) → count (is_active_at ip) devices ≤ 1

-- A device may stand at its address: it is the one of `old`, or no active device but `row` has it.
abbrev pub IsFree : List Device → Option ℕ → String → Type 0
IsFree devices row ip = is_taken (first_row (is_active_at ip) devices) row ≡ false

-- What the values of a request leave of the device, and where they put it.
abbrev pub Places : List Device → Option ℕ → Option Json → Device → Device → Type 0
Places devices row value old new =
    (new.id ≡ old.id)
    × (new.archived_at ≡ old.archived_at)
    × (((value ≡ none) × (new.ip_address ≡ old.ip_address)) ⊎ IsFree devices row new.ip_address)

-- A step that leaves the key, the address and the archive alone.
abbrev Stays : Device → Device → Type 0
Stays old new =
    (new.id ≡ old.id) × (new.archived_at ≡ old.archived_at) × (new.ip_address ≡ old.ip_address)

when_given-Stays :
    (value : Option Json) (set : Json → Device → Result Device) (device new : Device)
    → ((v : Json) (a b : Device) → set v a ≡ ok b → Stays a b)
    → when_given value set device ≡ ok new
    → Stays device new
when_given-Stays none set device new keeps h =
    Returns-ok (Stays device) (ok device) (refl, refl, refl) h
when_given-Stays (some v) set device new keeps h = keeps v device new h

set_name-Stays : (v : Json) (a b : Device) → set_name v a ≡ ok b → Stays a b
unfolding set_name
set_name-Stays v a b h = ground arith

set_model-Stays : (v : Json) (a b : Device) → set_model v a ≡ ok b → Stays a b
unfolding set_model
set_model-Stays v a b h = ground arith

set_notes-Stays : (v : Json) (a b : Device) → set_notes v a ≡ ok b → Stays a b
unfolding set_notes
set_notes-Stays v a b h = ground arith

set_platform-Stays : (v : Json) (a b : Device) → set_platform v a ≡ ok b → Stays a b
unfolding set_platform
set_platform-Stays v a b h = ground arith

set_ssh_port-Stays : (v : Json) (a b : Device) → set_ssh_port v a ≡ ok b → Stays a b
unfolding set_ssh_port
set_ssh_port-Stays v a b h = ground arith

set_snmp_port-Stays : (v : Json) (a b : Device) → set_snmp_port v a ≡ ok b → Stays a b
unfolding set_snmp_port
set_snmp_port-Stays v a b h = ground arith

set_group-Stays :
    (rows : List Group) (v : Json) (a b : Device) → set_group rows v a ≡ ok b → Stays a b
unfolding set_group
set_group-Stays rows v a b h = ground arith

set_credential-Stays :
    (rows : List Credential) (v : Json) (a b : Device) → set_credential rows v a ≡ ok b → Stays a b
unfolding set_credential
set_credential-Stays rows v a b h = ground arith

set_snmp_credential-Stays :
    (rows : List Credential) (v : Json) (a b : Device)
    → set_snmp_credential rows v a ≡ ok b
    → Stays a b
unfolding set_snmp_credential
set_snmp_credential-Stays rows v a b h = ground arith

set_address-Places :
    (allowed : List Network) (devices : List Device) (row : Option ℕ) (v : Json) (a b : Device)
    → set_address allowed devices row v a ≡ ok b
    → Places devices row (some v) a b
unfolding set_address
set_address-Places allowed devices row v a b h =
    let (ip, _, h₁) = bind-eq-ok (address allowed (some v) true) _ h in
    let taken = is_taken (first_row (is_active_at ip) devices) row in
    let (_, passed, h₂) = bind-eq-ok (fail_if taken address_taken) _ h₁ in
    let free =
      Returns-ok (λ _. taken ≡ false) (fail_if taken address_taken)
        (fail_if-Returns taken address_taken) passed in
    Returns-ok (Places devices row (some v) a) (ok _) (refl, refl, inr free) h₂

given_address-Places :
    (allowed : List Network) (devices : List Device) (row : Option ℕ) (value : Option Json)
    (a b : Device)
    → when_given value (set_address allowed devices row) a ≡ ok b
    → Places devices row value a b
given_address-Places allowed devices row none a b h =
    Returns-ok (Places devices row none a) (ok a) (refl, refl, inl (refl, refl)) h
given_address-Places allowed devices row (some v) a b h =
    set_address-Places allowed devices row v a b h

-- The values before and after the address leave it alone.
Places-between :
    (devices : List Device) (row : Option ℕ) (value : Option Json) (old a b new : Device)
    → Stays old a
    → Places devices row value a b
    → Stays b new
    → Places devices row value old new
Places-between devices row value old a b new before (key, archived, inl (missing, same)) after =
    ground arith
Places-between devices row value old a b new before (key, archived, inr free) after = (
  cc (before.0, key, after.0),
  cc (before.1, archived, after.1),
  inr (subst (IsFree devices row) (sym after.2) free),
)

reset_health-Stays :
    (row : Option Device) (device : Device) → Stays device (reset_health row device)
unfolding reset_health
reset_health-Stays none device = (refl, refl, refl)
reset_health-Stays (some old) device = ground arith

Stays-trans : (a b c : Device) → Stays a b → Stays b c → Stays a c
Stays-trans a b c (k, r, p) (k', r', p') = (k' ∙ k, r' ∙ r, p' ∙ p)

set_labels-Stays : (data' : Fields) (a b : Device) → set_labels data' a ≡ ok b → Stays a b
unfolding set_labels
set_labels-Stays data' a b h =
    let given = λ (key : String). get_field key data' in
    let (x, e₁, h₁) = bind-eq-ok (when_given (given "name") set_name a) _ h in
    let (y, e₂, e₃) = bind-eq-ok (when_given (given "model") set_model x) _ h₁ in
    Stays-trans a y b
      (Stays-trans a x y (when_given-Stays (given "name") set_name a x set_name-Stays e₁)
        (when_given-Stays (given "model") set_model x y set_model-Stays e₂))
      (when_given-Stays (given "notes") set_notes y b set_notes-Stays e₃)

set_ports-Stays : (data' : Fields) (a b : Device) → set_ports data' a ≡ ok b → Stays a b
unfolding set_ports
set_ports-Stays data' a b h =
    let given = λ (key : String). get_field key data' in
    let (x, e₁, e₂) = bind-eq-ok (when_given (given "ssh_port") set_ssh_port a) _ h in
    Stays-trans a x b (when_given-Stays (given "ssh_port") set_ssh_port a x set_ssh_port-Stays e₁)
      (when_given-Stays (given "snmp_port") set_snmp_port x b set_snmp_port-Stays e₂)

set_references-Stays :
    (groups : List Group) (profiles : List Credential) (data' : Fields) (a b : Device)
    → set_references groups profiles data' a ≡ ok b
    → Stays a b
unfolding set_references
set_references-Stays groups profiles data' a b h =
    let given = λ (key : String). get_field key data' in
    let (x, e₁, h₁) = bind-eq-ok (when_given (given "group_id") (set_group groups) a) _ h in
    let (y, e₂, e₃) =
      bind-eq-ok (when_given (given "credential_id") (set_credential profiles) x) _ h₁ in
    Stays-trans a y b
      (Stays-trans a x y
        (when_given-Stays (given "group_id") (set_group groups) a x (set_group-Stays groups) e₁)
        (when_given-Stays (given "credential_id") (set_credential profiles) x y
          (set_credential-Stays profiles) e₂))
      (when_given-Stays (given "snmp_credential_id") (set_snmp_credential profiles) y b
        (set_snmp_credential-Stays profiles) e₃)

pub normalize_device-Places :
    (allowed : List Network) (inventory : Inventory) (data' : Fields) (row : Option Device)
    (old new : Device)
    → normalize_device allowed inventory data' row old ≡ ok new
    → Places inventory.db.devices (row_id row) (get_field "ip_address" data') old new
unfolding normalize_device
normalize_device-Places allowed inventory data' row old new h =
    let given = λ (key : String). get_field key data' in
    let devices = inventory.db.devices in
    let (a, e₁, h₁) = bind-eq-ok (set_labels data' old) _ h in
    let (b, e₂, h₂) =
      bind-eq-ok (when_given (given "ip_address") (set_address allowed devices (row_id row)) a) _
        h₁ in
    let (c, e₃, h₃) = bind-eq-ok (when_given (given "platform") set_platform b) _ h₂ in
    let (d, e₄, h₄) = bind-eq-ok (set_ports data' c) _ h₃ in
    let (e, e₅, h₅) =
      bind-eq-ok (set_references inventory.groups inventory.credentials data' d) _ h₄ in
    let last = reset_health row e in
    let typed = when_given-Stays (given "platform") set_platform b c set_platform-Stays e₃ in
    let ported = Stays-trans b c d typed (set_ports-Stays data' c d e₄) in
    let referring =
      Stays-trans b d e ported
        (set_references-Stays inventory.groups inventory.credentials data' d e e₅) in
    let after = Stays-trans b e last referring (reset_health-Stays row e) in
    Returns-ok (Places devices (row_id row) (given "ip_address") old) (ok last)
      (Places-between devices (row_id row) (given "ip_address") old a b last
        (set_labels-Stays data' old a e₁)
        (given_address-Places allowed devices (row_id row) (given "ip_address") a b e₂) after)
      h₅

-- Where an address is free for a row, no active device has it, or the row itself does.
free-count :
    (ident : ℕ) (row : Device) (ip : String) (devices : List Device)
    → IsDistinct (map device_id devices)
    → get_row device_id ident devices ≡ some row
    → IsFree devices (some row.id) ip
    → (count (is_active_at ip) devices ≡ 0) ⊎ (is_active_at ip row ≡ true)
unfolding is_taken
free-count ident row ip devices distinct found free =
    elim (Option-cases (first_row (is_active_at ip) devices)) [
      | inl e ↦ inl (first_row-none device_id (is_active_at ip) devices e)
      | inr (d, e) ↦
          let here = get_row-first_row device_id (is_active_at ip) d devices distinct e in
          let key : d.id ≡ row.id = same_key d row.id (rw e at free) in
          let row_key = get_row-id device_id ident row devices found in
          let same : d ≡ row =
            some_inj
              (sym here ∙ (ap (λ (k : ℕ). get_row device_id k devices) (key ∙ row_key) ∙ found)) in
          inr (
            subst (λ (x : Device). is_active_at ip x ≡ true) same
              (first_row-holds device_id (is_active_at ip) d devices e))
    ]
  where
    same_key : (d : Device) (k : ℕ) → (d.id != k) ≡ false → d.id ≡ k
    same_key d k h = ground (arith, eqb_iff d.id k)

    some_inj : {a b : Device} → some a ≡ some b → a ≡ b
    some_inj h = cc

unused-count :
    (ip : String) (devices : List Device)
    → IsFree devices none ip
    → count (is_active_at ip) devices ≡ 0
unfolding is_taken
unused-count ip devices free = elim (Option-cases (first_row (is_active_at ip) devices)) [
  | inl e ↦ first_row-none device_id (is_active_at ip) devices e
  | inr (d, e) ↦ absurd (cc (rw e at free))
]

-- How a row may be written.
abbrev pub IsPlaced : List Device → Device → Device → Type 0
IsPlaced devices row new =
    (is_archived new ≡ true)
    ⊎ ((new.ip_address ≡ row.ip_address) × (is_archived row ≡ false))
    ⊎ IsFree devices (some row.id) new.ip_address

placed-count :
    (ident : ℕ) (row new : Device) (ip : String) (devices : List Device)
    → IsDistinct (map device_id devices)
    → get_row device_id ident devices ≡ some row
    → IsPlaced devices row new
    → is_active_at ip new ≡ true
    → (count (is_active_at ip) devices ≡ 0) ⊎ (is_active_at ip row ≡ true)
placed-count ident row new ip devices distinct found (inl archived) at = absurd (ground arith)
placed-count ident row new ip devices distinct found (inr (inl (same, live))) at =
    inr (ground (arith, text_eq.same_iff new.ip_address ip, text_eq.same_iff row.ip_address ip))
placed-count ident row new ip devices distinct found (inr (inr free)) at =
    let same : new.ip_address ≡ ip = ground (arith, text_eq.same_iff new.ip_address ip) in
    free-count ident row ip devices distinct found (subst (IsFree devices (some row.id)) same free)

-- One row with a free address is written or added.
pub put_row-IsUnique :
    (ident : ℕ) (row new : Device) (devices : List Device)
    → get_row device_id ident devices ≡ some row
    → new.id ≡ row.id
    → IsPlaced devices row new
    → IsUnique devices
    → IsUnique (put_row device_id ident new devices)
put_row-IsUnique ident row new devices found same placed unique = record {
  keys =
      put_row-IsDistinct device_id ident new devices
        (same ∙ get_row-id device_id ident row devices found) unique.keys;
  addresses = λ ip.
      let counted = count-put_row device_id (is_active_at ip) ident new row devices found in
      let before = unique.addresses ip in
      bound (is_active_at ip row) (is_active_at ip new) counted before
        (placed-count ident row new ip devices unique.keys found placed);
}
  where
    bound :
        (old new : Bool) {a b : ℕ}
        → a + one_if old ≡ b + one_if new
        → b ≤ 1
        → (new ≡ true → (b ≡ 0) ⊎ (old ≡ true))
        → a ≤ 1
    bound old false counted before h = omega (arith, counted, before)
    bound true true counted before h = omega (arith, counted, before)
    bound false true counted before h = elim (h refl) [
      | inl none_left ↦ omega (arith, counted, none_left)
      | inr impossible ↦ absurd (cc impossible)
    ]

pub append-IsUnique :
    (new : Device) (devices : List Device)
    → new.id ≡ new_id device_id devices
    → IsFree devices none new.ip_address
    → IsUnique devices
    → IsUnique (devices ++ new ∷ [])
append-IsUnique new devices key free unique = record {
  keys = new_id-IsDistinct device_id new devices unique.keys key;
  addresses = λ ip.
      let split = count-append (is_active_at ip) devices (new ∷ []) in
      let one = count_one (is_active_at ip) new in
      elim (Bool-cases (is_active_at ip new)) [
        | inl e ↦
            let same : new.ip_address ≡ ip = ground (arith, text_eq.same_iff new.ip_address ip) in
            let unused = unused-count ip devices (subst (IsFree devices none) same free) in
            omega (arith, split, one, ap one_if e, unused)
        | inr e ↦ omega (arith, split, one, ap one_if e, unique.addresses ip)
      ];
}
