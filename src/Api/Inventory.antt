-- ===== src/Api/Inventory.antt =====
-- The inventory over time: requests of app/api.py that add, change, archive, restore and import
-- devices, one after the other.
use narsika.Base.{
  ℕ, String, true, false, Option, none, some, List, [], ◌∷◌, ◌++◌, All, All-append, inl, inr, ok,
  fail_if, fail_if-Returns, api_error, bind-eq-ok, Returns-ok, ◌≡◌, ◌≢◌, refl,
}
use narsika.Base.Json.{Json, num, Fields, get_field}
use narsika.Ipv4.{Network}
use narsika.Models.{Device, User, first_row, new_id}
use narsika.Security.Inputs.{payload, payload-given}
use narsika.Security.Access.{require, read_level, admin_level}
use narsika.Api.Records.{get, get-eq-ok, get_any-eq-ok, logged}
use narsika.Api.Devices.{
  Inventory, device_id, is_archived, is_active_at, is_taken, device_keys, normalize_device,
  blank_device, store, create_device, update_device, archive_device, restore_device,
}
use narsika.Api.Devices.Addresses.{
  IsUnique, IsFree, IsPlaced, normalize_device-Places, put_row-IsUnique, append-IsUnique,
}
use narsika.Api.Candidates.{Candidate, Discovery, Imported, import_candidates}
use narsika.Api.Candidates.Import.{IsAddress, import_candidates-IsUnique}

-- The devices of an inventory are unique.
abbrev Holds : Device × Inventory → Type 0
Holds (device, inventory) = IsUnique inventory.db.devices

create_device-IsUnique :
    (allowed : List Network) (session : Option User) (data' : Fields) (before : Inventory)
    {reply : Device × Inventory}
    → create_device allowed session data' before ≡ ok reply
    → get_field "ip_address" data' ≢ none
    → IsUnique before.db.devices
    → Holds reply
unfolding create_device store logged
create_device-IsUnique allowed session data' before h given unique =
    let blank = blank_device (new_id device_id before.db.devices) in
    let (actor, _, h₁) = bind-eq-ok (require admin_level session) _ h in
    let (device, made, h₂) = bind-eq-ok (normalize_device allowed before data' none blank) _ h₁ in
    let (key, _, placed) = normalize_device-Places allowed before data' none blank device made in
    let free : IsFree before.db.devices none device.ip_address = elim placed [
      | inl (missing, _) ↦ absurd (given missing)
      | inr free ↦ free
    ] in
    Returns-ok Holds (ok _) (append-IsUnique device before.db.devices key free unique) h₂

update_device-IsUnique :
    (allowed : List Network) (session : Option User) (ident : ℕ) (body : Option Json)
    (before : Inventory) {reply : Device × Inventory}
    → update_device allowed session ident body before ≡ ok reply
    → IsUnique before.db.devices
    → Holds reply
unfolding update_device store logged
update_device-IsUnique allowed session ident body before h unique =
    let devices = before.db.devices in
    let (viewer, _, h₀) = bind-eq-ok (require read_level session) _ h in
    let (row, found, h₁) =
      bind-eq-ok (get device_id is_archived true (some (num ident)) devices) _ h₀ in
    let (actor, _, h₂) = bind-eq-ok (require admin_level session) _ h₁ in
    let (data', _, h₃) = bind-eq-ok (payload device_keys [] body) _ h₂ in
    let (device, made, h₄) =
      bind-eq-ok (normalize_device allowed before data' (some row) row) _ h₃ in
    let (key, _, placed) =
      normalize_device-Places allowed before data' (some row) row device made in
    let (here, active) = get-eq-ok device_id is_archived ident devices found in
    let fits : IsPlaced devices row device = elim placed [
      | inl (_, same) ↦ inr (inl (same, active))
      | inr free ↦ inr (inr free)
    ] in
    Returns-ok Holds (ok _) (put_row-IsUnique ident row device devices here key fits unique) h₄

archive_device-IsUnique :
    (session : Option User) (now : String) (ident : ℕ) (before : Inventory)
    {reply : Device × Inventory}
    → archive_device session now ident before ≡ ok reply
    → IsUnique before.db.devices
    → Holds reply
unfolding archive_device store logged
archive_device-IsUnique session now ident before h unique =
    let devices = before.db.devices in
    let (viewer, _, h₀) = bind-eq-ok (require read_level session) _ h in
    let (row, found, h₁) =
      bind-eq-ok (get device_id is_archived true (some (num ident)) devices) _ h₀ in
    let (actor, _, h₂) = bind-eq-ok (require admin_level session) _ h₁ in
    let (here, _) = get-eq-ok device_id is_archived ident devices found in
    Returns-ok Holds (ok _)
      (put_row-IsUnique ident row (record row { archived_at = some now }) devices here refl
        (inl refl) unique)
      h₂

restore_device-IsUnique :
    (session : Option User) (ident : ℕ) (before : Inventory) {reply : Device × Inventory}
    → restore_device session ident before ≡ ok reply
    → IsUnique before.db.devices
    → Holds reply
unfolding restore_device store logged
restore_device-IsUnique session ident before h unique =
    let devices = before.db.devices in
    let (actor, _, h₁) = bind-eq-ok (require admin_level session) _ h in
    let (row, found, h₂) =
      bind-eq-ok (get device_id is_archived false (some (num ident)) devices) _ h₁ in
    let taken = is_taken (first_row (is_active_at row.ip_address) devices) (some row.id) in
    let refusal = api_error "An active device already uses this IP address." "CONFLICT" 409 in
    let (_, passed, h₃) = bind-eq-ok (fail_if taken refusal) _ h₂ in
    let free =
      Returns-ok (λ _. taken ≡ false) (fail_if taken refusal) (fail_if-Returns taken refusal)
        passed in
    Returns-ok Holds (ok _)
      (put_row-IsUnique ident row (record row { archived_at = none }) devices
        (get_any-eq-ok device_id is_archived ident devices found) refl (inr (inr free)) unique)
      h₃

-- The requests that succeed, in any order; the others change nothing. A scan may add candidates.
pub data Requests (allowed : List Network) : Discovery → Discovery → Type 0 where
  unchanged : {state : Discovery} → Requests allowed state state
  created :
      {state last : Discovery} {inventory : Inventory} (session : Option User) (body : Option Json)
      (data' : Fields) (device : Device)
      → payload device_keys ("name" ∷ "ip_address" ∷ "platform" ∷ []) body ≡ ok data'
      → create_device allowed session data' state.inventory ≡ ok (device, inventory)
      → Requests allowed (record state { inventory = inventory }) last
      → Requests allowed state last
  updated :
      {state last : Discovery} {inventory : Inventory} (session : Option User) (ident : ℕ)
      (body : Option Json) (device : Device)
      → update_device allowed session ident body state.inventory ≡ ok (device, inventory)
      → Requests allowed (record state { inventory = inventory }) last
      → Requests allowed state last
  archived :
      {state last : Discovery} {inventory : Inventory} (session : Option User) (now : String)
      (ident : ℕ) (device : Device)
      → archive_device session now ident state.inventory ≡ ok (device, inventory)
      → Requests allowed (record state { inventory = inventory }) last
      → Requests allowed state last
  restored :
      {state last : Discovery} {inventory : Inventory} (session : Option User) (ident : ℕ)
      (device : Device)
      → restore_device session ident state.inventory ≡ ok (device, inventory)
      → Requests allowed (record state { inventory = inventory }) last
      → Requests allowed state last
  imported :
      {state last : Discovery} {loop : Imported} (session : Option User) (clock : ℕ)
      (body : Option Json)
      → import_candidates allowed session clock body state ≡ ok loop
      → Requests allowed loop.state last
      → Requests allowed state last
  scanned :
      {state last : Discovery} (candidate : Candidate)
      → IsAddress candidate
      → Requests allowed (record state { candidates = state.candidates ++ candidate ∷ [] }) last
      → Requests allowed state last

-- Along every sequence of successful requests that add, change, archive, restore or import
-- devices, and of scans that add candidates, the keys of the devices are distinct and at most one
-- active device has each address. The condition is that this holds at first, and that the
-- candidates' addresses are texts of addresses.
pub requests-IsUnique :
    (allowed : List Network) {state last : Discovery}
    → Requests allowed state last
    → All IsAddress state.candidates
    → IsUnique state.inventory.db.devices
    → IsUnique last.inventory.db.devices
requests-IsUnique allowed unchanged at unique = unique
requests-IsUnique allowed {state} (created session body data' device given h rest) at unique =
    let there =
      payload-given device_keys ("name" ∷ "ip_address" ∷ "platform" ∷ []) body "ip_address" given
        refl in
    requests-IsUnique allowed rest at
      (create_device-IsUnique allowed session data' state.inventory h there unique)
requests-IsUnique allowed {state} (updated session ident body device h rest) at unique =
    requests-IsUnique allowed rest at
      (update_device-IsUnique allowed session ident body state.inventory h unique)
requests-IsUnique allowed {state} (archived session now ident device h rest) at unique =
    requests-IsUnique allowed rest at
      (archive_device-IsUnique session now ident state.inventory h unique)
requests-IsUnique allowed {state} (restored session ident device h rest) at unique =
    requests-IsUnique allowed rest at
      (restore_device-IsUnique session ident state.inventory h unique)
requests-IsUnique allowed {state} (imported {loop = loop} session clock body h rest) at unique =
    let (unique', at') =
      import_candidates-IsUnique allowed session clock body state loop h at unique in
    requests-IsUnique allowed rest at' unique'
requests-IsUnique allowed {state} (scanned candidate address rest) at unique =
    requests-IsUnique allowed rest
      (All-append IsAddress state.candidates (candidate ∷ []) at (address, tt)) unique
