-- ===== src/Api/Credentials/Telemetry.antt =====
-- A device has no sample that was taken with an earlier version of its credentials.
use mathlib.Core.Path.{subst}
use narsika.Base.{
  ℕ, String, Bool, true, false, ◌&&◌, ◌||◌, Option, none, some, List, [], ◌∷◌, any, map, filter,
  All, Bool-cases, contains, ◌==◌, ◌!=◌, nat_eq, text_eq, option_eq, ok, fail_if, bind-eq-ok,
  Returns-ok, api_error, ◌⊎◌, inl, inr, ◌≡◌, ◌≢◌, refl, sym, arith, if◌then◌else◌,
}
use narsika.Base.Json.{Json, num, Fields, get_field}
use narsika.Models.{User, Credential, Device, get_row}
use narsika.Models.Rows.{get_row-id}
use narsika.Security.{Fernet, decrypt}
use narsika.Security.Inputs.{payload}
use narsika.Security.Access.{text, require, admin_level}
use narsika.Network.{Secret}
use narsika.Api.Records.{get, conflict, get-eq-ok, logged}
use narsika.Api.Devices.{Inventory, credential_key}
use narsika.Api.Users.{default_text}
use narsika.Api.Credentials.{
  read_credential_kind, read_values, credential_keys, is_affected, follow, drop_counters,
  changed_credential, store_credential, credential_item,
}

-- No device with this profile has a health sample, or a counter sample.
abbrev pub IsReset : ℕ → List ℕ → Device → Type 0
IsReset ident counters device =
    is_affected ident device ≡ true
    → (device.health_json ≡ none) × (contains device.id counters ≡ false)

-- What the filter refuses is not there.
filter_absent :
    (p : ℕ → Bool) (i : ℕ) (xs : List ℕ) → p i ≡ false → contains i (filter p xs) ≡ false
filter_absent p i [] h = refl
filter_absent p i (x ∷ xs) h = go (p x) refl (filter_absent p i xs h)
  where
    go :
        (b : Bool)
        → p x ≡ b
        → contains i (filter p xs) ≡ false
        → contains i (elim b [ true ↦ x ∷ filter p xs | false ↦ filter p xs ]) ≡ false
    go false refused later = later
    go true passed later = elim (Bool-cases (i == x)) [
      | inl e ↦ absurd (cc (passed, h, (nat_eq.same_iff i x).0 e))
      | inr e ↦ ground (arith, e, later)
    ]

module _ (row : Credential) (ident : ℕ) where
  -- Whether a device uses the profile does not change.
  follow-IsReset :
      (counters : List ℕ) (devices all : List Device)
      → ((d : Device)
          → any (λ (x : Device). x.id == d.id && is_affected ident x) devices ≡ true
          → any (λ (x : Device). x.id == d.id && is_affected ident x) all ≡ true)
      → row.id ≡ ident
      → All (IsReset ident (drop_counters ident all counters)) (map (follow true row) devices)
  unfolding follow drop_counters
  follow-IsReset counters [] all part same = tt
  follow-IsReset counters (device ∷ rest) all part same = (
    λ affected.
        let here =
          part device (ground (arith, (nat_eq.same_iff device.id device.id).1 refl, affected)) in
        let own : is_affected row.id device ≡ true = rw same affected in
        (ground (arith, own), filter_absent _ device.id counters (ground (arith, here))),
    follow-IsReset counters rest all (λ d h. part d (ground (arith, h))) same,
  )

text_differs : (a b : String) → a ≢ b → (a != b) ≡ true
text_differs a b differs = elim (Bool-cases (a == b)) [
  | inl e ↦ absurd (differs ((text_eq.same_iff a b).0 e))
  | inr e ↦ ground (arith, e)
]

-- The username or the sealed text has changed.
abbrev pub Differs : Credential → Credential → Type 0
Differs old row = (row.username ≢ old.username) ⊎ (row.encrypted_secret ≢ old.encrypted_secret)

has_changed :
    (old row : Credential)
    → Differs old row
    → (row.username != old.username || row.encrypted_secret != old.encrypted_secret) ≡ true
has_changed old row (inl d) = ground (arith, text_differs row.username old.username d)
has_changed old row (inr d) =
    ground (arith, text_differs row.encrypted_secret old.encrypted_secret d)

module _ (key : Fernet Secret) where
  store_credential-IsReset :
      (actor : User) (old row : Credential) (before : Inventory)
      → row.id ≡ old.id
      → (row.username != old.username || row.encrypted_secret != old.encrypted_secret) ≡ true
      → All
          (IsReset old.id (store_credential key actor old row before).counters)
          (store_credential key actor old row before).db.devices
  unfolding store_credential logged
  store_credential-IsReset actor old row before same changed =
      let devices = before.db.devices in
      subst
        (λ (b : Bool).
          All
            (IsReset old.id
              (if b then drop_counters old.id devices before.counters else before.counters))
            (map (follow b row) devices))
        (sym changed) (follow-IsReset row old.id before.counters devices devices (λ d h. h) same)

  stored-IsReset :
      (actor : User) (ident : ℕ) (old row : Credential) (before : Inventory)
      {reply : Credential × Inventory}
      → old.id ≡ ident
      → row.id ≡ old.id
      → ok (row, store_credential key actor old row before) ≡ ok reply
      → Differs old reply.0
      → All (IsReset ident reply.1.counters) reply.1.db.devices
  stored-IsReset actor ident old row before named same h =
      let after = store_credential key actor old row before in
      Returns-ok
        (λ (r : Credential × Inventory).
          Differs old r.0 → All (IsReset ident r.1.counters) r.1.db.devices)
        (ok (row, after))
        (λ differs.
          subst (λ (i : ℕ). All (IsReset i after.counters) after.db.devices) named
            (store_credential-IsReset actor old row before same (has_changed old row differs)))
        h

  changed_credential-id :
      (old : Credential) (data' : Fields) {row : Credential}
      → changed_credential key old data' ≡ ok row
      → row.id ≡ old.id
  unfolding changed_credential
  changed_credential-id old data' h =
      let name_of = default_text (get_field "name" data') old.name in
      let username_of = default_text (get_field "username" data') old.username in
      let (kind, _, h₁) = bind-eq-ok (read_credential_kind old.kind (get_field "kind" data')) _ h in
      let (_, _, h₂) =
        bind-eq-ok
          (fail_if (kind != old.kind) (
            api_error "Create a separate profile to change credential type." "VALIDATION_ERROR"
              422))
          _ h₁ in
      let (name, _, h₃) = bind-eq-ok (text name_of "credential name" 100 true) _ h₂ in
      let (username, _, h₄) = bind-eq-ok (text username_of "username" 100 true) _ h₃ in
      let (original, _, h₅) = bind-eq-ok (decrypt key old.encrypted_secret) _ h₄ in
      let (secret, _, h₆) = bind-eq-ok (read_values kind original data') _ h₅ in
      Returns-ok (λ (c : Credential). c.id ≡ old.id) (ok _) refl h₆

  -- After a request that changes the username or the sealed text of a credential profile, no
  -- device that uses the profile for SSH or for SNMP has a health sample or a counter sample.
  pub credential_item-IsReset :
      (session : Option User) (ident : ℕ) (body : Option Json) (before after : Inventory)
      (old row : Credential)
      → credential_item key session ident body before ≡ ok (row, after)
      → get_row credential_key ident before.credentials ≡ some old
      → Differs old row
      → All (IsReset ident after.counters) after.db.devices
  unfolding credential_item
  credential_item-IsReset session ident body before after old row h found differs =
      let (actor, _, h₁) = bind-eq-ok (require admin_level session) _ h in
      let (old', got, h₂) =
        bind-eq-ok (get credential_key (λ _. false) true (some (num ident)) before.credentials) _
          h₁ in
      let (data', _, h₃) = bind-eq-ok (payload credential_keys [] body) _ h₂ in
      let (row', made, h₄) = bind-eq-ok (changed_credential key old' data') _ h₃ in
      let (_, _, h₅) =
        bind-eq-ok
          (fail_if
            (any (λ (c : Credential). c.name == row'.name && c.id != row'.id) before.credentials)
            conflict)
          _ h₄ in
      let (there, _) = get-eq-ok credential_key (λ _. false) ident before.credentials got in
      let one : old' ≡ old = cc in
      let named = get_row-id credential_key ident old before.credentials found in
      let kept = changed_credential-id old' data' made in
      stored-IsReset actor ident old' row' before
        (subst (λ (o : Credential). o.id ≡ ident) (sym one) named) kept h₅
        (subst (λ (o : Credential). Differs o row) (sym one) differs)
