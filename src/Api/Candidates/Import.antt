-- ===== src/Api/Candidates/Import.antt =====
-- The devices that `import_candidates` of app/api.py adds have addresses of their own.
use mathlib.Core.Path.{subst}
use narsika.Base.{
  ℕ, ◌<◌, String, true, false, Option, none, some, List, [], ◌∷◌, All, ok, bind-eq-ok, Returns-ok,
  ◌≡◌, refl, sym, arith,
}
use narsika.Base.Json.{Json, num, str, get_field}
use narsika.Ipv4.{Network, parse_address, show_address}
use narsika.Ipv4.Roundtrip.{parse_address-show_address}
use narsika.Models.{Device, User, first_row, new_id}
use narsika.Models.Rows.{get_row-All, put_row-All}
use narsika.Security.Inputs.{payload}
use narsika.Security.Scope.{address, read_address, check_address}
use narsika.Security.Access.{require, admin_level}
use narsika.Api.Records.{get, get-eq-ok, logged}
use narsika.Api.Devices.{device_id, is_active_at, is_taken}
use narsika.Api.Devices.Addresses.{IsUnique, IsFree, append-IsUnique}
use narsika.Api.Candidates.{
  Scan, Candidate, Verified, Discovery, Imported, candidate_key, find_scan, read_selection,
  read_group, fresh, imported_device, add_device, place, import_one, import_all, import_candidates,
}

-- The text of an address, as a scan stores it.
abbrev pub IsAddress : Candidate → Type 0
IsAddress c = (n : ℕ) × (n < 4294967296) × (c.ip_address ≡ show_address n)

-- Such a text passes unchanged.
address-same :
    (allowed : List Network) (c : Candidate) {ip : String}
    → IsAddress c
    → address allowed (some (str c.ip_address)) true ≡ ok ip
    → ip ≡ c.ip_address
unfolding address read_address check_address
address-same allowed c (n, small, shown) h =
    let read : parse_address c.ip_address ≡ some n =
      rw shown (parse_address-show_address n small) in
    let h' = rw read at h in ground (arith, h', shown)

-- What a pass of the loop keeps.
abbrev IsSound : Imported → Type 0
IsSound loop = IsUnique loop.state.inventory.db.devices × All IsAddress loop.state.candidates

IsFree-none :
    (ip : String) (devices : List Device)
    → first_row (is_active_at ip) devices ≡ none
    → IsFree devices none ip
unfolding is_taken
IsFree-none ip devices e = rw e refl

add_device-IsSound :
    (allowed : List Network) (c : Candidate) (v : Verified) (scan : Scan) (group : Option ℕ)
    (loop : Imported) (ip : String)
    → IsAddress c
    → IsSound loop
    → IsFree loop.state.inventory.db.devices none ip
    → IsSound (add_device allowed c v scan group loop ip)
unfolding add_device imported_device
add_device-IsSound allowed c v scan group loop ip at sound free =
    let inventory = loop.state.inventory in
    let ident = new_id device_id inventory.db.devices in
    (
      append-IsUnique (imported_device c v scan group ip inventory.credentials ident)
          inventory.db.devices refl free sound.0,
      put_row-All candidate_key IsAddress c.id (record c { imported_device_id = some ident })
          loop.state.candidates at sound.1,
    )

module _ (allowed : List Network) (clock : ℕ) (group : Option ℕ) where
  place-IsSound :
      (c : Candidate) (v : Verified) (scan : Scan) (loop after : Imported)
      → IsAddress c
      → IsSound loop
      → place allowed clock group c v scan loop
          (first_row (is_active_at c.ip_address) loop.state.inventory.db.devices)
        ≡ ok after
      → IsSound after
  unfolding place
  place-IsSound c v scan loop after at sound h =
      go (first_row (is_active_at c.ip_address) loop.state.inventory.db.devices) refl h
    where
      go :
          (found : Option Device)
          → first_row (is_active_at c.ip_address) loop.state.inventory.db.devices ≡ found
          → place allowed clock group c v scan loop found ≡ ok after
          → IsSound after
      go (some d) e h = Returns-ok IsSound (ok _) sound h
      go none e h =
          let (ip, passed, h₁) = bind-eq-ok (address allowed (some (str c.ip_address)) true) _ h in
          let free = IsFree-none c.ip_address loop.state.inventory.db.devices e in
          let same = address-same allowed c at passed in
          Returns-ok IsSound (ok _)
            (add_device-IsSound allowed c v scan group loop ip at sound
              (subst (IsFree loop.state.inventory.db.devices none) (sym same) free))
            h₁

  import_one-IsSound :
      (ident : ℕ) (loop after : Imported)
      → import_one allowed clock group ident loop ≡ ok after
      → IsSound loop
      → IsSound after
  unfolding import_one
  import_one-IsSound ident loop after h sound =
      let (c, found, h₁) =
        bind-eq-ok (get candidate_key (λ _. false) true (some (num ident)) loop.state.candidates) _
          h in
      let (scan, _, h₂) = bind-eq-ok (find_scan c.scan_id loop.state.scans) _ h₁ in
      let (v, _, h₃) = bind-eq-ok (fresh clock c) _ h₂ in
      let (here, _) = get-eq-ok candidate_key (λ _. false) ident loop.state.candidates found in
      place-IsSound c v scan loop after
        (get_row-All candidate_key IsAddress ident c loop.state.candidates here sound.1) sound h₃

  import_all-IsSound :
      (idents : List ℕ) (loop after : Imported)
      → import_all allowed clock group idents loop ≡ ok after
      → IsSound loop
      → IsSound after
  unfolding import_all
  import_all-IsSound [] loop after h sound = Returns-ok IsSound (ok loop) sound h
  import_all-IsSound (ident ∷ idents) loop after h sound =
      let (next, first, h₁) = bind-eq-ok (import_one allowed clock group ident loop) _ h in
      import_all-IsSound idents next after h₁ (import_one-IsSound ident loop next first sound)

pub import_candidates-IsUnique :
    (allowed : List Network) (session : Option User) (clock : ℕ) (body : Option Json)
    (state : Discovery) (after : Imported)
    → import_candidates allowed session clock body state ≡ ok after
    → All IsAddress state.candidates
    → IsUnique state.inventory.db.devices
    → IsUnique after.state.inventory.db.devices × All IsAddress after.state.candidates
unfolding import_candidates logged
import_candidates-IsUnique allowed session clock body state after h at unique =
    let (actor, _, h₁) = bind-eq-ok (require admin_level session) _ h in
    let (data', _, h₂) =
      bind-eq-ok (payload ("candidate_ids" ∷ "group_id" ∷ []) ("candidate_ids" ∷ []) body) _ h₁ in
    let (idents, _, h₃) = bind-eq-ok (read_selection (get_field "candidate_ids" data')) _ h₂ in
    let (group, _, h₄) = bind-eq-ok (read_group data' state.inventory.groups) _ h₃ in
    let start : Imported = record { state = state; created = []; skipped = [] } in
    let (loop, looped, h₅) = bind-eq-ok (import_all allowed clock group idents start) _ h₄ in
    Returns-ok IsSound (ok _)
      (import_all-IsSound allowed clock group idents start loop looped (unique, at)) h₅
