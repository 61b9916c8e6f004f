-- ===== src/Firewall/Normalize/Validity.antt =====
-- What `normalize` lets through.
use mathlib.Core.Path.{subst}
use narsika.Base.{
  ℕ, String, length-append, IsDistinct, IsDistinct-snoc, ◌+◌, Bool, true, not, ◌&&◌, Option, none,
  some, List, [], ◌∷◌, ◌++◌, length, all, All, All-append, leb, ◌≤◌, ◌==◌, nat_eq, text_eq,
  option_eq, contains, Result, ok, fail_if, ◌≡◌, ◌≢◌, refl, arith, Returns, Returns-ok, bind-eq-ok,
  bind-Returns, fail_if-Returns, if_ind,
}
use narsika.Base.Json.{Json, str, arr, obj, Fields, get_field, keys, items}
use narsika.Ipv4.{Network, parse_network}
use narsika.Ipv4.Masks.{IsCanonical, Canonical, parse_network-Canonical}
use narsika.Models.{Platform, cisco, mikrotik}
use narsika.Security.Inputs.{integer}
use narsika.Firewall.Words.{
  Service, custom, Protocol, protocol_eq, tcp, udp, icmp, ip, preset_protocol,
}
use narsika.Firewall.Change.{
  Selector, anywhere, subnet, Place, rule_place, entry_place, Change, change_eq,
}
use narsika.Firewall.Normalize.{
  cidr, selector_of, read_port, has_port, read_place, read_acl, is_acl_name, check_service,
  read_change, read_words, read_protocol, read_action, validation_error, change_keys, read_service,
  read_create_acl, read_changes, read_list, normalize, max_items, source_address,
}
use narsika.Firewall.Risk.Packets.{HasPort}

-- A network of the request is in canonical form and is not the whole address space.
abbrev pub IsSelector : Selector → Type 0
IsSelector anywhere = Unit
IsSelector (subnet network) = IsCanonical network × (network.prefixlen ≢ 0)

abbrev pub InRange : ℕ → Option ℕ → Type 0
InRange high none = Unit
InRange high (some n) = (1 ≤ n) × (n ≤ high)

abbrev pub IsPlace : Platform → Place → Type 0
IsPlace mikrotik (rule_place chain position) = Unit
IsPlace cisco (entry_place acl sequence create_acl) =
    (is_acl_name acl ≡ true) × (1 ≤ sequence) × (sequence ≤ 2147483646)
IsPlace platform place = ⊥

pub record IsChange (platform : Platform) (row : Change) : Type 0 where
  pub has_port : HasPort row.protocol row.port
  pub in_range : InRange 65535 row.port
  pub preset : row.service ≢ custom → preset_protocol row.service ≡ some row.protocol
  pub source : IsSelector row.source
  pub destination : IsSelector row.destination
  pub place : IsPlace platform row.place

abbrev Between : ℕ → ℕ → ℕ → Type 0
Between low high n = (low ≤ n) × (n ≤ high)

integer-Returns :
    (value : Option Json) (name : String) (low high : ℕ)
    → Returns (Between low high) (integer value name low high)
unfolding integer
integer-Returns value name low high = ground arith

selector_of-Returns :
    (network : Option Network) → Canonical network → Returns IsSelector (selector_of network)
unfolding selector_of
selector_of-Returns none h = tt
selector_of-Returns (some network) h = ground arith

cidr-Returns : (value : Option Json) → Returns IsSelector (cidr value)
unfolding cidr
cidr-Returns none = tt
cidr-Returns (some (str value)) =
    if_ind (Returns IsSelector) (value == "any") (λ _. tt)
      (λ _. selector_of-Returns (parse_network value) (parse_network-Canonical value))
cidr-Returns (some value) = ground arith

abbrev FitsProtocol : Protocol → Option ℕ → Type 0
FitsProtocol protocol port = HasPort protocol port × InRange 65535 port

read_port-Returns :
    (protocol : Protocol) (value : Option Json)
    → Returns (FitsProtocol protocol) (read_port protocol value)
unfolding read_port has_port
read_port-Returns tcp value =
    bind-Returns (Between 1 65535) (FitsProtocol tcp) _ _
      (integer-Returns value "Destination port" 1 65535) (λ port h. ((port, refl), h))
read_port-Returns udp value =
    bind-Returns (Between 1 65535) (FitsProtocol udp) _ _
      (integer-Returns value "Destination port" 1 65535) (λ port h. ((port, refl), h))
read_port-Returns icmp value = ground arith
read_port-Returns ip value = ground arith

check_service-Returns :
    (platform : Platform) (protocol : Protocol) (service : Service)
    → Returns
        (λ _. service ≢ custom → preset_protocol service ≡ some protocol)
        (check_service platform protocol service)
unfolding check_service
check_service-Returns platform protocol custom = λ h. absurd (h refl)
check_service-Returns platform protocol service =
    ground (arith, (option_eq {A = Protocol}).same_iff (preset_protocol service) (some protocol))

read_acl-Returns : (value : Option Json) → Returns (λ acl. is_acl_name acl ≡ true) (read_acl value)
unfolding read_acl
read_acl-Returns none = tt
read_acl-Returns (some value) = ground arith

read_place-Returns :
    (platform : Platform) (create_acl : Bool) (row : Fields)
    → Returns (IsPlace platform) (read_place platform create_acl row)
unfolding read_place
read_place-Returns mikrotik create_acl row = ground arith
read_place-Returns cisco create_acl row = ground (
  arith,
  read_acl-Returns (get_field "acl" row),
  integer-Returns (get_field "sequence" row) "Sequence" 1 2147483646,
)

-- One element of `changes`.
read_change-IsChange :
    (platform : Platform) (value : Json) {change : Change}
    → read_change platform value ≡ ok change
    → IsChange platform change
unfolding read_change
read_change-IsChange platform (obj row) {change} h =
    let get = λ (k : String). get_field k row in
    let (_, _, h₁) =
      bind-eq-ok
        (fail_if (not (all (λ k. contains k change_keys) (keys row)))
          (validation_error "Unknown firewall rule fields."))
        _ h in
    let (words, _, h₂) =
      bind-eq-ok (read_words (read_protocol (get "protocol")) (read_action (get "action"))) _ h₁ in
    let (service, _, h₃) = bind-eq-ok (read_service (get "service")) _ h₂ in
    let (_, checked, h₄) = bind-eq-ok (check_service platform words.0 service) _ h₃ in
    let (port, ported, h₅) = bind-eq-ok (read_port words.0 (get "port")) _ h₄ in
    let (source, from, h₆) = bind-eq-ok (cidr (get "source")) _ h₅ in
    let (destination, towards, h₇) = bind-eq-ok (cidr (get "destination")) _ h₆ in
    let (create_acl, _, h₈) = bind-eq-ok (read_create_acl (get "create_acl")) _ h₇ in
    let (place, placed, done) = bind-eq-ok (read_place platform create_acl row) _ h₈ in
    let fits =
      Returns-ok (FitsProtocol words.0) _ (read_port-Returns words.0 (get "port")) ported in
    Returns-ok (IsChange platform) (ok _)
      (record {
        has_port = fits.0;
        in_range = fits.1;
        preset = Returns-ok _ _ (check_service-Returns platform words.0 service) checked;
        source = Returns-ok IsSelector _ (cidr-Returns (get "source")) from;
        destination = Returns-ok IsSelector _ (cidr-Returns (get "destination")) towards;
        place = Returns-ok (IsPlace platform) _ (read_place-Returns platform create_acl row) placed;
      })
      done
read_change-IsChange platform value h = absurd cc

-- What holds of the list of changes.
pub record IsRequest (platform : Platform) (rows : List Change) : Type 0 where
  pub each : All (IsChange platform) rows
  pub distinct : IsDistinct rows
  pub few : length rows ≤ 20
  pub some_change : 1 ≤ length rows

read_changes-IsRequest :
    (platform : Platform) (result : List Change) (values : List Json) {rows : List Change}
    → All (IsChange platform) result
    → IsDistinct result
    → read_changes platform result values ≡ ok rows
    → All (IsChange platform) rows × IsDistinct rows × (length rows ≡ length result + length values)
unfolding read_changes
read_changes-IsRequest platform result [] {rows} valid distinct h =
    Returns-ok
      (λ (rows : List Change).
        All (IsChange platform) rows × IsDistinct rows × (length rows ≡ length result + 0))
      (ok result) (valid, distinct, omega arith) h
read_changes-IsRequest platform result (value ∷ values) {rows} valid distinct h =
    let (change, read, h₁) = bind-eq-ok (read_change platform value) _ h in
    let (_, new, h₂) =
      bind-eq-ok
        (fail_if (contains change result)
          (validation_error "The change set contains duplicate rules."))
        _ h₁ in
    let (each, distinct', size) =
      read_changes-IsRequest platform (result ++ (change ∷ [])) values
        (All-append (IsChange platform) result (change ∷ []) valid
          (read_change-IsChange platform value read, tt))
        (IsDistinct-snoc result change distinct
          (Returns-ok _ _ (fail_if-Returns (contains change result) _) new))
        h₂ in
    (each, distinct', omega (arith, size, length-append result (change ∷ [])))

read_list-IsRequest :
    (platform : Platform) (value : Option Json) {rows : List Change}
    → read_list platform value ≡ ok rows
    → IsRequest platform rows
unfolding read_list
read_list-IsRequest platform (some (arr changes)) h =
    let values = items changes in
    let (_, size, h₁) =
      bind-eq-ok
        (fail_if (not (leb 1 (length values) && leb (length values) max_items))
          (validation_error "Review between 1 and 20 changes at a time."))
        _ h in
    let (each, distinct, same) = read_changes-IsRequest platform [] values tt tt h₁ in
    let fits =
      Returns-ok _ _
        (fail_if-Returns (not (leb 1 (length values) && leb (length values) max_items)) _) size in
    record {
      each = each;
      distinct = distinct;
      few = ground (arith, same, fits);
      some_change = ground (arith, same, fits);
    }
read_list-IsRequest platform none h = absurd cc
read_list-IsRequest platform (some value) h = absurd cc

ok_pair :
    {a b : ℕ} {x y : List Change}
    → ◌≡◌ {A = Result (ℕ × List Change)} (ok (a, x)) (ok (b, y))
    → x ≡ y
ok_pair same = cc

-- The changes that normalize returns are between 1 and 20 and pairwise different. Each has a port
-- exactly if it is TCP or UDP, between 1 and 65535, the protocol of its preset, source and
-- destination networks in canonical form that are not the whole address space, and the place of
-- its platform: a chain, or an access list with a valid name and a sequence number between 1 and
-- 2147483646.
pub normalize-IsRequest :
    (value : Json) (platform : Platform) {source : ℕ} {rows : List Change}
    → normalize value platform ≡ ok (source, rows)
    → IsRequest platform rows
unfolding normalize
normalize-IsRequest (obj row) platform {source} {rows} h =
    let (_, _, h₁) =
      bind-eq-ok
        (fail_if (not (all (λ k. contains k ("source_ip" ∷ "changes" ∷ [])) (keys row)))
          (validation_error "Send source_ip and changes only."))
        _ h in
    let (_, _, h₂) = bind-eq-ok (source_address (get_field "source_ip" row)) _ h₁ in
    let (changes, listed, h₃) = bind-eq-ok (read_list platform (get_field "changes" row)) _ h₂ in
    subst (IsRequest platform) (ok_pair h₃)
      (read_list-IsRequest platform (get_field "changes" row) listed)
normalize-IsRequest value platform h = absurd cc
