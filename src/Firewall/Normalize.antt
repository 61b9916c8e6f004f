-- ===== src/Firewall/Normalize.antt =====
-- `normalize` of app/services/firewall.py with `cidr`: the request for a review as a list of changes.
pub mod Validity
use Prim.Native.Char.{Char, code}
use narsika.Base.{
  ℕ, String, Bool, true, false, not, ◌&&◌, ◌||◌, Option, none, some, List, [], ◌∷◌, ◌++◌, length,
  all, ltb, leb, eqb, is_some, ◌==◌, ◌!=◌, nat_eq, text_eq, option_eq, contains, Result, ApiError,
  ok, err, invalid, fail_if, api_error, ◌>>=◌, ◌>>◌, len, if◌then◌else◌,
}
use narsika.Base.Json.{Json, null, bool, str, arr, obj, Fields, get_field, keys, items}
use narsika.Ipv4.{Network, parse_address, parse_network, is_multicast, is_unspecified}
use narsika.Models.{Platform, platform_eq, cisco, mikrotik}
use narsika.Security.Inputs.{integer}
use narsika.Firewall.Words.{
  Service, custom, ssh, https, http, dns, snmp, ping, winbox, telnet, service_eq, Protocol, tcp,
  udp, icmp, ip, protocol_eq, preset_protocol, Action, allow, block, Chain, input, forward, output,
  Position, first, last,
}
use narsika.Firewall.Change.{
  Selector, anywhere, subnet, Place, rule_place, entry_place, Change, change_eq,
}

abbrev pub max_items : ℕ
max_items = 20

-- An exception that no handler of the operation catches.
abbrev pub internal_error : ApiError
internal_error = api_error "The operation could not be completed." "INTERNAL_ERROR" 500

abbrev pub validation_error : String → ApiError
validation_error message = api_error message "VALIDATION_ERROR" 422

abbrev cidr_error : String
cidr_error = "Use an IPv4 address, CIDR, or any."

unfoldable pub selector_of : Option Network → Result Selector
selector_of none = invalid cidr_error
selector_of (some network) = ok (if network.prefixlen == 0 then anywhere else subnet network)

-- `cidr(row.get(key, 'any'))`
unfoldable pub cidr : Option Json → Result Selector
unfolding selector_of parse_network
cidr none = ok anywhere
cidr (some (str value)) = if value == "any" then ok anywhere else selector_of (parse_network value)
cidr _ = invalid cidr_error

-- The address that Narsika has as the device sees it.
pub source_address : Option Json → Result ℕ
unfolding parse_address
source_address (some (str value)) = elim (parse_address value) [
  | none ↦ invalid "Confirm the Narsika source IPv4 address as seen by this device."
  | some n ↦
      if is_unspecified n || is_multicast n
      then invalid "Confirm the Narsika source IPv4 address as seen by this device."
      else ok n
]
source_address _ = invalid "Confirm the Narsika source IPv4 address as seen by this device."

pub read_protocol : Option Json → Option Protocol
read_protocol (some (str value)) =
    if value == "tcp"
    then some tcp
    else if value == "udp"
    then some udp
    else if value == "icmp"
    then some icmp
    else if value == "ip"
    then some ip
    else none
read_protocol _ = none

pub read_action : Option Json → Option Action
read_action (some (str value)) =
    if value == "allow" then some allow else if value == "block" then some block else none
read_action _ = none

pub read_words : Option Protocol → Option Action → Result (Protocol × Action)
read_words (some protocol) (some action) = ok (protocol, action)
read_words _ _ = invalid "Select a supported protocol and Allow or Block."

-- `row.get('service', 'custom')` in a set: a list or a dictionary has no hash, and raises.
pub read_service : Option Json → Result Service
read_service none = ok custom
read_service (some (str value)) =
    if value == "custom"
    then ok custom
    else if value == "ssh"
    then ok ssh
    else if value == "https"
    then ok https
    else if value == "http"
    then ok http
    else if value == "dns"
    then ok dns
    else if value == "snmp"
    then ok snmp
    else if value == "ping"
    then ok ping
    else if value == "winbox"
    then ok winbox
    else if value == "telnet"
    then ok telnet
    else invalid "Unknown service."
read_service (some (arr xs)) = err internal_error
read_service (some (obj fields)) = err internal_error
read_service _ = invalid "Unknown service."

unfoldable pub check_service : Platform → Protocol → Service → Result (Unit {0})
check_service platform protocol custom = ok tt
check_service platform protocol service = do
  fail_if (preset_protocol service != some protocol)
      (validation_error "Service protocol does not match the preset.")
  fail_if (service == winbox && platform != mikrotik)
      (validation_error "Winbox is available for RouterOS only.")

-- `not in (None, '')`
unfoldable pub is_given : Option Json → Bool
is_given none = false
is_given (some null) = false
is_given (some (str value)) = value != ""
is_given _ = true

unfoldable pub has_port : Protocol → Bool
has_port tcp = true
has_port udp = true
has_port _ = false

unfoldable pub read_port : Protocol → Option Json → Result (Option ℕ)
unfolding has_port is_given integer
read_port protocol value =
    if has_port protocol
    then (integer value "Destination port" 1 65535 >>= λ port. ok (some port))
    else if is_given value
    then invalid "ICMP and Any IP do not have a destination port."
    else ok none

pub read_create_acl : Option Json → Result Bool
read_create_acl none = ok false
read_create_acl (some (bool value)) = ok value
read_create_acl _ = invalid "create_acl must be true or false."

read_chain : Option Json → Result Chain
read_chain none = ok input
read_chain (some (str value)) =
    if value == "input"
    then ok input
    else if value == "forward"
    then ok forward
    else if value == "output"
    then ok output
    else invalid "Select input, forward or output."
read_chain _ = invalid "Select input, forward or output."

read_position : Option Json → Result Position
read_position none = ok first
read_position (some (str value)) =
    if value == "first"
    then ok first
    else if value == "last"
    then ok last
    else invalid "Select first or last rule position."
read_position _ = invalid "Select first or last rule position."

is_letter : Char → Bool
is_letter c = leb 65 (code c) && leb (code c) 90 || leb 97 (code c) && leb (code c) 122

is_name_char : Char → Bool
unfolding is_letter
is_name_char c = is_letter c || leb 48 (code c) && leb (code c) 57 || code c == 95 || code c == 45

all_chars : (Char → Bool) → String → Bool
all_chars p String.[] = true
all_chars p (String.◌∷◌ c s) = p c && all_chars p s

-- `re.fullmatch('[A-Za-z][A-Za-z0-9_-]{0,63}', s)`
unfoldable pub is_acl_name : String → Bool
unfolding is_letter is_name_char all_chars len
is_acl_name String.[] = false
is_acl_name (String.◌∷◌ c s) = is_letter c && all_chars is_name_char s && leb (len s) 63

unfoldable pub read_acl : Option Json → Result String
unfolding is_acl_name
read_acl (some (str value)) =
    if is_acl_name value
    then ok value
    else invalid
        "Choose an existing named extended IPv4 ACL, or name a new one with letters, digits, _ or -."
read_acl _ =
    invalid
      "Choose an existing named extended IPv4 ACL, or name a new one with letters, digits, _ or -."

unfoldable pub read_place : Platform → Bool → Fields → Result Place
unfolding read_chain read_position read_acl get_field integer
read_place mikrotik create_acl row = do
  fail_if create_acl (validation_error "Creating an access list applies to Cisco IOS only.")
  chain ← read_chain (get_field "chain" row)
  position ← read_position (get_field "position" row)
  ok (rule_place chain position)
read_place cisco create_acl row = do
  acl ← read_acl (get_field "acl" row)
  sequence ← integer (get_field "sequence" row) "Sequence" 1 2147483646
  ok (entry_place acl sequence create_acl)

abbrev change_keys : List String
change_keys =
    "service" ∷ "action" ∷ "protocol" ∷ "source" ∷ "destination" ∷ "port" ∷ "chain" ∷ "acl"
    ∷ "sequence" ∷ "position" ∷ "create_acl" ∷ []

-- One element of `changes`.
unfoldable pub read_change : Platform → Json → Result Change
unfolding read_protocol read_action read_words read_service check_service read_port cidr
    read_create_acl read_place get_field keys
read_change platform (obj row) = do
  fail_if (not (all (λ k. contains k change_keys) (keys row)))
      (validation_error "Unknown firewall rule fields.")
  words ←
      read_words (read_protocol (get_field "protocol" row)) (read_action (get_field "action" row))
  let protocol = words.0
  service ← read_service (get_field "service" row)
  check_service platform protocol service
  port ← read_port protocol (get_field "port" row)
  source ← cidr (get_field "source" row)
  destination ← cidr (get_field "destination" row)
  create_acl ← read_create_acl (get_field "create_acl" row)
  place ← read_place platform create_acl row
  ok (record {
    service = service;
    protocol = protocol;
    action = words.1;
    port = port;
    source = source;
    destination = destination;
    place = place;
  })
read_change platform value = invalid "Unknown firewall rule fields."

-- The loop over `changes`, with the `result` so far.
unfoldable pub read_changes : Platform → List Change → List Json → Result (List Change)
unfolding read_change
read_changes platform result [] = ok result
read_changes platform result (row ∷ rows) = do
  item ← read_change platform row
  fail_if (contains item result) (validation_error "The change set contains duplicate rules.")
  read_changes platform (result ++ (item ∷ [])) rows

unfoldable pub read_list : Platform → Option Json → Result (List Change)
unfolding items read_changes
read_list platform (some (arr changes)) = do
  let rows = items changes
  fail_if (not (leb 1 (length rows) && leb (length rows) max_items))
      (validation_error "Review between 1 and 20 changes at a time.")
  read_changes platform [] rows
read_list platform _ = invalid "Review between 1 and 20 changes at a time."

-- The source address and the changes.
unfoldable pub normalize : Json → Platform → Result (ℕ × List Change)
unfolding source_address read_list get_field keys
normalize (obj data') platform = do
  fail_if (not (all (λ k. contains k ("source_ip" ∷ "changes" ∷ [])) (keys data')))
      (validation_error "Send source_ip and changes only.")
  source ← source_address (get_field "source_ip" data')
  changes ← read_list platform (get_field "changes" data')
  ok (source, changes)
normalize value platform = invalid "Send source_ip and changes only."
