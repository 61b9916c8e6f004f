-- ===== src/Automation/Operation.antt =====
-- `validate_operation` and `configuration_play` of app/services/automation.py: what a VLAN or an
-- access-list operation may ask for, and the commands that it becomes.
pub mod Validity
use narsika.Base.{
  ℕ, String, Bool, true, false, not, ◌&&◌, ◌||◌, Option, none, some, List, [], ◌∷◌, ◌++◌, map, leb,
  contains, is_some, ◌==◌, ◌!=◌, nat_eq, text_eq, Result, ApiError, ok, err, fail_if, api_error,
  invalid, ◌>>=◌, ◌>>◌, show, ◌+s◌, if◌then◌else◌,
}
use narsika.Base.Json.{Json, bool, num, str, Fields, get_field}
use narsika.Models.{Platform, cisco, mikrotik, platform_eq}
use narsika.Security.Inputs.{integer}
use narsika.Security.Scope.{address}
use narsika.Security.Access.{text, all_chars}

pub record VlanChange : Type 0 where
  pub vlan_id : ℕ
  pub vlan_name : String
  pub operation : String
  pub save_config : Bool

pub record AclChange : Type 0 where
  pub name : String
  pub protocol : String
  pub action : String
  pub chain : String
  pub port : Option ℕ
  pub source : String
  pub destination : String
  pub save_config : Bool

-- `params.get(key, default)` for a default text
abbrev pub get_or_text : String → String → Fields → Option Json
unfolding get_field
get_or_text key default params = elim (get_field key params) [
  | none ↦ some (str default)
  | some value ↦ some value
]

-- `value in texts`
unfoldable pub text_among : List String → Option Json → Option String
text_among texts (some (str s)) = if contains s texts then some s else none
text_among texts value = none

-- `bool(params.get('save_config', False))`, which has been checked
unfoldable pub read_save : Option Json → Result Bool
read_save none = ok false
read_save (some (bool b)) = ok b
read_save (some value) = invalid "save_config must be true or false."

-- `[A-Za-z]` and `[A-Za-z0-9_-]`
abbrev pub is_letter_code : ℕ → Bool
is_letter_code c = leb 65 c && leb c 90 || leb 97 c && leb c 122

abbrev pub is_word_code : ℕ → Bool
is_word_code c = is_letter_code c || leb 48 c && leb c 57 || c == 95 || c == 45

abbrev pub reserved_vlans : List ℕ
reserved_vlans = 1002 ∷ 1003 ∷ 1004 ∷ 1005 ∷ []

abbrev pub platform_error : ApiError
platform_error =
    api_error "VLAN management requires Cisco IOS. Use a RouterOS playbook for MikroTik."
      "VALIDATION_ERROR" 422

check_vlan_id : ℕ → Result (Unit {0})
check_vlan_id ident =
    fail_if (contains ident reserved_vlans)
      (api_error "Reserved VLAN IDs cannot be changed." "VALIDATION_ERROR" 422)

-- A text of letters, digits, dashes and underscores, where the VLAN is not removed. It is not
-- empty by `text`.
check_vlan_name : String → String → Result (Unit {0})
unfolding all_chars
check_vlan_name action name =
    fail_if (action != "remove" && not (name != "" && all_chars is_word_code name))
      (api_error "Use an ASCII VLAN name without spaces." "VALIDATION_ERROR" 422)

read_vlan_action : Option Json → Result String
unfolding text_among
read_vlan_action value = elim (text_among ("create" ∷ "remove" ∷ []) value) [
  | none ↦ invalid "Invalid VLAN operation."
  | some action ↦ ok action
]

unfoldable pub validate_vlan : Platform → Fields → Result VlanChange
unfolding read_save integer check_vlan_id read_vlan_action text check_vlan_name get_field
validate_vlan platform params = do
  save ← read_save (get_field "save_config" params)
  fail_if (platform != cisco) platform_error
  ident ← integer (get_field "vlan_id" params) "VLAN ID" 2 4094
  check_vlan_id ident
  action ← read_vlan_action (get_or_text "operation" "create" params)
  name ← text (get_or_text "vlan_name" "" params) "VLAN name" 32 (action != "remove")
  check_vlan_name action name
  ok (record { vlan_id = ident; vlan_name = name; operation = action; save_config = save })

-- `[A-Za-z][A-Za-z0-9_-]*`
is_rule_name : String → Bool
unfolding all_chars
is_rule_name String.[] = false
is_rule_name (String.◌∷◌ c s) =
    all_chars is_letter_code (String.◌∷◌ c String.[]) && all_chars is_word_code s

join_words : Option String → Option String → Option String → Result (String × String × String)
join_words (some protocol) (some action) (some chain) = ok (protocol, action, chain)
join_words _ _ _ = invalid "Invalid rule protocol, action or chain."

-- Protocol, action and chain.
unfoldable pub read_words : Fields → Result (String × String × String)
unfolding text_among get_field join_words
read_words params =
    join_words (text_among ("tcp" ∷ "udp" ∷ "icmp" ∷ "ip" ∷ []) (get_field "protocol" params))
      (text_among ("permit" ∷ "deny" ∷ []) (get_field "action" params))
      (text_among ("input" ∷ "forward" ∷ "output" ∷ []) (get_or_text "chain" "forward" params))

-- The word `any`, or an address of any network.
unfoldable pub read_end : Option Json → Result String
unfolding address
read_end (some (str s)) = if s == "any" then ok "any" else address [] (some (str s)) false
read_end value = address [] value false

unfoldable pub read_acl_port : String → Option Json → Result (Option ℕ)
unfolding integer
read_acl_port protocol value =
    if contains protocol ("tcp" ∷ "udp" ∷ [])
    then (integer value "destination port" 1 65535 >>= λ port. ok (some port))
    else ok none

check_rule_name : String → Result (Unit {0})
unfolding is_rule_name
check_rule_name name =
    fail_if (not (is_rule_name name)) (api_error "Invalid access-list name." "VALIDATION_ERROR" 422)

unfoldable pub validate_acl : Fields → Result AclChange
unfolding read_save text check_rule_name read_words read_end read_acl_port get_field
validate_acl params = do
  save ← read_save (get_field "save_config" params)
  name ← text (get_field "name" params) "rule name" 32 true
  check_rule_name name
  words ← read_words params
  source ← read_end (get_field "source" params)
  destination ← read_end (get_field "destination" params)
  port ← read_acl_port words.0 (get_field "port" params)
  ok (record {
    name = name;
    protocol = words.0;
    action = words.1;
    chain = words.2;
    port = port;
    source = source;
    destination = destination;
    save_config = save;
  })

-- The task of the play: lines for IOS, or one command for RouterOS.
pub data Task : Type 0 where
  ios_config : List String → List String → Bool → Task
  routeros_command : String → Task

-- `sep.join(texts)`
unfoldable pub join_with : String → List String → String
join_with sep [] = ""
join_with sep (s ∷ []) = s
join_with sep (s ∷ ts) = s +s sep +s join_with sep ts

unfoldable pub vlan_task : VlanChange → Task
unfolding show
vlan_task p =
    if p.operation == "remove"
    then ios_config [] (("no vlan " +s show p.vlan_id) ∷ []) p.save_config
    else ios_config (("vlan " +s show p.vlan_id) ∷ []) (("name " +s p.vlan_name) ∷ []) p.save_config

cisco_end : String → String
cisco_end value = if value == "any" then "any" else "host " +s value

cisco_port : Option ℕ → String
unfolding show
cisco_port none = ""
cisco_port (some port) = " eq " +s show port

cisco_line : AclChange → String
unfolding cisco_end cisco_port
cisco_line p =
    p.action
    +s " "
    +s p.protocol
    +s " "
    +s cisco_end p.source
    +s " "
    +s cisco_end p.destination
    +s cisco_port p.port

-- A key and its value, where the rule has a selector.
selector : Bool → String → String → List (String × String)
selector true key value = (key, value) ∷ []
selector false key value = []

port_selector : Option ℕ → List (String × String)
unfolding show
port_selector none = []
port_selector (some port) = ("dst-port", show port) ∷ []

abbrev verdict : String → String
verdict action = if action == "permit" then "accept" else "drop"

-- `fields`, in the order of the dictionary
router_fields : AclChange → List (String × String)
unfolding selector port_selector
router_fields p =
    (("chain", p.chain) ∷ ("action", verdict p.action) ∷ ("comment", "narsika:" +s p.name) ∷ [])
    ++ (selector (p.protocol != "ip") "protocol" p.protocol
        ++ (selector (p.source != "any") "src-address" p.source
            ++ (selector (p.destination != "any") "dst-address" p.destination
                ++ port_selector p.port)))

-- `expected`: the selectors, empty where the rule has none, then the rest
abbrev or_empty : Bool → String → String
or_empty given value = if given then value else ""

abbrev port_text : Option ℕ → String
unfolding show
port_text none = ""
port_text (some port) = show port

router_expected : AclChange → List (String × String)
unfolding show
router_expected p =
    ("protocol", or_empty (p.protocol != "ip") p.protocol)
    ∷ ("src-address", or_empty (p.source != "any") p.source)
    ∷ ("dst-address", or_empty (p.destination != "any") p.destination)
    ∷ ("dst-port", port_text p.port)
    ∷ ("chain", p.chain)
    ∷ ("action", verdict p.action)
    ∷ ("comment", "narsika:" +s p.name)
    ∷ ("disabled", "false")
    ∷ []

router_add : AclChange → String
unfolding router_fields join_with
router_add p =
    "/ip firewall filter add "
    +s join_with " " (map (λ (f : String × String). f.0 +s "=\"" +s f.1 +s "\"") (router_fields p))

router_checks : AclChange → String
unfolding router_expected join_with
router_checks p = join_with " || " (
    map
      (λ (f : String × String).
        "([:tostr [/ip firewall filter get $ids " +s f.0 +s "]] != \"" +s f.1 +s "\")")
      (router_expected p))

router_command : AclChange → String
unfolding router_add router_checks
router_command p =
    "{ :local ids [/ip firewall filter find where comment=\"narsika:"
    +s p.name
    +s "\"]; :if ([:len $ids] > 1) do={ :error \"Ambiguous managed rule\" }; :if ([:len $ids] = 0) do={ "
    +s router_add p
    +s "; :put \"NARSIKA_CHANGED\" } else={ :if ("
    +s router_checks p
    +s ") do={ :error \"Existing rule conflicts; review manually\" }; :put \"NARSIKA_UNCHANGED\" } }"

unfoldable pub acl_task : Platform → AclChange → Task
unfolding cisco_line router_command
acl_task cisco p =
    ios_config (("ip access-list extended " +s p.name) ∷ []) (cisco_line p ∷ []) p.save_config
acl_task mikrotik p = routeros_command (router_command p)
