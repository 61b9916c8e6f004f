-- ===== src/Firewall/Commands.antt =====
-- The commands of one change in `compile_plan` of app/services/firewall.py, with `ios_address` and
-- `unique_commands`. `tag` is the text NARSIKA_FW_ with sixteen digits of a new UUID.
pub mod Unique
use narsika.Base.{
  ℕ, suc, ◌-◌, String, Bool, true, false, ◌&&◌, Option, none, some, List, [], ◌∷◌, ◌++◌, ◌==◌, ◌!=◌,
  nat_eq, text_eq, contains, ◌+s◌, show, if◌then◌else◌,
}
use narsika.Ipv4.{Network, block as block_size, show_address, show_network}
use narsika.Firewall.Words.{
  Service, custom, service_eq, service_text, Protocol, icmp, ip, protocol_eq, protocol_text,
  protocol_upper, Action, allow, block, action_title, Chain, chain_text, Position, first, last,
  position_eq, Risk,
}
use narsika.Firewall.Change.{Selector, anywhere, subnet, Place, rule_place, entry_place, Change}
use narsika.Firewall.Snapshot.{Expected, expected_entry, expected_rule, Item}

unfoldable pub ios_address : Selector → String
unfolding show_address
ios_address anywhere = "any"
ios_address (subnet network) =
    if network.prefixlen == 32
    then "host " +s show_address network.base
    else show_address network.base +s " " +s show_address (block_size network.prefixlen - 1)

port_text : String → Option ℕ → String
unfolding show
port_text before none = ""
port_text before (some port) = before +s show port

permit_text : Action → String
permit_text allow = "permit"
permit_text block = "deny"

unfoldable pub entry_body : Change → String
unfolding ios_address port_text permit_text
entry_body row =
    permit_text row.action
    +s " "
    +s protocol_text row.protocol
    +s " "
    +s ios_address row.source
    +s " "
    +s ios_address row.destination
    +s port_text " eq " row.port
    +s (if row.protocol == icmp then " echo" else "")

accept_text : Action → String
accept_text allow = "accept"
accept_text block = "drop"

-- A field of the rule, where the condition holds.
field_if : Bool → String → String → List (String × String)
field_if true key value = (key, value) ∷ []
field_if false key value = []

selector_field : String → Selector → List (String × String)
unfolding show_network
selector_field key anywhere = []
selector_field key (subnet network) = (key, show_network network) ∷ []

port_field : Option ℕ → List (String × String)
unfolding show
port_field none = []
port_field (some port) = ("dst-port", show port) ∷ []

unfoldable pub rule_fields : Chain → String → Change → List (String × String)
unfolding accept_text field_if selector_field port_field
rule_fields chain tag row =
    ("chain", chain_text chain)
    ∷ ("action", accept_text row.action)
    ∷ ("comment", tag)
    ∷ (field_if (row.protocol != ip) "protocol" (protocol_text row.protocol)
        ++ field_if (row.protocol == icmp) "icmp-options" "8:0"
        ++ selector_field "src-address" row.source
        ++ selector_field "dst-address" row.destination
        ++ port_field row.port)

field_texts : List (String × String) → String
field_texts [] = ""
field_texts ((key, value) ∷ []) = key +s "=\"" +s value +s "\""
field_texts ((key, value) ∷ rest) = key +s "=\"" +s value +s "\" " +s field_texts rest

-- The move to the top, for a rule in first position.
move_text : Position → String
move_text first =
    "; :if ([:len [/ip firewall filter find]] > 1) do={ /ip firewall filter move $new destination=0 }"
move_text last = ""

rule_command : Position → String → List (String × String) → String
unfolding field_texts move_text
rule_command position tag fields =
    "{ :if ([:len [/ip firewall filter find where comment=\""
    +s tag
    +s "\"]] != 0) do={ :error \"Review already applied\" }; /ip firewall filter add "
    +s field_texts fields
    +s "; :local new [/ip firewall filter find where comment=\""
    +s tag
    +s "\"]; :if ([:len $new] != 1) do={ :error \"Ambiguous inserted rule\" }"
    +s move_text position
    +s "; :put \"NARSIKA_APPLIED\" }"

kind_name : Change → String
kind_name row =
    if row.service == custom then protocol_upper row.protocol else service_text row.service

shown_port : Option ℕ → String
unfolding show
shown_port none = ""
shown_port (some port) = if port == 0 then "" else " :" +s show port

item_label : ℕ → Change → String
unfolding kind_name shown_port show
item_label index row =
    show (suc index)
    +s ". "
    +s action_title row.action
    +s " "
    +s kind_name row
    +s shown_port row.port

-- The item of a change, by its place. The risk is known by now.
unfoldable pub make_item : ℕ → String → Change → Place → Risk → Item
unfolding item_label rule_fields rule_command entry_body show
make_item index tag row (entry_place acl sequence create_acl) risk =
    let opening = "ip access-list extended " +s acl in
    record {
      label = item_label index row;
      rule = row;
      risk = risk;
      parents = opening ∷ [];
      commands = (show sequence +s " " +s entry_body row) ∷ [];
      rollback =
          if create_acl
          then ("no ip access-list extended " +s acl) ∷ []
          else opening ∷ (" no " +s show sequence) ∷ " exit" ∷ [];
      tag = tag;
      expected = expected_entry acl sequence (entry_body row);
    }
make_item index tag row (rule_place chain position) risk =
    let fields = rule_fields chain tag row in
    record {
      label = item_label index row;
      rule = row;
      risk = risk;
      parents = [];
      commands = rule_command position tag fields ∷ [];
      rollback = ("/ip firewall filter remove [find where comment=\"" +s tag +s "\"]") ∷ [];
      tag = tag;
      expected = expected_rule fields;
    }

-- `s.startswith(prefix)`
starts_with : String → String → Bool
starts_with String.[] s = true
starts_with (String.◌∷◌ c prefix) String.[] = false
starts_with (String.◌∷◌ c prefix) (String.◌∷◌ d s) =
    String.◌∷◌ c String.[] == String.◌∷◌ d String.[] && starts_with prefix s

-- A command that must not be sent twice: the removal of a whole access list.
unfoldable pub removes_acl : String → Bool
unfolding starts_with
removes_acl command = starts_with "no ip access-list extended " command

-- The loop of `unique_commands`, with the commands seen so far.
unfoldable pub unique_from : List String → List String → List String
unfolding removes_acl
unique_from seen [] = []
unique_from seen (command ∷ commands) =
    let rest = unique_from (command ∷ seen) commands in
    if removes_acl command && contains command seen
    then unique_from seen commands
    else command ∷ rest

unfoldable pub unique_commands : List String → List String
unfolding unique_from
unique_commands commands = unique_from [] commands
