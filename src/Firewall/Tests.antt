-- ===== src/Firewall/Tests.antt =====
-- Examples of the firewall compiler: requests, devices and the plans that result.
use Prim.Native.Nat.{min}
use narsika.Base.{
  ℕ, Bool, ◌≤◌, String, true, false, none, some, List, [], ◌∷◌, map, All, Result, ok, ◌≡◌, ◌↔◌,
  refl, if◌then◌else◌, ◌+s◌, show,
}
use narsika.Base.Json.{Json, str, num, bool, arr, obj, nil, cons, end, field}
use narsika.Ipv4.{parse_address}
use narsika.Models.{Device, cisco, mikrotik, admin, operator}
use narsika.Jobs.Target.{target_identity}
use narsika.Firewall.Words.{medium, lockout, rank, custom, tcp, block, input, first}
use narsika.Firewall.Change.{Change, subnet, anywhere, rule_place}
use narsika.Firewall.Normalize.{normalize}
use narsika.Firewall.Normalize.Validity.{IsRequest, normalize-IsRequest}
use narsika.Firewall.Risk.{assess}
use narsika.Firewall.Risk.Packets.{Packet, Management, blocks, assess-lockout}
use narsika.Firewall.Snapshot.{Snapshot, Item, Plan}
use narsika.Firewall.Commands.{removes_acl, unique_commands}
use narsika.Firewall.Commands.Unique.{occurrences, unique_commands-occurrences}
use narsika.Firewall.Compile.{compile_plan}
use narsika.Firewall.Compile.Lockout.{
  Cuts, IsModest, but_last, compile_plan-lockout_last, compile_plan_operator,
}
use narsika.Firewall.Compile.Sequences.{FreePlace, Apart, compile_plan-Apart}

abbrev pub hash : String → String
hash s = s

abbrev pub tags : ℕ → String
tags n = "NARSIKA_FW_" +s show n

abbrev pub router : Device
router = record {
  id = 1;
  name = "gateway";
  ip_address = "192.168.88.1";
  platform = mikrotik;
  ssh_port = 22;
  credential_id = none;
  credential = none;
  os_type = "";
  snmp_port = 161;
  group_id = none;
  snmp_credential_id = none;
  model = "";
  notes = "";
  health_json = none;
  archived_at = none;
}

abbrev switch : Device
switch = record router { platform = cisco }

abbrev pub empty_state : Snapshot
empty_state = record {
  rules = [];
  acls = ("WEB", record { sequence = 10; body = "permit tcp any any eq www" } ∷ []) ∷ [];
  acl_names = "WEB" ∷ [];
  bindings = [];
  unsupported_acls = [];
  fingerprint = "f";
}

abbrev pub allow_https : Json
allow_https = obj (
    field "service" (str "https") (
      field "protocol" (str "tcp") (
        field "action" (str "allow")
          (field "port" (num 443) (field "source" (str "10.1.2.3/8") end)))))

abbrev block_all : Json
block_all = obj (field "protocol" (str "ip") (field "action" (str "block") end))

abbrev ask : Json → Json → Json
ask a b =
    obj (field "source_ip" (str "192.168.88.10") (field "changes" (arr (cons a (cons b nil))) end))

abbrev pub ask_one : Json → Json
ask_one a = obj (field "source_ip" (str "192.168.88.10") (field "changes" (arr (cons a nil)) end))

abbrev entry_change : String → ℕ → Bool → Json
entry_change acl sequence create_acl = obj (
    field "service" (str "https") (
      field "protocol" (str "tcp") (
        field "action" (str "allow") (
          field "port" (str "443") (
            field "source" (str "10.0.0.0/8") (
              field "acl" (str acl)
                (field "sequence" (num sequence) (field "create_acl" (bool create_acl) end))))))))

abbrev plan_of : Result Plan → List Item
plan_of (ok plan) = plan.items
plan_of _ = []

router_plan :
    map
      (λ (i : Item). i.risk)
      (plan_of (compile_plan hash tags (ask allow_https block_all) router empty_state admin))
    ≡ medium ∷ lockout ∷ []
unfolding compile_plan
router_plan = refl

abbrev pub no_plan : Plan
no_plan = record {
  platform = mikrotik;
  target = target_identity hash router;
  source_ip = 0;
  baseline = empty_state;
  items = [];
  risk = medium;
  final_order = [];
  recovery = [];
}

abbrev pub plan_or : Result Plan → Plan
plan_or (ok plan) = plan
plan_or _ = no_plan

abbrev blocking_plan : Plan
blocking_plan =
    plan_or (compile_plan hash tags (ask allow_https block_all) router empty_state admin)

blocking_plan_ok :
    compile_plan hash tags (ask allow_https block_all) router empty_state admin ≡ ok blocking_plan
unfolding compile_plan
blocking_plan_ok = refl

router_address : parse_address router.ip_address ≡ some 3232258049
unfolding parse_address
router_address = refl

compile_plan-lockout_last_example :
    All (λ i. ¬ Cuts router blocking_plan.source_ip 3232258049 i) (but_last blocking_plan.items)
compile_plan-lockout_last_example =
    compile_plan-lockout_last hash tags router empty_state (ask allow_https block_all) 3232258049
      admin blocking_plan_ok router_address

abbrev pub modest_plan : Plan
modest_plan = plan_or (compile_plan hash tags (ask_one allow_https) router empty_state operator)

modest_plan_ok :
    compile_plan hash tags (ask_one allow_https) router empty_state operator ≡ ok modest_plan
unfolding compile_plan
modest_plan_ok = refl

compile_plan_operator_example :
    (rank modest_plan.risk ≤ 1)
    × All (λ i. IsModest i × ¬ Cuts router modest_plan.source_ip 3232258049 i) modest_plan.items
compile_plan_operator_example =
    compile_plan_operator hash tags router empty_state (ask_one allow_https) 3232258049
      modest_plan_ok router_address

abbrev two_entries : Json
two_entries = ask (entry_change "WEB" 20 false) (entry_change "NEW" 20 true)

abbrev entry_plan : Plan
entry_plan = plan_or (compile_plan hash tags two_entries switch empty_state operator)

entry_plan_ok : compile_plan hash tags two_entries switch empty_state operator ≡ ok entry_plan
unfolding compile_plan
entry_plan_ok = refl

compile_plan-Apart_example :
    All (λ (i : Item). FreePlace empty_state i.rule.place) entry_plan.items × Apart entry_plan.items
compile_plan-Apart_example =
    compile_plan-Apart hash tags switch empty_state two_entries operator entry_plan_ok

abbrev changes_of : Result (ℕ × List Change) → List Change
changes_of (ok (source, changes)) = changes
changes_of _ = []

abbrev two_changes : List Change
two_changes = changes_of (normalize (ask allow_https block_all) mikrotik)

two_changes_ok : normalize (ask allow_https block_all) mikrotik ≡ ok (3232258058, two_changes)
unfolding normalize
two_changes_ok = refl

normalize-IsRequest_example : IsRequest mikrotik two_changes
normalize-IsRequest_example =
    normalize-IsRequest (ask allow_https block_all) mikrotik two_changes_ok

abbrev block_ssh : Change
block_ssh = record {
  service = custom;
  protocol = tcp;
  action = block;
  port = some 22;
  source = subnet (record { base = 3232258048; prefixlen = 24 });
  destination = anywhere;
  place = rule_place input first;
}

block_ssh_assessed : assess 22 3232258058 (some 3232258049) block_ssh ≡ ok lockout
unfolding assess
block_ssh_assessed = refl

assess-lockout_example : (lockout ≡ lockout) ↔ (
    (packet : Packet) × Management 3232258058 3232258049 22 packet
    × (blocks block_ssh packet ≡ true))
assess-lockout_example =
    assess-lockout 22 3232258058 3232258049 block_ssh (22, refl) block_ssh_assessed

unique_commands-occurrences_example :
    occurrences "no ip access-list extended NEW"
      (unique_commands ("no ip access-list extended NEW" ∷ "no ip access-list extended NEW" ∷ []))
    ≡ (if removes_acl "no ip access-list extended NEW"
        then min 1 (
            occurrences "no ip access-list extended NEW"
              ("no ip access-list extended NEW" ∷ "no ip access-list extended NEW" ∷ []))
        else occurrences "no ip access-list extended NEW"
            ("no ip access-list extended NEW" ∷ "no ip access-list extended NEW" ∷ []))
unique_commands-occurrences_example =
    unique_commands-occurrences "no ip access-list extended NEW"
      ("no ip access-list extended NEW" ∷ "no ip access-list extended NEW" ∷ [])
