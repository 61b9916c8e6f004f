-- ===== src/Firewall/Compile.antt =====
-- `compile_plan` of app/services/firewall.py: the checks on the whole list of items, and the plan.
pub mod Steps
pub mod Sequences
pub mod Lockout
use narsika.Base.{
  text_leb, ℕ, String, Bool, true, false, ◌&&◌, ◌||◌, List, [], ◌∷◌, ◌++◌, map, filter, reversed,
  ltb, leb, ◌==◌, nat_eq, text_eq, Result, ok, fail_if, ◌>>=◌, ◌>>◌, ◌+s◌, show, if◌then◌else◌,
}
use narsika.Base.Json.{Json}
use narsika.Models.{Platform, cisco, mikrotik, Role, operator, role_eq, Device}
use narsika.Jobs.Target.{target_identity}
use narsika.Firewall.Words.{Position, first, last}
use narsika.Firewall.Change.{Place, rule_place, entry_place, Change}
use narsika.Firewall.Normalize.{normalize}
use narsika.Firewall.Snapshot.{Snapshot, Item, Plan}
use narsika.Firewall.Commands.{unique_commands}
use narsika.Firewall.Plan.{
  compile_rows, early_lockout, top_risk, any_opposed, needs_admin, at_position, order_error,
  role_error, opposite_error,
}

-- `key(a) <= key(b)` with the key (acl, sequence)
place_leb : Place → Place → Bool
unfolding text_leb
place_leb (entry_place a s c) (entry_place b t d) = if a == b then leb s t else text_leb a b
place_leb _ _ = true

insert_item : Item → List Item → List Item
unfolding place_leb
insert_item item [] = item ∷ []
insert_item item (other ∷ rest) =
    let later = insert_item item rest in
    if place_leb item.rule.place other.rule.place then item ∷ other ∷ rest else other ∷ later

-- `sorted(items, key=…)`, which keeps the order of equal keys
sort_items : List Item → List Item
unfolding insert_item
sort_items [] = []
sort_items (item ∷ rest) = insert_item item (sort_items rest)

entry_label : Item → String
unfolding show
entry_label item = elim item.rule.place [
  | rule_place chain position ↦ item.label
  | entry_place acl sequence create_acl ↦ acl +s " / " +s show sequence +s ": " +s item.label
]

final_order_of : Platform → List Item → List String
unfolding at_position sort_items entry_label
final_order_of mikrotik items =
    map (λ (i : Item). i.label) (reversed (filter (at_position first) items))
    ++ ("Existing rules (unchanged)" ∷ [])
    ++ map (λ (i : Item). i.label) (filter (at_position last) items)
final_order_of cisco items = map entry_label (sort_items items)

rollbacks : List Item → List String
rollbacks [] = []
rollbacks (item ∷ rest) = item.rollback ++ rollbacks rest

-- The plan, once every check has passed.
unfoldable pub assemble : (String → String) → Device → Snapshot → ℕ → List Item → Plan
unfolding target_identity top_risk final_order_of rollbacks unique_commands
assemble sha256 device state source items = record {
  platform = device.platform;
  target = target_identity sha256 device;
  source_ip = source;
  baseline = state;
  items = items;
  risk = top_risk items;
  final_order = final_order_of device.platform items;
  recovery = unique_commands (rollbacks (reversed items));
}

-- The checks after the loop.
unfoldable pub check_items : Role → List Item → Result (Unit {0})
unfolding early_lockout top_risk needs_admin any_opposed
check_items role items = do
  fail_if (early_lockout items) order_error
  fail_if (role == operator && needs_admin (top_risk items) items) role_error
  fail_if (any_opposed items) opposite_error

unfoldable pub compile_plan :
    (String → String) → (ℕ → String) → Json → Device → Snapshot → Role → Result Plan
unfolding normalize compile_rows check_items assemble
compile_plan sha256 tag data' device state role = do
  (source, changes) ← normalize data' device.platform
  items ← compile_rows tag device state source 0 (record { created = []; occupied = [] }) changes
  check_items role items
  ok (assemble sha256 device state source items)
