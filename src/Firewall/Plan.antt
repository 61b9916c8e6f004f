-- ===== src/Firewall/Plan.antt =====
-- `compile_plan` of app/services/firewall.py.
use narsika.Base.{
  ℕ, suc, String, Bool, true, false, not, ◌&&◌, ◌||◌, List, [], ◌∷◌, ◌++◌, any, ◌==◌, ◌!=◌, nat_eq,
  text_eq, option_eq, contains, Result, ApiError, ok, err, fail_if, api_error, ◌>>=◌, ◌>>◌,
  if◌then◌else◌,
}
use narsika.Ipv4.{parse_address}
use narsika.Models.{role_eq, Device}
use narsika.Firewall.Words.{
  custom, service_eq, protocol_eq, action_eq, chain_eq, Position, position_eq, Risk, low, high,
  lockout, risk_eq,
}
use narsika.Firewall.Change.{Place, rule_place, entry_place, Change, selector_eq}
use narsika.Firewall.Normalize.{validation_error}
use narsika.Firewall.Snapshot.{Entry, get_entries, names, Snapshot, Item}
use narsika.Firewall.Risk.{assess, disguised, max_risk}
use narsika.Firewall.Commands.{make_item}

-- `created` and `occupied`, the variables of the loop
pub record Progress : Type 0 where
  pub created : List String
  pub occupied : List (String × ℕ)

abbrev pub conflict_error : ApiError
conflict_error =
    api_error
      "An access list with this name already exists on the device. Select it instead of creating a new one."
      "CONFLICT" 409

abbrev pub unobserved_error : ApiError
unobserved_error =
    api_error "The selected extended ACL was not observed on the device." "STALE_STATE" 409

abbrev pub remark_error : ApiError
remark_error =
    api_error
      "This ACL contains remarks with potentially hidden sequence numbers. It is read-only in this adapter."
      "UNSUPPORTED" 422

abbrev pub mark_error : ApiError
mark_error = validation_error "Mark every entry for a new access list as a new-ACL entry."

abbrev pub sequence_error : ApiError
sequence_error = validation_error "The selected ACL sequence is already occupied."

abbrev pub order_error : ApiError
order_error =
    validation_error
      "Move the management-disrupting change to the final position, or use a separate change set."

abbrev pub role_error : ApiError
role_error =
    api_error "An administrator must review custom or high-risk firewall changes." "FORBIDDEN" 403

abbrev pub opposite_error : ApiError
opposite_error =
    validation_error
      "Conflicting Allow and Block changes match the same traffic. Keep one intent and review again."

-- Whether the access list may be created or used, and the names created by then.
unfoldable pub choose_acl : Snapshot → List String → String → Bool → Result (List String)
unfolding names
choose_acl state created acl true =
    if contains acl state.acl_names || contains acl (names state.acls)
    then err conflict_error
    else if contains acl created
    then ok created
    else ok (created ++ (acl ∷ []))
choose_acl state created acl false =
    if contains acl created
    then err mark_error
    else if not (contains acl (names state.acls))
    then err unobserved_error
    else ok created

pub same_entry : String × ℕ → String × ℕ → Bool
same_entry (a, s) (b, t) = a == b && s == t

-- `value in used or (acl, value) in occupied`
unfoldable pub is_taken : Snapshot → List (String × ℕ) → String → ℕ → Bool
unfolding get_entries same_entry
is_taken state occupied acl sequence =
    any (λ (x : Entry). x.sequence == sequence) (get_entries acl state.acls)
    || any (same_entry (acl, sequence)) occupied

-- The checks for the place of a change, with the risk that results.
unfoldable pub place_change :
    ℕ → Snapshot → Progress → Change → Place → Risk → Result (Risk × Progress)
unfolding choose_acl is_taken disguised
place_change ssh_port state progress row (rule_place chain position) risk = ok (risk, progress)
place_change ssh_port state progress row (entry_place acl sequence create_acl) risk = do
  created ← choose_acl state progress.created acl create_acl
  fail_if (contains acl state.unsupported_acls) remark_error
  fail_if (is_taken state progress.occupied acl sequence) sequence_error
  ok (
    if create_acl then if disguised ssh_port row then high else low else risk,
    record { created = created; occupied = (acl, sequence) ∷ progress.occupied },
  )

-- The loop over the changes. `tag` gives the tag of the item with this index.
module _ (tag : ℕ → String) (device : Device) (state : Snapshot) (source : ℕ) where
  unfoldable pub compile_rows : ℕ → Progress → List Change → Result (List Item)
  unfolding assess place_change make_item parse_address
  compile_rows index progress [] = ok []
  compile_rows index progress (row ∷ rows) = do
    assessed ← assess device.ssh_port source (parse_address device.ip_address) row
    (risk, after) ← place_change device.ssh_port state progress row row.place assessed
    items ← compile_rows (suc index) after rows
    ok (make_item index (tag index) row row.place risk ∷ items)

-- `any(i['risk']=='LOCKOUT' for i in items[:-1])`
unfoldable pub early_lockout : List Item → Bool
early_lockout [] = false
early_lockout (item ∷ []) = false
early_lockout (item ∷ rest) = item.risk == lockout || early_lockout rest

-- `max((i['risk'] for i in items), key=RANK.get)`, where there is an item
unfoldable pub top_risk : List Item → Risk
unfolding max_risk
top_risk [] = low
top_risk (item ∷ rest) = max_risk item.risk (top_risk rest)

-- The fields `chain` and `acl`, which one platform sets each.
unfoldable pub same_place : Place → Place → Bool
same_place (rule_place c p) (rule_place d q) = c == d
same_place (entry_place a s c) (entry_place b t d) = a == b
same_place _ _ = false

-- Two changes of the same traffic with opposite actions.
unfoldable pub opposed : Change → Change → Bool
unfolding same_place
opposed a b =
    a.protocol == b.protocol
    && a.port == b.port
    && a.source == b.source
    && a.destination == b.destination
    && same_place a.place b.place
    && a.action != b.action

unfoldable pub any_opposed : List Item → Bool
unfolding opposed
any_opposed [] = false
any_opposed (a ∷ rest) = any (λ (b : Item). opposed a.rule b.rule) rest || any_opposed rest

-- The check of the role.
unfoldable pub needs_admin : Risk → List Item → Bool
needs_admin risk items =
    risk == high || risk == lockout || any (λ (i : Item). i.rule.service == custom) items

abbrev pub stands_at : Position → Place → Bool
stands_at position (rule_place chain p) = p == position
stands_at position (entry_place acl sequence create_acl) = false

unfoldable pub at_position : Position → Item → Bool
at_position position item = stands_at position item.rule.place
