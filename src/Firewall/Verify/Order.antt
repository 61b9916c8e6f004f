-- ===== src/Firewall/Verify/Order.antt =====
-- The order that `verify` asks for is the order in which the commands of the plan leave the rules:
-- each inserts its rule at the top or at the end.
use mathlib.Core.Path.{subst}
use mathlib.Core.List.{append-nil, append_assoc, map-append}
use narsika.Base.{
  String, Bool, true, false, ◌&&◌, List, [], ◌∷◌, ◌++◌, map, text_eq, list_eq, Result, ok,
  bind-eq-ok, ◌≡◌, refl, sym, ap, ◌∙◌, arith, filter, reversed, all,
}
use narsika.Models.{mikrotik}
use narsika.Firewall.Words.{first, last}
use narsika.Firewall.Change.{Place, rule_place, entry_place}
use narsika.Firewall.Snapshot.{
  FilterRule, Snapshot, Expected, expected_rule, expected_entry, Item, Plan,
}
use narsika.Firewall.Plan.{at_position, stands_at}
use narsika.Firewall.Verify.{
  comments, first_tags, last_tags, rules_kept, rest_kept, outcomes_of, verify,
}

abbrev fields_of : Expected → List (String × String)
fields_of (expected_rule fields) = fields
fields_of (expected_entry acl sequence body) = []

-- The rule that an item adds.
abbrev rule_of : Item → FilterRule
rule_of item = record { comment = item.tag; disabled = false; fields = fields_of item.expected }

abbrev insert_at : Place → FilterRule → List FilterRule → List FilterRule
insert_at (rule_place chain first) rule rules = rule ∷ rules
insert_at (rule_place chain last) rule rules = rules ++ rule ∷ []
insert_at (entry_place acl sequence create_acl) rule rules = rules

-- The rules of the device after the commands of the items, one after the other.
unfoldable pub run_items : List Item → List FilterRule → List FilterRule
run_items [] rules = rules
run_items (item ∷ items) rules = run_items items (insert_at item.rule.place (rule_of item) rules)

comments-append : (a b : List FilterRule) → comments (a ++ b) ≡ comments a ++ comments b
comments-append [] b = refl
comments-append (rule ∷ rules) b = ap (λ rest. rule.comment ∷ rest) (comments-append rules b)

-- The tag, where the test holds.
abbrev tag_if : Bool → String → List String
tag_if true tag = tag ∷ []
tag_if false tag = []

filter-cons :
    (b : Bool) (tag : String) (items : List Item) (item : Item)
    → item.tag ≡ tag
    → (map (λ (i : Item). i.tag) (reversed (elim b [ true ↦ item ∷ items | false ↦ items ]))
        ≡ map (λ (i : Item). i.tag) (reversed items) ++ tag_if b tag)
      × (map (λ (i : Item). i.tag) (elim b [ true ↦ item ∷ items | false ↦ items ])
          ≡ tag_if b tag ++ map (λ (i : Item). i.tag) items)
filter-cons true tag items item e = (
  map-append (λ (i : Item). i.tag) (reversed items) (item ∷ [])
      ∙ ap (λ t. map (λ (i : Item). i.tag) (reversed items) ++ t ∷ []) e,
  ap (λ t. t ∷ map (λ (i : Item). i.tag) items) e,
)
filter-cons false tag items item e = (sym (append-nil _), refl)

comments-insert_at :
    (place : Place) (rule : FilterRule) (rules : List FilterRule)
    → comments (insert_at place rule rules)
      ≡ tag_if (stands_at first place) rule.comment
        ++ comments rules
        ++ tag_if (stands_at last place) rule.comment
comments-insert_at (rule_place chain first) rule rules =
    ap (λ rest. rule.comment ∷ rest) (sym (append-nil (comments rules)))
comments-insert_at (rule_place chain last) rule rules = comments-append rules (rule ∷ [])
comments-insert_at (entry_place acl sequence create_acl) rule rules =
    sym (append-nil (comments rules))

pub comments-run_items :
    (items : List Item) (rules : List FilterRule)
    → comments (run_items items rules) ≡ first_tags items ++ comments rules ++ last_tags items
unfolding run_items at_position
comments-run_items [] rules = sym (append-nil (comments rules))
comments-run_items (item ∷ items) rules =
    rw
      (
        comments-run_items items (insert_at item.rule.place (rule_of item) rules),
        comments-insert_at item.rule.place (rule_of item) rules,
        (filter-cons (stands_at first item.rule.place) item.tag (filter (at_position first) items)
            item refl).0,
        (filter-cons (stands_at last item.rule.place) item.tag (filter (at_position last) items)
            item refl).1,
      )
      (simp append_assoc refl)

and_left : (b c : Bool) → b && c ≡ true → b ≡ true
and_left b c h = ground arith

-- What a dictionary holds under the keys of another one with as many keys.
rules_kept-comments :
    (items : List Item) (before after : List FilterRule)
    → rules_kept items before after ≡ true
    → comments after ≡ comments (run_items items before)
unfolding rules_kept
rules_kept-comments items before after h =
    ((list_eq {A = String}).same_iff (comments after)
        (first_tags items ++ comments before ++ last_tags items)).0
      (and_left _ _ h)
    ∙ sym (comments-run_items items before)

-- Where verify finds a RouterOS plan complete, the rules of the device have the tags and comments,
-- in order, that the commands of the plan leave behind when each inserts its rule at the top or at
-- the end of the reviewed rules, one after the other.
pub verify-run_items :
    (plan : Plan) (after : Snapshot) {outcomes : List Bool}
    → plan.platform ≡ mikrotik
    → verify plan after ≡ ok (true, outcomes)
    → comments after.rules ≡ comments (run_items plan.items plan.baseline.rules)
unfolding verify rest_kept
verify-run_items plan after {outcomes} router h =
    let (matched, _, done) = bind-eq-ok (outcomes_of after plan.items) _ h in
    rules_kept-comments plan.items plan.baseline.rules after.rules (
      and_left _ (all (λ b. b) matched) (
        subst (λ p. rest_kept p plan.items plan.baseline after && all (λ b. b) matched ≡ true)
          router (first_ok done)))
  where
    first_ok :
        {b c : Bool} {x y : List Bool}
        → ◌≡◌ {A = Result (Bool × List Bool)} (ok (b, x)) (ok (c, y))
        → b ≡ c
    first_ok same = cc
