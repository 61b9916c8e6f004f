-- ===== src/Firewall/Verify.antt =====
-- `verify` and `canonical_ios` of app/services/firewall.py: whether a fresh reading of the device
-- shows what the plan asked for.
pub mod Order
use Prim.Native.Char.{Char, code}
use narsika.Base.{
  ℕ, suc, zero, ◌+◌, String, Bool, true, false, not, ◌&&◌, ◌||◌, Option, none, some, List, [], ◌∷◌,
  ◌++◌, map, filter, reversed, any, all, length, leb, ◌==◌, ◌!=◌, nat_eq, text_eq, option_eq,
  list_eq, contains, Result, ok, ◌≡◌, refl, ◌>>=◌, ◌+s◌, if◌then◌else◌,
}
use narsika.Base.Json.{str}
use narsika.Models.{Platform, cisco, mikrotik}
use narsika.Firewall.Words.{first, last}
use narsika.Firewall.Change.{Place, rule_place, entry_place, selector_eq}
use narsika.Firewall.Normalize.{cidr}
use narsika.Firewall.Snapshot.{
  FilterRule, Entry, Acls, lookup, get_entries, names, Snapshot, Expected, expected_entry,
  expected_rule, Item, Plan,
}
use narsika.Firewall.Plan.{at_position}

-- The names that IOS shows for port numbers.
alias : String → String
alias word =
    if word == "ssh"
    then "22"
    else if word == "telnet"
    then "23"
    else if word == "www"
    then "80"
    else if word == "http"
    then "80"
    else if word == "https"
    then "443"
    else if word == "domain"
    then "53"
    else if word == "snmp"
    then "161"
    else word

is_space : Char → Bool
is_space c = leb 9 (code c) && leb (code c) 13 || code c == 32

-- `\w` of ASCII
is_word_char : Char → Bool
is_word_char c =
    leb 48 (code c) && leb (code c) 57
    || leb 65 (code c) && leb (code c) 90
    || leb 97 (code c) && leb (code c) 122
    || code c == 95

-- Whether `eq \S` matches here.
begins_eq : String → Bool
unfolding is_space
begins_eq (String.◌∷◌ a (String.◌∷◌ b (String.◌∷◌ c (String.◌∷◌ d s)))) =
    code a == 101 && code b == 113 && code c == 32 && not (is_space d)
begins_eq _ = false

-- Where the substitution stands: behind a character that is part of a word or not, within "eq ", or
-- within the word after it.
pub data Scan : Type 0 where
  between : Bool → Scan
  skipping : ℕ → Scan
  reading : String → Scan

scan_ios : Scan → String → String
unfolding begins_eq is_word_char is_space alias
scan_ios (reading word) String.[] = alias word
scan_ios mode String.[] = ""
scan_ios (between word) (String.◌∷◌ c s) = elim (not word && begins_eq (String.◌∷◌ c s)) [
  | true ↦ "eq " +s scan_ios (skipping 1) s
  | false ↦ String.◌∷◌ c (scan_ios (between (is_word_char c)) s)
]
scan_ios (skipping zero) (String.◌∷◌ c s) = scan_ios (reading "") s
scan_ios (skipping (suc n)) (String.◌∷◌ c s) = scan_ios (skipping n) s
scan_ios (reading word) (String.◌∷◌ c s) = elim (is_space c) [
  | true ↦ alias word +s String.◌∷◌ c (scan_ios (between false) s)
  | false ↦ scan_ios (reading (word +s String.◌∷◌ c String.[])) s
]

-- `re.sub(r'\beq (\S+)', …, body)`
unfoldable pub canonical_ios : String → String
unfolding scan_ios
canonical_ios body = scan_ios (between false) body

canonical_ios_example :
    canonical_ios "permit tcp any eq www any eq 8080" ≡ "permit tcp any eq 80 any eq 8080"
unfolding canonical_ios
canonical_ios_example = refl

-- `cidr(actual) == cidr(value)`
unfoldable pub same_cidr : String → String → Result Bool
same_cidr actual value = do a ← cidr (some (str actual)); b ← cidr (some (str value)); ok (a == b)

-- `equal(key, value)` with the value found: addresses are compared as networks.
unfoldable pub value_equal : String → String → Option String → Result Bool
unfolding same_cidr
value_equal key value none = ok false
value_equal key value (some actual) =
    if (key == "src-address" || key == "dst-address") && actual != ""
    then same_cidr actual value
    else ok (actual == value)

unfoldable pub field_equal : List (String × String) → String × String → Result Bool
unfolding lookup value_equal
field_equal fields (key, value) = value_equal key value (lookup key fields)

-- `all(equal(k, v) for …)`, which stops at the first difference
unfoldable pub all_equal : List (String × String) → List (String × String) → Result Bool
unfolding field_equal
all_equal fields [] = ok true
all_equal fields (expected ∷ rest) = do
  same ← field_equal fields expected
  elim same [ false ↦ ok false | true ↦ all_equal fields rest ]

-- Exactly one rule has the tag, it is enabled and has the fields.
unfoldable pub rule_outcome : List (String × String) → List FilterRule → Result Bool
unfolding all_equal
rule_outcome fields (rule ∷ []) = if rule.disabled then ok false else all_equal rule.fields fields
rule_outcome fields _ = ok false

-- The items of a plan are of the kind of its platform.
unfoldable pub outcome : Snapshot → Item → Expected → Result Bool
unfolding rule_outcome get_entries canonical_ios
outcome after item (expected_rule fields) =
    rule_outcome fields (filter (λ (r : FilterRule). r.comment == item.tag) after.rules)
outcome after item (expected_entry acl sequence body) = ok (
    any (λ (r : Entry). r.sequence == sequence && canonical_ios r.body == canonical_ios body)
      (get_entries acl after.acls))

unfoldable pub outcomes_of : Snapshot → List Item → Result (List Bool)
unfolding outcome
outcomes_of after [] = ok []
outcomes_of after (item ∷ items) = do
  matched ← outcome after item item.expected
  rest ← outcomes_of after items
  ok (matched ∷ rest)

-- `a == b` of dictionaries
same_fields : List (String × String) → List (String × String) → Bool
unfolding lookup
same_fields a b = length a == length b && all (λ (f : String × String). lookup f.0 b == some f.1) a

all_same : List FilterRule → List FilterRule → Bool
unfolding same_fields
all_same [] [] = true
all_same (a ∷ as') (b ∷ bs) = same_fields a.fields b.fields && all_same as' bs
all_same _ _ = false

drop : ℕ → List FilterRule → List FilterRule
drop zero rules = rules
drop (suc n) [] = []
drop (suc n) (rule ∷ rules) = drop n rules

take : ℕ → List FilterRule → List FilterRule
take zero rules = []
take (suc n) [] = []
take (suc n) (rule ∷ rules) = rule ∷ take n rules

abbrev pub comments : List FilterRule → List String
comments rules = map (λ (r : FilterRule). r.comment) rules

abbrev pub first_tags : List Item → List String
first_tags items = map (λ (i : Item). i.tag) (reversed (filter (at_position first) items))

abbrev pub last_tags : List Item → List String
last_tags items = map (λ (i : Item). i.tag) (filter (at_position last) items)

-- The order of the rules, and that the old ones are as they were.
unfoldable pub rules_kept : List Item → List FilterRule → List FilterRule → Bool
unfolding at_position drop take all_same
rules_kept items before after =
    comments after == first_tags items ++ comments before ++ last_tags items
    && all_same (take (length before) (drop (length (first_tags items)) after)) before

total : Acls → ℕ
total [] = 0
total ((acl, entries) ∷ rest) = length entries + total rest

-- The lists that the plan creates.
creations : List Item → List String
creations [] = []
creations (item ∷ items) = elim item.rule.place [
  | rule_place chain position ↦ creations items
  | entry_place acl sequence create_acl ↦ elim create_acl [
    | true ↦ acl ∷ creations items
    | false ↦ creations items
  ]
]

-- `set(a) == set(b)`
same_set : List String → List String → Bool
same_set a b = all (λ x. contains x b) a && all (λ x. contains x a) b

entry_kept : Acls → String → Entry → Bool
unfolding get_entries
entry_kept after acl entry =
    any (λ (r : Entry). r.sequence == entry.sequence && r.body == entry.body)
      (get_entries acl after)

unfoldable pub entries_kept : Acls → Acls → Bool
unfolding entry_kept
entries_kept after [] = true
entries_kept after ((acl, entries) ∷ rest) =
    all (entry_kept after acl) entries && entries_kept after rest

unfoldable pub lists_kept : List Item → Snapshot → Snapshot → Bool
unfolding total creations same_set entries_kept
lists_kept items before after =
    after.bindings == before.bindings
    && total after.acls == total before.acls + length items
    && after.unsupported_acls == before.unsupported_acls
    && same_set after.acl_names (before.acl_names ++ creations items)
    && entries_kept after.acls before.acls

unfoldable pub rest_kept : Platform → List Item → Snapshot → Snapshot → Bool
unfolding rules_kept lists_kept
rest_kept mikrotik items before after = rules_kept items before.rules after.rules
rest_kept cisco items before after = lists_kept items before after

unfoldable pub verify : Plan → Snapshot → Result (Bool × List Bool)
unfolding outcomes_of rest_kept
verify plan after = do
  outcomes ← outcomes_of after plan.items
  ok (rest_kept plan.platform plan.items plan.baseline after && all (λ b. b) outcomes, outcomes)
