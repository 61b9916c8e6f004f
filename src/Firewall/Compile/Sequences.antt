-- ===== src/Firewall/Compile/Sequences.antt =====
-- The sequence numbers and access lists that a plan of `compile_plan` uses.
use mathlib.Core.Path.{subst}
use narsika.Base.{
  ℕ, suc, String, Bool, true, false, not, ◌||◌, List, [], ◌∷◌, ◌++◌, any, any-append, All, ◌==◌,
  nat_eq, text_eq, contains, ok, fail_if, ◌≡◌, refl, sym, ap, ◌∙◌, arith, Returns-ok, bind-eq-ok,
  fail_if-Returns,
}
use narsika.Base.Json.{Json}
use narsika.Ipv4.{parse_address}
use narsika.Models.{Device, Role}
use narsika.Firewall.Words.{Risk}
use narsika.Firewall.Change.{Place, rule_place, entry_place, Change}
use narsika.Firewall.Snapshot.{Snapshot, Entry, Item, Plan, get_entries, names}
use narsika.Firewall.Risk.{assess}
use narsika.Firewall.Commands.{make_item}
use narsika.Firewall.Plan.{
  Progress, place_change, choose_acl, is_taken, same_entry, compile_rows, remark_error,
  sequence_error,
}
use narsika.Firewall.Compile.{compile_plan, assemble}
use narsika.Firewall.Compile.Steps.{at_start, compile_plan-IsCompiled}

-- What the snapshot has to say of the place of an entry.
pub record IsFree (state : Snapshot) (acl : String) (sequence : ℕ) (create_acl : Bool)
    : Type 0 where
  pub unused : any (λ (x : Entry). x.sequence == sequence) (get_entries acl state.acls) ≡ false
  pub writable : contains acl state.unsupported_acls ≡ false
  pub fresh :
      create_acl ≡ true → contains acl state.acl_names || contains acl (names state.acls) ≡ false
  pub observed : create_acl ≡ false → contains acl (names state.acls) ≡ true

abbrev pub FreePlace : Snapshot → Place → Type 0
FreePlace state (rule_place chain position) = Unit
FreePlace state (entry_place acl sequence create_acl) = IsFree state acl sequence create_acl

abbrev pub is_apart : List (String × ℕ) → Place → Bool
is_apart occupied (rule_place chain position) = true
is_apart occupied (entry_place acl sequence create_acl) =
    not (any (same_entry (acl, sequence)) occupied)

-- The list and the sequence number of an entry, if it is one.
abbrev pub key : Place → List (String × ℕ)
key (rule_place chain position) = []
key (entry_place acl sequence create_acl) = (acl, sequence) ∷ []

-- No two entries have both the list and the sequence number in common.
abbrev pub Apart : List Item → Type 0
Apart [] = Unit
Apart (item ∷ items) =
    All (λ (other : Item). is_apart (key item.rule.place) other.rule.place ≡ true) items
    × Apart items

choose_acl-true :
    (state : Snapshot) (created after : List String) (acl : String)
    → choose_acl state created acl true ≡ ok after
    → contains acl state.acl_names || contains acl (names state.acls) ≡ false
unfolding choose_acl
choose_acl-true state created after acl h = ground arith

choose_acl-false :
    (state : Snapshot) (created after : List String) (acl : String)
    → choose_acl state created acl false ≡ ok after
    → contains acl (names state.acls) ≡ true
unfolding choose_acl
choose_acl-false state created after acl h = ground arith

record Placed (state : Snapshot) (progress after : Progress) (place : Place) : Type 0 where
  free : FreePlace state place
  apart : is_apart progress.occupied place ≡ true
  occupied : after.occupied ≡ key place ++ progress.occupied

or_false : (b c : Bool) → b || c ≡ false → (b ≡ false) × (c ≡ false)
or_false b c h = ground arith

place_change-Placed :
    (ssh_port : ℕ) (state : Snapshot) (progress after : Progress) (row : Change) (place : Place)
    (assessed risk : Risk)
    → place_change ssh_port state progress row place assessed ≡ ok (risk, after)
    → Placed state progress after place
unfolding place_change is_taken
place_change-Placed ssh_port state progress after row (rule_place chain position) assessed risk h =
    record { free = tt; apart = refl; occupied = cc }
place_change-Placed ssh_port state progress after row (entry_place acl sequence create_acl) assessed
      risk h =
    let (created, chosen, h₁) = bind-eq-ok (choose_acl state progress.created acl create_acl) _ h in
    let (_, writable, h₂) =
      bind-eq-ok (fail_if (contains acl state.unsupported_acls) remark_error) _ h₁ in
    let (_, untaken, h₃) =
      bind-eq-ok (fail_if (is_taken state progress.occupied acl sequence) sequence_error) _ h₂ in
    let (unused, apart) = or_false _ _ (
      Returns-ok _ _
        (fail_if-Returns (is_taken state progress.occupied acl sequence) sequence_error) untaken) in
    record {
      free = record {
        unused = unused;
        writable =
            Returns-ok _ _ (fail_if-Returns (contains acl state.unsupported_acls) remark_error)
              writable;
        fresh = λ e.
            choose_acl-true state progress.created created acl
              (ap (choose_acl state progress.created acl) (sym e) ∙ chosen);
        observed = λ e.
            choose_acl-false state progress.created created acl
              (ap (choose_acl state progress.created acl) (sym e) ∙ chosen);
      };
      apart = ap not apart;
      occupied =
          Returns-ok (λ (p : Risk × Progress). p.1.occupied ≡ (acl, sequence) ∷ progress.occupied)
            (ok _) refl h₃;
    }

-- What is apart from a longer list of keys is apart from its parts.
is_apart-append :
    (xs ys : List (String × ℕ)) (place : Place)
    → is_apart (xs ++ ys) place ≡ true
    → (is_apart xs place ≡ true) × (is_apart ys place ≡ true)
is_apart-append xs ys (rule_place chain position) h = (refl, refl)
is_apart-append xs ys (entry_place acl sequence create_acl) h =
    ground (arith, any-append (same_entry (acl, sequence)) xs ys)

All-map :
    (P Q : Item → Type 0) (items : List Item) → ((i : Item) → P i → Q i) → All P items → All Q items
All-map P Q [] f h = tt
All-map P Q (item ∷ items) f h = (f item h.0, All-map P Q items f h.1)

record Kept (state : Snapshot) (progress : Progress) (items : List Item) : Type 0 where
  free : All (λ (i : Item). FreePlace state i.rule.place) items
  later : All (λ (i : Item). is_apart progress.occupied i.rule.place ≡ true) items
  apart : Apart items

rule-make_item :
    (index : ℕ) (tag : String) (row : Change) (place : Place) (risk : Risk)
    → (make_item index tag row place risk).rule ≡ row
unfolding make_item
rule-make_item index tag row (rule_place chain position) risk = refl
rule-make_item index tag row (entry_place acl sequence create_acl) risk = refl

Kept-cons :
    (state : Snapshot) (progress after : Progress) (item : Item) (items : List Item)
    → Placed state progress after item.rule.place
    → Kept state after items
    → Kept state progress (item ∷ items)
Kept-cons state progress after item items placed kept =
    let split = λ (i : Item) (h : is_apart after.occupied i.rule.place ≡ true).
      is_apart-append (key item.rule.place) progress.occupied i.rule.place
        (ap (λ o. is_apart o i.rule.place) (sym placed.occupied) ∙ h) in
    record {
      free = (placed.free, kept.free);
      later = (placed.apart, All-map _ _ items (λ i h. (split i h).1) kept.later);
      apart = (
        All-map (λ i. is_apart after.occupied i.rule.place ≡ true)
            (λ i. is_apart (key item.rule.place) i.rule.place ≡ true) items (λ i h. (split i h).0)
            kept.later,
        kept.apart,
      );
    }

module _ (tag : ℕ → String) (device : Device) (state : Snapshot) (source : ℕ) where
  compile_rows-Kept :
      (index : ℕ) (progress : Progress) (rows : List Change) {items : List Item}
      → compile_rows tag device state source index progress rows ≡ ok items
      → Kept state progress items
  unfolding compile_rows
  compile_rows-Kept index progress [] h =
      Returns-ok (Kept state progress) (ok []) (record { free = tt; later = tt; apart = tt }) h
  compile_rows-Kept index progress (row ∷ rows) h =
      let (assessed, from, h₁) =
        bind-eq-ok (assess device.ssh_port source (parse_address device.ip_address) row) _ h in
      let (placed, put, h₂) =
        bind-eq-ok (place_change device.ssh_port state progress row row.place assessed) _ h₁ in
      let (items, compiled, h₃) =
        bind-eq-ok (compile_rows tag device state source (suc index) placed.1 rows) _ h₂ in
      let item = make_item index (tag index) row row.place placed.0 in
      Returns-ok (Kept state progress) (ok _)
        (Kept-cons state progress placed.1 item items
          (subst (λ (r : Change). Placed state progress placed.1 r.place)
            (sym (rule-make_item index (tag index) row row.place placed.0))
            (place_change-Placed device.ssh_port state progress placed.1 row row.place assessed
              placed.0 put))
          (compile_rows-Kept (suc index) placed.1 rows compiled))
        h₃

-- In a plan that compile_plan returns, no two Cisco entries have both the access list and the
-- sequence number in common; no sequence number is used in the snapshot's list; no list has hidden
-- remarks; a list to be created has no name that the snapshot knows, and any other list is in the
-- snapshot.
pub compile_plan-Apart :
    (sha256 : String → String) (tag : ℕ → String) (device : Device) (state : Snapshot)
    (value : Json) (role : Role) {plan : Plan}
    → compile_plan sha256 tag value device state role ≡ ok plan
    → All (λ (i : Item). FreePlace state i.rule.place) plan.items × Apart plan.items
unfolding assemble
compile_plan-Apart sha256 tag device state value role h =
    let c = compile_plan-IsCompiled sha256 tag device state role value h in
    let kept = compile_rows-Kept tag device state c.source 0 at_start c.rows c.compiled in
    subst (λ (p : Plan). All (λ (i : Item). FreePlace state i.rule.place) p.items × Apart p.items)
      c.assembled (kept.free, kept.apart)
