-- ===== src/Firewall/Compile/Lockout.antt =====
-- Which items of a plan of `compile_plan` may cut the management connection, and for whom.
use mathlib.Core.Path.{subst}
use narsika.Base.{
  ℕ, suc, ◌≤◌, String, Bool, true, false, ◌||◌, some, List, [], ◌∷◌, any, All, ◌==◌, ok, ◌≡◌, ◌≢◌,
  sym, ap, ◌∙◌, arith, Returns-ok, bind-eq-ok,
}
use narsika.Base.Json.{Json}
use narsika.Ipv4.{parse_address}
use narsika.Models.{Device, Role, operator, role_eq}
use narsika.Firewall.Words.{custom, service_eq, Risk, high, lockout, rank, risk_eq}
use narsika.Firewall.Change.{Place, rule_place, entry_place, Change}
use narsika.Firewall.Normalize.Validity.{IsChange}
use narsika.Firewall.Snapshot.{Snapshot, Item, Plan}
use narsika.Firewall.Risk.{assess, max_risk}
use narsika.Firewall.Risk.Packets.{Packet, Management, blocks, HasPort, assess-lockout}
use narsika.Firewall.Commands.{make_item}
use narsika.Firewall.Plan.{
  Progress, place_change, compile_rows, early_lockout, top_risk, needs_admin,
}
use narsika.Firewall.Compile.{compile_plan, assemble}
use narsika.Firewall.Compile.Steps.{at_start, compile_plan-IsCompiled}

abbrev pub creates : Place → Bool
creates (rule_place chain position) = false
creates (entry_place acl sequence create_acl) = create_acl

-- The risk of an item comes from `assess`, or from the rule for a new access list.
pub record IsRated (device : Device) (source : ℕ) (item : Item) : Type 0 where
  pub has_port : HasPort item.rule.protocol item.rule.port
  pub assessed : Risk
  pub from : assess device.ssh_port source (parse_address device.ip_address) item.rule ≡ ok assessed
  pub risk : creates item.rule.place ≡ false → item.risk ≡ assessed

-- A packet of the management connection that the item blocks, although its list is in use.
pub record Cuts (device : Device) (source address : ℕ) (item : Item) : Type 0 where
  pub old : creates item.rule.place ≡ false
  pub packet : Packet
  pub management : Management source address device.ssh_port packet
  pub blocked : blocks item.rule packet ≡ true

place_change-risk :
    (ssh_port : ℕ) (state : Snapshot) (progress after : Progress) (row : Change) (place : Place)
    (assessed risk : Risk)
    → place_change ssh_port state progress row place assessed ≡ ok (risk, after)
    → creates place ≡ false
    → risk ≡ assessed
unfolding place_change
place_change-risk ssh_port state progress after row place assessed risk h old = ground arith

module _ (tag : ℕ → String) (device : Device) (state : Snapshot) (source : ℕ) where
  compile_rows-IsRated :
      (index : ℕ) (progress : Progress) (rows : List Change) {items : List Item}
      → All (IsChange device.platform) rows
      → compile_rows tag device state source index progress rows ≡ ok items
      → All (IsRated device source) items
  unfolding compile_rows make_item
  compile_rows-IsRated index progress [] valid h =
      Returns-ok (All (IsRated device source)) (ok []) tt h
  compile_rows-IsRated index progress (row ∷ rows) valid h =
      let (assessed, from, h₁) =
        bind-eq-ok (assess device.ssh_port source (parse_address device.ip_address) row) _ h in
      let (placed, put, h₂) =
        bind-eq-ok (place_change device.ssh_port state progress row row.place assessed) _ h₁ in
      let (items, compiled, h₃) =
        bind-eq-ok (compile_rows tag device state source (suc index) placed.1 rows) _ h₂ in
      Returns-ok (All (IsRated device source)) (ok _)
        (
          rated row row.place assessed placed.0 index valid.0.has_port from (
              place_change-risk device.ssh_port state progress placed.1 row row.place assessed
                placed.0 put),
          compile_rows-IsRated (suc index) placed.1 rows valid.1 compiled,
        )
        h₃
    where
      rated :
          (row : Change) (place : Place) (assessed risk : Risk) (index : ℕ)
          → HasPort row.protocol row.port
          → assess device.ssh_port source (parse_address device.ip_address) row ≡ ok assessed
          → (creates row.place ≡ false → risk ≡ assessed)
          → IsRated device source (make_item index (tag index) row place risk)
      rated row (rule_place chain position) assessed risk index has from same = record {
        has_port = has;
        assessed = assessed;
        from = from;
        risk = same;
      }
      rated row (entry_place acl sequence create_acl) assessed risk index has from same = record {
        has_port = has;
        assessed = assessed;
        from = from;
        risk = same;
      }

-- Blocking the management connection is rated as a lockout.
Cuts-lockout :
    (device : Device) (source address : ℕ) (item : Item)
    → parse_address device.ip_address ≡ some address
    → IsRated device source item
    → Cuts device source address item
    → item.risk ≡ lockout
Cuts-lockout device source address item parsed rated cut =
    rated.risk cut.old
    ∙ (assess-lockout device.ssh_port source address item.rule rated.has_port
          (ap (λ a. assess device.ssh_port source a item.rule) (sym parsed) ∙ rated.from)).1
        (cut.packet, cut.management, cut.blocked)

-- `items[:-1]`
abbrev pub but_last : List Item → List Item
but_last [] = []
but_last (item ∷ []) = []
but_last (item ∷ other ∷ rest) = item ∷ but_last (other ∷ rest)

early_lockout-but_last :
    (items : List Item)
    → early_lockout items ≡ false
    → All (λ (i : Item). i.risk ≢ lockout) (but_last items)
unfolding early_lockout
early_lockout-but_last [] h = tt
early_lockout-but_last (item ∷ []) h = tt
early_lockout-but_last (item ∷ other ∷ rest) h =
    ground (arith, early_lockout-but_last (other ∷ rest))

All-but_last : (P : Item → Type 0) (items : List Item) → All P items → All P (but_last items)
All-but_last P [] h = tt
All-but_last P (item ∷ []) h = tt
All-but_last P (item ∷ other ∷ rest) h = (h.0, All-but_last P (other ∷ rest) h.1)

All-zip :
    (P Q R : Item → Type 0) (items : List Item)
    → ((i : Item) → P i → Q i → R i)
    → All P items
    → All Q items
    → All R items
All-zip P Q R [] f hp hq = tt
All-zip P Q R (item ∷ items) f hp hq = (f item hp.0 hq.0, All-zip P Q R items f hp.1 hq.1)

-- A risk that an operator may review.
abbrev pub IsModest : Item → Type 0
IsModest item = (rank item.risk ≤ 1) × (item.rule.service ≢ custom)

IsModest-lockout : (item : Item) → IsModest item → item.risk ≢ lockout
IsModest-lockout item h = ground arith

max_risk-le : (a b : Risk) → (rank a ≤ rank (max_risk a b)) × (rank b ≤ rank (max_risk a b))
unfolding max_risk
max_risk-le a b = ground arith

top_risk-le :
    (n : ℕ) (items : List Item)
    → rank (top_risk items) ≤ n
    → All (λ (i : Item). rank i.risk ≤ n) items
unfolding top_risk
top_risk-le n [] h = tt
top_risk-le n (item ∷ items) h =
    let (here, there) = max_risk-le item.risk (top_risk items) in
    (omega (arith, here, h), top_risk-le n items (omega (arith, there, h)))

none_custom :
    (items : List Item)
    → any (λ (i : Item). i.rule.service == custom) items ≡ false
    → All (λ (i : Item). i.rule.service ≢ custom) items
none_custom [] h = tt
none_custom (item ∷ items) h =
    ground (arith, none_custom items, service_eq.same_iff item.rule.service custom)

needs_admin-IsModest :
    (items : List Item)
    → needs_admin (top_risk items) items ≡ false
    → (rank (top_risk items) ≤ 1) × All IsModest items
unfolding needs_admin
needs_admin-IsModest items h =
    let (top, rest) =
      split (top_risk items) (any (λ (i : Item). i.rule.service == custom) items) h in
    (
      top,
      All-zip (λ i. rank i.risk ≤ 1) (λ i. i.rule.service ≢ custom) IsModest items
          (λ i modest named. (modest, named)) (top_risk-le 1 items top) (none_custom items rest),
    )
  where
    split :
        (risk : Risk) (b : Bool)
        → risk == high || risk == lockout || b ≡ false
        → (rank risk ≤ 1) × (b ≡ false)
    split risk b h = ground arith

module _ (sha256 : String → String) (tag : ℕ → String) (device : Device) (state : Snapshot)
    (value : Json) (address : ℕ) where
  -- In a plan that compile_plan returns for a device whose address reads as an address, no item
  -- but the last blocks a packet of the management connection (SSH from the confirmed source to
  -- the device, or its answers to any port), entries of new access lists excepted.
  pub compile_plan-lockout_last :
      (role : Role) {plan : Plan}
      → compile_plan sha256 tag value device state role ≡ ok plan
      → parse_address device.ip_address ≡ some address
      → All (λ i. ¬ Cuts device plan.source_ip address i) (but_last plan.items)
  unfolding assemble
  compile_plan-lockout_last role {plan} h parsed =
      let c = compile_plan-IsCompiled sha256 tag device state role value h in
      let rated =
        compile_rows-IsRated tag device state c.source 0 at_start c.rows c.request.each
          c.compiled in
      subst (λ (p : Plan). All (λ i. ¬ Cuts device p.source_ip address i) (but_last p.items))
        c.assembled
        (All-zip (IsRated device c.source) (λ i. i.risk ≢ lockout)
          (λ i. ¬ Cuts device c.source address i) (but_last c.items)
          (λ i r late cut. late (Cuts-lockout device c.source address i parsed r cut))
          (All-but_last (IsRated device c.source) c.items rated)
          (early_lockout-but_last c.items c.late))

  -- In a plan that compile_plan returns to an operator for a device whose address reads as an
  -- address, the risk of the plan and of every item is at most MEDIUM, no item is custom, and no
  -- item blocks a packet of the management connection, entries of new access lists excepted.
  pub compile_plan_operator :
      {plan : Plan}
      → compile_plan sha256 tag value device state operator ≡ ok plan
      → parse_address device.ip_address ≡ some address
      → (rank plan.risk ≤ 1)
        × All (λ i. IsModest i × ¬ Cuts device plan.source_ip address i) plan.items
  unfolding assemble
  compile_plan_operator {plan} h parsed =
      let c = compile_plan-IsCompiled sha256 tag device state operator value h in
      let rated =
        compile_rows-IsRated tag device state c.source 0 at_start c.rows c.request.each
          c.compiled in
      let (top, modest) = needs_admin-IsModest c.items c.allowed in
      subst
        (λ (p : Plan).
          (rank p.risk ≤ 1) × All (λ i. IsModest i × ¬ Cuts device p.source_ip address i) p.items)
        c.assembled
        (
          top,
          All-zip (IsRated device c.source) IsModest
              (λ i. IsModest i × ¬ Cuts device c.source address i) c.items
              (λ i r m. (
                m,
                λ cut. IsModest-lockout i m (Cuts-lockout device c.source address i parsed r cut),
              ))
              rated modest,
        )
