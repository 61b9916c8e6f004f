-- ===== src/Firewall/Change.antt =====
-- `normalize` of app/services/firewall.py with `cidr` and `contains`: the request for a review as a
-- list of changes. The texts of networks, which are in the form that `str` prints, are kept as
-- networks.
use mathlib.Core.Path.{◌≡◌, ap}
use mathlib.Core.Logic.{◌↔◌}
use narsika.Base.{
  ℕ, String, Bool, true, false, ◌&&◌, Option, arith, HasEq, ◌==◌, nat_eq, text_eq, bool_eq,
  option_eq,
}
use narsika.Ipv4.{Network}
use narsika.Models.{platform_eq}
use narsika.Firewall.Words.{
  Service, service_eq, Protocol, protocol_eq, Action, action_eq, Chain, chain_eq, Position,
  position_eq,
}

-- "any", or a network
pub data Selector : Type 0 where
  anywhere : Selector
  subnet : Network → Selector

abbrev network_beq : Network → Network → Bool
network_beq a b = a.base == b.base && a.prefixlen == b.prefixlen

abbrev selector_beq : Selector → Selector → Bool
selector_beq anywhere anywhere = true
selector_beq (subnet a) (subnet b) = network_beq a b
selector_beq _ _ = false

pub selector_beq_iff : (a b : Selector) → (selector_beq a b ≡ true) ↔ (a ≡ b)
selector_beq_iff a b = ground arith

instance abbrev pub selector_eq : HasEq Selector
selector_eq = record { same = selector_beq; same_iff = selector_beq_iff }

-- The keys that depend on the platform: RouterOS rules and Cisco entries.
pub data Place : Type 0 where
  rule_place : Chain → Position → Place
  entry_place : (acl : String) (sequence : ℕ) (create_acl : Bool) → Place

abbrev place_beq : Place → Place → Bool
place_beq (rule_place c p) (rule_place d q) = c == d && p == q
place_beq (entry_place a s c) (entry_place b t d) = a == b && s == t && c == d
place_beq _ _ = false

pub place_beq_iff : (a b : Place) → (place_beq a b ≡ true) ↔ (a ≡ b)
place_beq_iff (rule_place c p) (rule_place d q) =
    ground (arith, chain_eq.same_iff c d, position_eq.same_iff p q)
place_beq_iff (entry_place a s c) (entry_place b t d) =
    ground (arith, text_eq.same_iff a b, bool_eq.same_iff c d)
place_beq_iff a b = ground arith

instance abbrev pub place_eq : HasEq Place
place_eq = record { same = place_beq; same_iff = place_beq_iff }

pub record Change : Type 0 where
  pub service : Service
  pub protocol : Protocol
  pub action : Action
  pub port : Option ℕ
  pub source : Selector
  pub destination : Selector
  pub place : Place

-- The two halves of the comparison.
abbrev same_service : Change → Change → Bool
same_service a b =
    a.service == b.service && a.protocol == b.protocol && a.action == b.action && a.port == b.port

abbrev same_target : Change → Change → Bool
same_target a b = a.source == b.source && a.destination == b.destination && a.place == b.place

abbrev change_beq : Change → Change → Bool
change_beq a b = same_service a b && same_target a b

same_service_iff :
    (a b : Change)
    → (same_service a b ≡ true) ↔ (
        (a.service ≡ b.service)
        × (a.protocol ≡ b.protocol)
        × (a.action ≡ b.action)
        × (a.port ≡ b.port))
same_service_iff a b = ground (
  arith,
  service_eq.same_iff a.service b.service,
  protocol_eq.same_iff a.protocol b.protocol,
  action_eq.same_iff a.action b.action,
  (option_eq {A = ℕ}).same_iff a.port b.port,
)

same_target_iff :
    (a b : Change)
    → (same_target a b ≡ true)
      ↔ ((a.source ≡ b.source) × (a.destination ≡ b.destination) × (a.place ≡ b.place))
same_target_iff a b = ground (
  arith,
  selector_eq.same_iff a.source b.source,
  selector_eq.same_iff a.destination b.destination,
  place_eq.same_iff a.place b.place,
)

and_split : (b c : Bool) → b && c ≡ true → (b ≡ true) × (c ≡ true)
and_split b c h = ground arith

and_join : (b c : Bool) → b ≡ true → c ≡ true → b && c ≡ true
and_join b c hb hc = ground arith

change_ext :
    (a b : Change)
    → (a.service ≡ b.service)
      × (a.protocol ≡ b.protocol)
      × (a.action ≡ b.action)
      × (a.port ≡ b.port)
    → (a.source ≡ b.source) × (a.destination ≡ b.destination) × (a.place ≡ b.place)
    → a ≡ b
change_ext a b (e1, e2, e3, e4) (e5, e6, e7) = λ i. record {
  service = e1 i;
  protocol = e2 i;
  action = e3 i;
  port = e4 i;
  source = e5 i;
  destination = e6 i;
  place = e7 i;
}

pub change_beq_iff : (a b : Change) → (change_beq a b ≡ true) ↔ (a ≡ b)
change_beq_iff a b = (
  λ h.
      let (hs, ht) = and_split (same_service a b) (same_target a b) h in
      change_ext a b ((same_service_iff a b).0 hs) ((same_target_iff a b).0 ht),
  λ e.
      and_join (same_service a b) (same_target a b)
        ((same_service_iff a b).1 (
          ap (λ (c : Change). c.service) e,
          ap (λ (c : Change). c.protocol) e,
          ap (λ (c : Change). c.action) e,
          ap (λ (c : Change). c.port) e,
        ))
        ((same_target_iff a b).1 (
          ap (λ (c : Change). c.source) e,
          ap (λ (c : Change). c.destination) e,
          ap (λ (c : Change). c.place) e,
        )),
)

instance abbrev pub change_eq : HasEq Change
change_eq = record { same = change_beq; same_iff = change_beq_iff }
