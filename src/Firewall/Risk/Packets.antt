-- ===== src/Firewall/Risk/Packets.antt =====
-- What a change does to packets, apart from the code's own test for a lockout: a specification of
-- the risk in `compile_plan` of app/services/firewall.py.
use narsika.Base.{
  ℕ, Bool, true, false, ◌&&◌, ◌||◌, Option, none, some, ◌==◌, nat_eq, option_eq, beq_refl, ok, ◌≡◌,
  ◌⊎◌, ◌↔◌, inl, inr, refl, sym, ◌∙◌, arith, Bool-cases,
}
use narsika.Ipv4.{in_network}
use narsika.Firewall.Words.{
  Protocol, tcp, udp, icmp, ip, protocol_eq, block, action_eq, Risk, lockout, input, forward,
  output,
}
use narsika.Firewall.Change.{Selector, anywhere, subnet, Place, rule_place, entry_place, Change}
use narsika.Firewall.Risk.{
  selects, selects_both, sees_inbound, sees_outbound, cuts, rate, base_risk, max_risk, assess,
}

-- A packet on its way to the device or from it.
pub record Packet : Type 0 where
  pub source : ℕ
  pub destination : ℕ
  pub protocol : Protocol
  pub port : ℕ
  pub to_device : Bool

abbrev pub covers : Selector → ℕ → Bool
covers anywhere address = true
covers (subnet network) address = in_network address network

-- A rule without a port matches every port.
abbrev pub port_fits : Option ℕ → ℕ → Bool
port_fits none port = true
port_fits (some p) port = p == port

-- Whether a rule at this place is on the path of the packet. A forward rule, and a Cisco entry,
-- which may be bound anywhere, is taken to be on both paths.
abbrev pub on_path : Place → Bool → Bool
on_path (rule_place input position) to_device = to_device
on_path (rule_place output position) true = false
on_path (rule_place output position) false = true
on_path (rule_place forward position) to_device = true
on_path (entry_place acl sequence create_acl) to_device = true

unfoldable pub blocks : Change → Packet → Bool
blocks row packet =
    row.action == block
    && (covers row.source packet.source && covers row.destination packet.destination)
    && ((row.protocol == ip || row.protocol == packet.protocol) && port_fits row.port packet.port)
    && on_path row.place packet.to_device

-- The management connection: SSH to the device, and its answers to a port of the client's choice.
pub data Management (source address ssh_port : ℕ) : Packet → Type 0 where
  request : Management source address ssh_port (record {
    source = source;
    destination = address;
    protocol = tcp;
    port = ssh_port;
    to_device = true;
  })
  answer :
      (port : ℕ)
      → Management source address ssh_port (record {
        source = address;
        destination = source;
        protocol = tcp;
        port = port;
        to_device = false;
      })

-- A port is given for TCP and UDP only, and there always.
abbrev pub HasPort : Protocol → Option ℕ → Type 0
HasPort tcp port = (p : ℕ) × (port ≡ some p)
HasPort udp port = (p : ℕ) × (port ≡ some p)
HasPort icmp port = port ≡ none
HasPort ip port = port ≡ none

selects-covers : (s : Selector) (address : ℕ) → selects s (some address) ≡ ok (covers s address)
unfolding selects
selects-covers anywhere address = refl
selects-covers (subnet network) address = refl

selects_both-covers :
    (a b : Selector) (x y : ℕ) → selects_both a (some x) b (some y) ≡ ok (covers a x && covers b y)
unfolding selects_both
selects_both-covers a b x y =
    rw (selects-covers a x)
      (elim (Bool-cases (covers a x)) [ inl e ↦ rw e (selects-covers b y) | inr e ↦ rw e refl ])

pub assess-rate :
    (ssh_port source address : ℕ) (row : Change)
    → assess ssh_port source (some address) row
      ≡ ok (
          rate ssh_port row
            (covers row.source source && covers row.destination address)
            (covers row.destination source && covers row.source address))
unfolding assess
assess-rate ssh_port source address row =
    rw
      (
        selects_both-covers row.source row.destination source address,
        selects_both-covers row.destination row.source source address,
      )
      refl

rate-lockout :
    (ssh_port : ℕ) (row : Change) (inbound outbound : Bool)
    → (rate ssh_port row inbound outbound ≡ lockout) ↔ (cuts ssh_port row inbound outbound ≡ true)
unfolding rate base_risk max_risk
rate-lockout ssh_port row inbound outbound = ground arith

abbrev to_ssh : ℕ → ℕ → ℕ → Packet
to_ssh source address ssh_port = record {
  source = source;
  destination = address;
  protocol = tcp;
  port = ssh_port;
  to_device = true;
}

abbrev from_ssh : ℕ → ℕ → ℕ → Packet
from_ssh source address port = record {
  source = address;
  destination = source;
  protocol = tcp;
  port = port;
  to_device = false;
}

-- The two halves of the code's test, each as a test on packets.
inbound_test : ℕ → Change → Bool → Bool
inbound_test ssh_port row inbound =
    row.action == block
    && ((inbound && sees_inbound row.place)
        && (row.protocol == ip || row.protocol == tcp && row.port == some ssh_port))

outbound_test : Change → Bool → Bool
outbound_test row outbound =
    row.action == block
    && ((outbound && sees_outbound row.place) && (row.protocol == tcp || row.protocol == ip))

cuts-or :
    (ssh_port : ℕ) (row : Change) (inbound outbound : Bool)
    → cuts ssh_port row inbound outbound
      ≡ inbound_test ssh_port row inbound || outbound_test row outbound
unfolding cuts inbound_test outbound_test
cuts-or ssh_port row inbound outbound = ground arith

on_path-inbound : (place : Place) → on_path place true ≡ sees_inbound place
on_path-inbound place = ground arith

on_path-outbound : (place : Place) → on_path place false ≡ sees_outbound place
on_path-outbound place = ground arith

port-request :
    (protocol : Protocol) (port : Option ℕ) (ssh_port : ℕ)
    → HasPort protocol port
    → (protocol == ip || protocol == tcp) && port_fits port ssh_port
      ≡ protocol == ip || protocol == tcp && port == some ssh_port
port-request tcp port ssh_port (p, e) = rw e (ground arith)
port-request udp port ssh_port h = refl
port-request icmp port ssh_port h = refl
port-request ip port ssh_port h = rw h refl

blocks-request :
    (source address ssh_port : ℕ) (row : Change)
    → HasPort row.protocol row.port
    → blocks row (to_ssh source address ssh_port)
      ≡ inbound_test ssh_port row (covers row.source source && covers row.destination address)
unfolding blocks inbound_test
blocks-request source address ssh_port row h =
    rw (on_path-inbound row.place, port-request row.protocol row.port ssh_port h) (ground arith)

blocks-answer :
    (source address port : ℕ) (row : Change)
    → blocks row (from_ssh source address port) ≡ true
    → outbound_test row (covers row.destination source && covers row.source address) ≡ true
unfolding blocks outbound_test
blocks-answer source address port row h = let e = on_path-outbound row.place in ground arith

-- A port that the rule matches.
abbrev fitting_port : Option ℕ → ℕ
fitting_port none = 0
fitting_port (some p) = p

port_fits-fitting_port : (port : Option ℕ) → port_fits port (fitting_port port) ≡ true
port_fits-fitting_port none = refl
port_fits-fitting_port (some p) = beq_refl p

answer-blocks :
    (source address : ℕ) (row : Change)
    → outbound_test row (covers row.destination source && covers row.source address) ≡ true
    → blocks row (from_ssh source address (fitting_port row.port)) ≡ true
unfolding blocks outbound_test
answer-blocks source address row h =
    let e = on_path-outbound row.place in let fits = port_fits-fitting_port row.port in ground arith

or_true : (b c : Bool) → b || c ≡ true → (b ≡ true) ⊎ (c ≡ true)
or_true b c h = ground arith

true_or : (b c : Bool) → (b ≡ true) ⊎ (c ≡ true) → b || c ≡ true
true_or b c h = ground arith

-- For a change whose port is given exactly for TCP and UDP, the assessed risk is LOCKOUT if and
-- only if there is a packet of the management connection (SSH to the device, or an answer to any
-- port) that the change blocks. A forward rule and a Cisco entry count as being on the path in
-- both directions.
pub assess-lockout :
    (ssh_port source address : ℕ) (row : Change) {risk : Risk}
    → HasPort row.protocol row.port
    → assess ssh_port source (some address) row ≡ ok risk
    → (risk ≡ lockout)
      ↔ ((packet : Packet) × Management source address ssh_port packet × (blocks row packet ≡ true))
assess-lockout ssh_port source address row {risk} has assessed =
    let inbound = covers row.source source && covers row.destination address in
    let outbound = covers row.destination source && covers row.source address in
    let rated = ok_inj (sym (assess-rate ssh_port source address row) ∙ assessed) in
    let iff = rate-lockout ssh_port row inbound outbound in
    let split = cuts-or ssh_port row inbound outbound in
    let at_request = blocks-request source address ssh_port row has in
    (
      λ e.
          elim (or_true (inbound_test ssh_port row inbound) (outbound_test row outbound)
            (sym split ∙ iff.0 (rated ∙ e))) [
              | inl h ↦ (to_ssh source address ssh_port, request, at_request ∙ h)
              | inr h ↦ (
                from_ssh source address (fitting_port row.port),
                answer _,
                answer-blocks source address row h,
              )
            ],
      λ (packet, management, h).
          sym rated
          ∙ iff.1 (
              split
              ∙ true_or (inbound_test ssh_port row inbound) (outbound_test row outbound)
                  (go packet management h)),
    )
  where
    ok_inj : {a b : Risk} → ok a ≡ ok b → a ≡ b
    ok_inj same = cc

    go :
        (packet : Packet)
        → Management source address ssh_port packet
        → blocks row packet ≡ true
        → (inbound_test ssh_port row (covers row.source source && covers row.destination address)
            ≡ true)
          ⊎ (outbound_test row (covers row.destination source && covers row.source address) ≡ true)
    go packet request h = inl (sym (blocks-request source address ssh_port row has) ∙ h)
    go packet (answer port) h = inr (blocks-answer source address port row h)
