-- ===== src/Firewall/Risk.antt =====
-- The risk of one change in `compile_plan` of app/services/firewall.py, with `contains`.
pub mod Packets
use narsika.Base.{
  ℕ, String, Bool, true, false, not, ◌&&◌, ◌||◌, Option, none, some, leb, ◌==◌, ◌!=◌, nat_eq,
  option_eq, Result, ok, err, ◌>>=◌, if◌then◌else◌,
}
use narsika.Ipv4.{in_network}
use narsika.Firewall.Words.{
  Service, custom, ssh, service_eq, preset_port, Protocol, tcp, ip, protocol_eq, Action, block,
  action_eq, Chain, input, output, chain_eq, Risk, low, medium, high, lockout, rank,
}
use narsika.Firewall.Change.{
  Selector, anywhere, subnet, selector_eq, Place, rule_place, entry_place, Change,
}
use narsika.Firewall.Normalize.{internal_error}

-- `contains(network, address)`: an address that does not read raises, where a network is given.
unfoldable pub selects : Selector → Option ℕ → Result Bool
unfolding in_network
selects anywhere address = ok true
selects (subnet network) none = err internal_error
selects (subnet network) (some address) = ok (in_network address network)

-- `contains(a, x) and contains(b, y)`
unfoldable pub selects_both : Selector → Option ℕ → Selector → Option ℕ → Result Bool
unfolding selects
selects_both a x b y = selects a x >>= λ in_a. elim in_a [ false ↦ ok false | true ↦ selects b y ]

-- `chain != 'output'` and `chain != 'input'`, where Cisco entries have no chain.
abbrev pub sees_inbound : Place → Bool
sees_inbound (rule_place chain position) = chain != output
sees_inbound (entry_place acl sequence create_acl) = true

abbrev pub sees_outbound : Place → Bool
sees_outbound (rule_place chain position) = chain != input
sees_outbound (entry_place acl sequence create_acl) = true

-- `possible`: the change may cut the management connection.
unfoldable pub cuts : ℕ → Change → (inbound outbound : Bool) → Bool
cuts ssh_port row inbound outbound =
    row.action == block
    && ((inbound && sees_inbound row.place)
          && (row.protocol == ip || row.protocol == tcp && row.port == some ssh_port)
        || (outbound && sees_outbound row.place) && (row.protocol == tcp || row.protocol == ip))

-- The port of the preset, for SSH that of the device.
unfoldable pub expected_port : ℕ → Service → Option ℕ
expected_port ssh_port ssh = some ssh_port
expected_port ssh_port service = preset_port service

-- A preset with another port than its own.
unfoldable pub disguised : ℕ → Change → Bool
unfolding expected_port
disguised ssh_port row = row.service != custom && row.port != expected_port ssh_port row.service

-- `max(risks, key=RANK.get)` of two
unfoldable pub max_risk : Risk → Risk → Risk
max_risk a b = if leb (rank b) (rank a) then a else b

unfoldable pub base_risk : ℕ → Change → Bool → Bool → Risk
unfolding cuts
base_risk ssh_port row inbound outbound =
    if cuts ssh_port row inbound outbound
    then lockout
    else if row.action == block || row.source == anywhere
    then high
    else medium

unfoldable pub rate : ℕ → Change → Bool → Bool → Risk
unfolding base_risk disguised max_risk
rate ssh_port row inbound outbound =
    if disguised ssh_port row
    then max_risk (base_risk ssh_port row inbound outbound) high
    else base_risk ssh_port row inbound outbound

-- The risk before the rules for Cisco. `source` is the address of Narsika, `address` that of the
-- device.
unfoldable pub assess : ℕ → ℕ → Option ℕ → Change → Result Risk
unfolding selects_both rate
assess ssh_port source address row = do
  inbound ← selects_both row.source (some source) row.destination address
  outbound ← selects_both row.destination (some source) row.source address
  ok (rate ssh_port row inbound outbound)
