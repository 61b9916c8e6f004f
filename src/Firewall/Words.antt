-- ===== src/Firewall/Words.antt =====
-- The words of a firewall change in app/services/firewall.py, each set as an enumeration.
use mathlib.Core.Path.{◌≡◌}
use mathlib.Core.Logic.{◌↔◌}
use mathlib.Core.Bool.{Bool, true, false}
use mathlib.Core.Option.{Option, none, some}
use native.Mathlib.Omega.{arith}
use narsika.Base.{ℕ, HasEq, String}

-- The ids of `PRESETS`, and `custom`.
pub data Service : Type 0 where
  custom ssh https http dns snmp ping winbox telnet : Service

abbrev service_beq : Service → Service → Bool
service_beq custom custom = true
service_beq ssh ssh = true
service_beq https https = true
service_beq http http = true
service_beq dns dns = true
service_beq snmp snmp = true
service_beq ping ping = true
service_beq winbox winbox = true
service_beq telnet telnet = true
service_beq _ _ = false

pub service_beq_iff : (a b : Service) → (service_beq a b ≡ true) ↔ (a ≡ b)
service_beq_iff custom b = ground arith
service_beq_iff ssh b = ground arith
service_beq_iff https b = ground arith
service_beq_iff http b = ground arith
service_beq_iff dns b = ground arith
service_beq_iff snmp b = ground arith
service_beq_iff ping b = ground arith
service_beq_iff winbox b = ground arith
service_beq_iff a b = ground arith

instance abbrev pub service_eq : HasEq Service
service_eq = record { same = service_beq; same_iff = service_beq_iff }

abbrev pub service_text : Service → String
service_text custom = "custom"
service_text ssh = "ssh"
service_text https = "https"
service_text http = "http"
service_text dns = "dns"
service_text snmp = "snmp"
service_text ping = "ping"
service_text winbox = "winbox"
service_text telnet = "telnet"

pub data Protocol : Type 0 where
  tcp udp icmp ip : Protocol

abbrev protocol_beq : Protocol → Protocol → Bool
protocol_beq tcp tcp = true
protocol_beq udp udp = true
protocol_beq icmp icmp = true
protocol_beq ip ip = true
protocol_beq _ _ = false

pub protocol_beq_iff : (a b : Protocol) → (protocol_beq a b ≡ true) ↔ (a ≡ b)
protocol_beq_iff a b = ground arith

instance abbrev pub protocol_eq : HasEq Protocol
protocol_eq = record { same = protocol_beq; same_iff = protocol_beq_iff }

abbrev pub protocol_text : Protocol → String
protocol_text tcp = "tcp"
protocol_text udp = "udp"
protocol_text icmp = "icmp"
protocol_text ip = "ip"

abbrev pub protocol_upper : Protocol → String
protocol_upper tcp = "TCP"
protocol_upper udp = "UDP"
protocol_upper icmp = "ICMP"
protocol_upper ip = "IP"

-- `protocol` and `port` of a preset
abbrev pub preset_protocol : Service → Option Protocol
preset_protocol custom = none
preset_protocol ssh = some tcp
preset_protocol https = some tcp
preset_protocol http = some tcp
preset_protocol dns = some udp
preset_protocol snmp = some udp
preset_protocol ping = some icmp
preset_protocol winbox = some tcp
preset_protocol telnet = some tcp

abbrev pub preset_port : Service → Option ℕ
preset_port custom = none
preset_port ssh = some 22
preset_port https = some 443
preset_port http = some 80
preset_port dns = some 53
preset_port snmp = some 161
preset_port ping = none
preset_port winbox = some 8291
preset_port telnet = some 23

pub data Action : Type 0 where
  allow block : Action

abbrev action_beq : Action → Action → Bool
action_beq allow allow = true
action_beq block block = true
action_beq _ _ = false

pub action_beq_iff : (a b : Action) → (action_beq a b ≡ true) ↔ (a ≡ b)
action_beq_iff a b = ground arith

instance abbrev pub action_eq : HasEq Action
action_eq = record { same = action_beq; same_iff = action_beq_iff }

abbrev pub action_title : Action → String
action_title allow = "Allow"
action_title block = "Block"

pub data Chain : Type 0 where
  input forward output : Chain

abbrev chain_beq : Chain → Chain → Bool
chain_beq input input = true
chain_beq forward forward = true
chain_beq output output = true
chain_beq _ _ = false

pub chain_beq_iff : (a b : Chain) → (chain_beq a b ≡ true) ↔ (a ≡ b)
chain_beq_iff a b = ground arith

instance abbrev pub chain_eq : HasEq Chain
chain_eq = record { same = chain_beq; same_iff = chain_beq_iff }

abbrev pub chain_text : Chain → String
chain_text input = "input"
chain_text forward = "forward"
chain_text output = "output"

pub data Position : Type 0 where
  first last : Position

abbrev position_beq : Position → Position → Bool
position_beq first first = true
position_beq last last = true
position_beq _ _ = false

pub position_beq_iff : (a b : Position) → (position_beq a b ≡ true) ↔ (a ≡ b)
position_beq_iff a b = ground arith

instance abbrev pub position_eq : HasEq Position
position_eq = record { same = position_beq; same_iff = position_beq_iff }

pub data Risk : Type 0 where
  low medium high lockout : Risk

abbrev risk_beq : Risk → Risk → Bool
risk_beq low low = true
risk_beq medium medium = true
risk_beq high high = true
risk_beq lockout lockout = true
risk_beq _ _ = false

pub risk_beq_iff : (a b : Risk) → (risk_beq a b ≡ true) ↔ (a ≡ b)
risk_beq_iff a b = ground arith

instance abbrev pub risk_eq : HasEq Risk
risk_eq = record { same = risk_beq; same_iff = risk_beq_iff }

-- `RANK`
abbrev pub rank : Risk → ℕ
rank low = 0
rank medium = 1
rank high = 2
rank lockout = 3

abbrev pub risk_text : Risk → String
risk_text low = "LOW"
risk_text medium = "MEDIUM"
risk_text high = "HIGH"
risk_text lockout = "LOCKOUT"
