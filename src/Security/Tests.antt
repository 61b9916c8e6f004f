-- ===== src/Security/Tests.antt =====
-- A scan and an address within 192.168.0.0/16.
use narsika.Base.{ℕ, ◌≤◌, true, false, some, [], ◌∷◌, any, ok, ◌≡◌, refl, arith}
use narsika.Base.Json.{str}
use narsika.Ipv4.{Network, parse_address, in_network, is_multicast, is_unspecified}
use narsika.Ipv4.Masks.{IsCanonical}
use narsika.Security.Scope.{network, network_allowed, address, address_allowed}

abbrev home : Network
home = record { base = 3232235520; prefixlen = 16 }

home-IsCanonical : IsCanonical home
home-IsCanonical = record { short = omega arith; small = omega arith; first = refl }

abbrev lan : Network
lan = record { base = 3232258048; prefixlen = 24 }

lan_scan : network 1024 (home ∷ []) (some (str "192.168.88.0/24")) ≡ ok lan
unfolding network
lan_scan = refl

network_allowed_example :
    IsCanonical lan
    × (256 ≤ 1024)
    × ((n : ℕ) → in_network n lan ≡ true → any (in_network n) (home ∷ []) ≡ true)
network_allowed_example =
    network_allowed 1024 (home ∷ []) (some (str "192.168.88.0/24")) (home-IsCanonical, tt) lan_scan

router_address : address (home ∷ []) (some (str "192.168.88.1")) true ≡ ok "192.168.88.1"
unfolding address in_network
router_address = refl

address_allowed_example :
    (n : ℕ) × (parse_address "192.168.88.1" ≡ some n)
    × (any (in_network n) (home ∷ []) ≡ true)
    × (is_multicast n ≡ false)
    × (is_unspecified n ≡ false)
address_allowed_example = address_allowed (home ∷ []) (some (str "192.168.88.1")) router_address
