-- ===== src/Ipv4.antt =====
-- Python's `ipaddress` as the program uses it: IPv4 addresses are numbers below 2^32, and a network
-- is its first address and the length of its prefix.
pub mod Roundtrip
pub mod Masks
use Prim.Native.Char.{Char, code}
use narsika.Base.{
  ℕ, zero, suc, ◌+◌, ◌-◌, ◌*◌, ◌/◌, ◌%◌, ◌^◌, String, Bool, true, false, not, ◌&&◌, Option, none,
  some, List, [], ◌∷◌, ltb, leb, eqb, ◌==◌, nat_eq, text_eq, len, show, read_nat, ◌+s◌,
  if◌then◌else◌,
}

-- `s.split(c)`
unfoldable pub split_on : ℕ → String → List String
split_on sep String.[] = String.[] ∷ []
split_on sep (String.◌∷◌ c s) = elim (split_on sep s) [
  | [] ↦ []
  | word ∷ words ↦ if code c == sep then String.[] ∷ word ∷ words else (String.◌∷◌ c word) ∷ words
]

-- A text other than "0" that begins with the digit 0.
leading_zero : String → Bool
leading_zero String.[] = false
leading_zero (String.◌∷◌ c String.[]) = false
leading_zero (String.◌∷◌ c (String.◌∷◌ d s)) = code c == 48

-- `_parse_octet`: ASCII digits, at most three, no leading zero, at most 255
unfoldable pub parse_octet : String → Option ℕ
unfolding leading_zero read_nat len
parse_octet s =
    if leb (len s) 3 && not (leading_zero s)
    then elim (read_nat s) [ none ↦ none | some n ↦ if leb n 255 then some n else none ]
    else none

join_octets : Option ℕ → Option ℕ → Option ℕ → Option ℕ → Option ℕ
join_octets (some a) (some b) (some c) (some d) = some (((a * 256 + b) * 256 + c) * 256 + d)
join_octets _ _ _ _ = none

four_octets : List String → Option ℕ
unfolding join_octets parse_octet
four_octets (a ∷ b ∷ c ∷ d ∷ []) =
    join_octets (parse_octet a) (parse_octet b) (parse_octet c) (parse_octet d)
four_octets _ = none

-- `int(IPv4Address(s))`
unfoldable pub parse_address : String → Option ℕ
unfolding four_octets split_on
parse_address s = four_octets (split_on b'.' s)

-- `str(IPv4Address(n))`
unfoldable pub show_address : ℕ → String
unfolding show
show_address n =
    show (n / 16777216 % 256)
    +s ("."
        +s (show (n / 65536 % 256) +s ("." +s (show (n / 256 % 256) +s ("." +s show (n % 256))))))

pub record Network : Type 0 where
  pub base : ℕ
  pub prefixlen : ℕ

-- The number of addresses of a network with this prefix, and the netmask.
abbrev pub block : ℕ → ℕ
block prefixlen = 2 ^ (32 - prefixlen)

abbrev pub netmask : ℕ → ℕ
netmask prefixlen = 4294967296 - block prefixlen

-- `n & netmask`: the first address of the block that holds `n`
abbrev pub mask : ℕ → ℕ → ℕ
mask prefixlen n = n / block prefixlen * block prefixlen

-- `_prefix_from_ip_int`: the prefix, at most `p` long, that has this netmask
unfoldable pub find_prefix : ℕ → ℕ → Option ℕ
find_prefix zero n = if n == netmask 0 then some 0 else none
find_prefix (suc p) n =
    let shorter = find_prefix p n in if n == netmask (suc p) then some (suc p) else shorter

unfoldable pub or_else : Option ℕ → Option ℕ → Option ℕ
or_else (some n) other = some n
or_else none other = other

-- `_prefix_from_ip_string`: a netmask, or else a hostmask
parse_mask : Option ℕ → Option ℕ
unfolding or_else
parse_mask none = none
parse_mask (some n) = or_else (find_prefix 32 n) (find_prefix 32 (4294967295 - n))

-- `_make_netmask`: the length of the prefix, or the mask in dotted form
unfoldable pub parse_prefix : String → Option ℕ
unfolding read_nat parse_mask parse_address
parse_prefix s = elim (read_nat s) [
  | none ↦ parse_mask (parse_address s)
  | some n ↦ if leb n 32 then some n else parse_mask (parse_address s)
]

make_network : Option ℕ → Option ℕ → Option Network
make_network (some n) (some p) = some (record { base = mask p n; prefixlen = p })
make_network _ _ = none

network_of : List String → Option Network
unfolding make_network parse_prefix
network_of (addr ∷ []) = make_network (parse_address addr) (some 32)
network_of (addr ∷ prefix ∷ []) = make_network (parse_address addr) (parse_prefix prefix)
network_of _ = none

-- `IPv4Network(s, strict=False)`
unfoldable pub parse_network : String → Option Network
unfolding network_of split_on
parse_network s = network_of (split_on b'/' s)

-- `str(network)`
unfoldable pub show_network : Network → String
unfolding show_address
show_network n = show_address n.base +s ("/" +s show n.prefixlen)

-- `address in network`
unfoldable pub in_network : ℕ → Network → Bool
in_network n network = mask network.prefixlen n == network.base

-- `is_multicast`, 224.0.0.0/4, and `is_unspecified`
abbrev pub is_multicast : ℕ → Bool
is_multicast n = leb 3758096384 n && ltb n 4026531840

abbrev pub is_unspecified : ℕ → Bool
is_unspecified n = n == 0
