-- ===== src/Ipv4/Masks.antt =====
-- Networks as blocks of addresses.
use native.Mathlib.Omega.{arith}
use native.Mathlib.Nat.{two-pow-succ, mul-div_left, div-eq_of_lt-le}
use narsika.Base.{
  ℕ, zero, suc, ◌+◌, ◌-◌, ◌*◌, ◌/◌, ◌^◌, ◌≤◌, ◌<◌, String, ◌≡◌, ◌↔◌, true, Option, none, some, List,
  [], ◌∷◌, nat_eq, eqb_iff,
}
use narsika.Ipv4.{
  Network, block, mask, in_network, parse_octet, parse_address, four_octets, join_octets,
  parse_mask, find_prefix, or_else, parse_prefix, make_network, network_of, parse_network, split_on,
}

-- A network whose base is the first address of its block.
pub record IsCanonical (network : Network) : Type 0 where
  pub short : network.prefixlen ≤ 32
  pub small : network.base < 4294967296
  pub first : mask network.prefixlen network.base ≡ network.base

power_pos : (n : ℕ) → 0 < 2 ^ n
power_pos zero = omega arith
power_pos (suc n) = rw two-pow-succ (omega (arith, power_pos n))

mask-bounds : (p n : ℕ) → (mask p n ≤ n) × (n < mask p n + block p)
mask-bounds p n = let h = power_pos (32 - p) in grind arith

mask-mask : (p n : ℕ) → mask p (mask p n) ≡ mask p n
mask-mask p n = let h = power_pos (32 - p) in rw (mul-div_left (n / block p) h)

-- Between two multiples there is no third.
quotient_unique : (n k b : ℕ) → k * b ≤ n → n < k * b + b → n / b ≡ k
quotient_unique n k b low high = div-eq_of_lt-le b low (omega arith)

-- An address is in a network in canonical form if and only if it is one of the 2^(32 - prefix
-- length) addresses from the network's address on.
pub in_network_iff :
    (n : ℕ) (network : Network)
    → IsCanonical network
    → (in_network n network ≡ true)
      ↔ ((network.base ≤ n) × (n < network.base + block network.prefixlen))
unfolding in_network
in_network_iff n network h =
    let p = network.prefixlen in
    let (low, high) = mask-bounds p n in
    (
      λ inside. let e = (eqb_iff (mask p n) network.base).0 inside in (rw e at low, rw e at high),
      λ (least, most). (eqb_iff (mask p n) network.base).1 (
          rw
            (quotient_unique n (network.base / block p) (block p) (rw h.first least)
              (rw h.first most))
            h.first),
    )

abbrev pub IsBelow : ℕ → Option ℕ → Type 0
IsBelow bound none = Unit
IsBelow bound (some n) = n < bound

parse_octet-IsBelow : (s : String) → IsBelow 256 (parse_octet s)
unfolding parse_octet
parse_octet-IsBelow s = ground arith

join_octets-IsBelow :
    (a b c d : Option ℕ)
    → IsBelow 256 a
    → IsBelow 256 b
    → IsBelow 256 c
    → IsBelow 256 d
    → IsBelow 4294967296 (join_octets a b c d)
unfolding join_octets
join_octets-IsBelow (some a) (some b) (some c) (some d) ha hb hc hd = omega arith
join_octets-IsBelow a b c d ha hb hc hd = tt

four_octets-IsBelow : (words : List String) → IsBelow 4294967296 (four_octets words)
unfolding four_octets
four_octets-IsBelow (a ∷ b ∷ c ∷ d ∷ []) =
    join_octets-IsBelow _ _ _ _ (parse_octet-IsBelow a) (parse_octet-IsBelow b)
      (parse_octet-IsBelow c) (parse_octet-IsBelow d)
four_octets-IsBelow words = tt

-- An address that reads is a number of 32 bits.
pub parse_address-IsBelow : (s : String) → IsBelow 4294967296 (parse_address s)
unfolding parse_address
parse_address-IsBelow s = four_octets-IsBelow (split_on b'.' s)

find_prefix-IsBelow : (p n : ℕ) → IsBelow (suc p) (find_prefix p n)
unfolding find_prefix
find_prefix-IsBelow zero n = ground arith
find_prefix-IsBelow (suc p) n = ground (arith, find_prefix-IsBelow p n)

or_else-IsBelow :
    (bound : ℕ) (a b : Option ℕ) → IsBelow bound a → IsBelow bound b → IsBelow bound (or_else a b)
unfolding or_else
or_else-IsBelow bound (some n) b ha hb = ha
or_else-IsBelow bound none b ha hb = hb

parse_mask-IsBelow : (n : Option ℕ) → IsBelow 33 (parse_mask n)
unfolding parse_mask
parse_mask-IsBelow none = tt
parse_mask-IsBelow (some n) =
    or_else-IsBelow 33 _ _ (find_prefix-IsBelow 32 n) (find_prefix-IsBelow 32 (4294967295 - n))

parse_prefix-IsBelow : (s : String) → IsBelow 33 (parse_prefix s)
unfolding parse_prefix
parse_prefix-IsBelow s = ground (arith, parse_mask-IsBelow (parse_address s))

abbrev pub Canonical : Option Network → Type 0
Canonical none = Unit
Canonical (some network) = IsCanonical network

make_network-Canonical :
    (n p : Option ℕ) → IsBelow 4294967296 n → IsBelow 33 p → Canonical (make_network n p)
unfolding make_network
make_network-Canonical (some n) (some p) hn hp = record {
  short = omega arith;
  small = omega (arith, (mask-bounds p n).0);
  first = mask-mask p n;
}
make_network-Canonical n p hn hp = tt

-- Every text that reads as a network gives one in canonical form.
pub parse_network-Canonical : (s : String) → Canonical (parse_network s)
unfolding parse_network
parse_network-Canonical s = go (split_on b'/' s)
  where
    go : (words : List String) → Canonical (network_of words)
    go (addr ∷ []) = make_network-Canonical _ _ (parse_address-IsBelow addr) (omega arith)
    go (addr ∷ prefix ∷ []) =
        make_network-Canonical _ _ (parse_address-IsBelow addr) (parse_prefix-IsBelow prefix)
    go words = tt
