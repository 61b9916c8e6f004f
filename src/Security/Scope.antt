-- ===== src/Security/Scope.antt =====
-- `address` and `network` of app/security.py: what may be contacted and scanned. `allowed` is the
-- setting ALLOWED_NETWORKS, `most_hosts` is SCAN_MAX_HOSTS.
use mathlib.Core.Path.{subst}
use narsika.Base.{
  ℕ, ◌+◌, ◌<◌, ◌≤◌, String, Bool, true, false, not, ◌&&◌, ◌||◌, Option, none, some, List, [], ◌∷◌,
  any, All, ltb, leb, ◌==◌, nat_eq, Result, ApiError, ok, err, invalid, fail_if, api_error, ◌>>◌,
  ◌≡◌, refl, arith, if_ind, Bool-cases, inl, inr, option_eq, bind-eq-ok, Returns-ok,
  fail_if-Returns, if◌then◌else◌,
}
use narsika.Base.Json.{Json, bool, num, str}
use narsika.Ipv4.{
  Network, block, parse_address, show_address, parse_network, split_on, in_network, is_multicast,
  is_unspecified,
}
use narsika.Ipv4.Roundtrip.{parse_address-show_address}
use narsika.Ipv4.Masks.{
  IsCanonical, Canonical, IsBelow, parse_address-IsBelow, in_network_iff, parse_network-Canonical,
}

-- `IPv4Address(value)`: Python also takes an int, and a bool is one.
unfoldable pub read_address : Option Json → Option ℕ
unfolding parse_address
read_address (some (str s)) = parse_address s
read_address (some (num n)) = if ltb n 4294967296 then some n else none
read_address (some (bool true)) = some 1
read_address (some (bool false)) = some 0
read_address _ = none

abbrev pub scope_error : ApiError
scope_error = api_error "This address is outside NARSIKA_ALLOWED_NETWORKS." "TARGET_NOT_ALLOWED" 403

unfoldable pub is_allowed_address : List Network → ℕ → Bool
is_allowed_address allowed n =
    any (in_network n) allowed && not (is_multicast n) && not (is_unspecified n)

unfoldable pub check_address : List Network → Bool → Option ℕ → Result String
unfolding is_allowed_address show_address
check_address allowed enforce none = invalid "Use a valid IPv4 address."
check_address allowed enforce (some n) =
    if enforce && not (is_allowed_address allowed n) then err scope_error else ok (show_address n)

-- `address(value, enforce_scope)`
unfoldable pub address : List Network → Option Json → Bool → Result String
unfolding check_address read_address
address allowed value enforce = check_address allowed enforce (read_address value)

-- The address in front of the slash.
first_address : List String → Option ℕ
unfolding parse_address
first_address [] = none
first_address (word ∷ words) = parse_address word

-- `IPv4Network(s, strict=True)` refuses a text whose host bits are not zero.
keep_strict : Option ℕ → Option Network → Option Network
keep_strict first none = none
keep_strict first (some net) = if first == some net.base then some net else none

unfoldable pub parse_strict : String → Option Network
unfolding first_address keep_strict parse_network split_on
parse_strict s = keep_strict (first_address (split_on b'/' s)) (parse_network s)

abbrev pub one_address : ℕ → Network
one_address n = record { base = n; prefixlen = 32 }

unfoldable pub read_network : Option Json → Option Network
unfolding parse_strict
read_network (some (str s)) = parse_strict s
read_network (some (num n)) = if ltb n 4294967296 then some (one_address n) else none
read_network (some (bool true)) = some (one_address 1)
read_network (some (bool false)) = some (one_address 0)
read_network _ = none

-- `net.subnet_of(other)`, by the first and the last address
unfoldable pub subnet_of : Network → Network → Bool
subnet_of net other =
    leb other.base net.base
    && leb (net.base + block net.prefixlen) (other.base + block other.prefixlen)

unfoldable pub check_network : ℕ → List Network → Option Network → Result Network
unfolding subnet_of
check_network most_hosts allowed none = invalid "Use a canonical IPv4 network in CIDR notation."
check_network most_hosts allowed (some net) = do
  fail_if (ltb most_hosts (block net.prefixlen))
      (api_error "The scan range exceeds the configured host limit." "VALIDATION_ERROR" 422)
  fail_if (not (any (subnet_of net) allowed))
      (api_error "The scan is outside NARSIKA_ALLOWED_NETWORKS." "TARGET_NOT_ALLOWED" 403)
  ok net

-- `network(value)`
unfoldable pub network : ℕ → List Network → Option Json → Result Network
unfolding check_network read_network
network most_hosts allowed value = check_network most_hosts allowed (read_network value)

one_address-IsCanonical : (n : ℕ) → n < 4294967296 → IsCanonical (one_address n)
one_address-IsCanonical n h = record { short = omega arith; small = h; first = omega arith }

keep_strict-Canonical :
    (first : Option ℕ) (net : Option Network) → Canonical net → Canonical (keep_strict first net)
unfolding keep_strict
keep_strict-Canonical first none h = tt
keep_strict-Canonical first (some net) h =
    if_ind Canonical (first == some net.base) (λ _. h) (λ _. tt)

read_network-Canonical : (value : Option Json) → Canonical (read_network value)
unfolding read_network parse_strict
read_network-Canonical none = tt
read_network-Canonical (some (str s)) = keep_strict-Canonical _ _ (parse_network-Canonical s)
read_network-Canonical (some (num n)) =
    if_ind Canonical (ltb n 4294967296) (λ e. one_address-IsCanonical n (ground (arith, e)))
      (λ _. tt)
read_network-Canonical (some (bool true)) = one_address-IsCanonical 1 (omega arith)
read_network-Canonical (some (bool false)) = one_address-IsCanonical 0 (omega arith)
read_network-Canonical (some value) = tt

-- An address of a part is an address of the whole.
subnet_of_sound :
    (net other : Network) (n : ℕ)
    → IsCanonical net
    → IsCanonical other
    → subnet_of net other ≡ true
    → in_network n net ≡ true
    → in_network n other ≡ true
unfolding subnet_of
subnet_of_sound net other n hn ho inside h =
    let (low, high) = (in_network_iff n net hn).0 h in
    (in_network_iff n other ho).1 (ground (arith, inside, low), ground (arith, inside, high))

any_subnet_sound :
    (net : Network) (allowed : List Network) (n : ℕ)
    → IsCanonical net
    → All IsCanonical allowed
    → any (subnet_of net) allowed ≡ true
    → in_network n net ≡ true
    → any (in_network n) allowed ≡ true
any_subnet_sound net [] n hn hs h inside = h
any_subnet_sound net (other ∷ rest) n hn hs h inside = elim (Bool-cases (subnet_of net other)) [
  | inl e ↦ true_or (in_network n other) _ (subnet_of_sound net other n hn hs.0 e inside)
  | inr e ↦
      or_true (in_network n other) _
        (any_subnet_sound net rest n hn hs.1 (right (subnet_of net other) _ h e) inside)
]
  where
    true_or : (b c : Bool) → b ≡ true → b || c ≡ true
    true_or b c h = ground arith

    or_true : (b c : Bool) → c ≡ true → b || c ≡ true
    or_true b c h = ground arith

    right : (b c : Bool) → b || c ≡ true → b ≡ false → c ≡ true
    right b c h e = ground arith

not_above : (n b : ℕ) → ltb n b ≡ false → b ≤ n
not_above n b h = ground arith

not_outside : (b : Bool) → not b ≡ false → b ≡ true
not_outside b h = ground arith

-- A network that passes for a scan is in canonical form, has at most SCAN_MAX_HOSTS addresses, and
-- each of its addresses is in one of the allowed networks, where those are in canonical form.
pub network_allowed :
    (most_hosts : ℕ) (allowed : List Network) (value : Option Json) {net : Network}
    → All IsCanonical allowed
    → network most_hosts allowed value ≡ ok net
    → IsCanonical net
      × (block net.prefixlen ≤ most_hosts)
      × ((n : ℕ) → in_network n net ≡ true → any (in_network n) allowed ≡ true)
unfolding network check_network
network_allowed most_hosts allowed value {net} hs h =
    go (read_network value) (read_network-Canonical value) h
  where
    go :
        (read : Option Network)
        → Canonical read
        → check_network most_hosts allowed read ≡ ok net
        → IsCanonical net
          × (block net.prefixlen ≤ most_hosts)
          × ((n : ℕ) → in_network n net ≡ true → any (in_network n) allowed ≡ true)
    go none canonical h = absurd cc
    go (some found) canonical h =
        let large = ltb most_hosts (block found.prefixlen) in
        let (_, size, h₁) =
          bind-eq-ok
            (fail_if large (
              api_error "The scan range exceeds the configured host limit." "VALIDATION_ERROR" 422))
            _ h in
        let outside = not (any (subnet_of found) allowed) in
        let (_, scope, h₂) =
          bind-eq-ok
            (fail_if outside
              (api_error "The scan is outside NARSIKA_ALLOWED_NETWORKS." "TARGET_NOT_ALLOWED" 403))
            _ h₁ in
        Returns-ok
          (λ (m : Network).
            IsCanonical m
            × (block m.prefixlen ≤ most_hosts)
            × ((n : ℕ) → in_network n m ≡ true → any (in_network n) allowed ≡ true))
          (ok found)
          (
            canonical,
            not_above most_hosts (block found.prefixlen)
                (Returns-ok _ _ (fail_if-Returns large _) size),
            λ n inside.
                any_subnet_sound found allowed n canonical hs
                  (not_outside (any (subnet_of found) allowed)
                    (Returns-ok _ _ (fail_if-Returns outside _) scope))
                  inside,
          )
          h₂

read_address-small : (value : Option Json) {n : ℕ} → read_address value ≡ some n → n < 4294967296
unfolding read_address
read_address-small (some (str s)) h =
    subst (λ (o : Option ℕ). IsBelow 4294967296 o) h (parse_address-IsBelow s)
read_address-small (some (num n)) h = ground arith
read_address-small (some (bool b)) h = ground arith
read_address-small none h = absurd cc
read_address-small (some value) h = absurd cc

check_address-ok :
    (allowed : List Network) (n : ℕ) {text : String}
    → check_address allowed true (some n) ≡ ok text
    → ((any (in_network n) allowed ≡ true) × (is_multicast n ≡ false) × (is_unspecified n ≡ false))
      × (show_address n ≡ text)
unfolding check_address is_allowed_address
check_address-ok allowed n h = ground arith

-- A text that address returns while it enforces the scope reads as an address that is in an
-- allowed network and is neither multicast nor unspecified.
pub address_allowed :
    (allowed : List Network) (value : Option Json) {text : String}
    → address allowed value true ≡ ok text
    → (n : ℕ) × (parse_address text ≡ some n)
      × (any (in_network n) allowed ≡ true)
      × (is_multicast n ≡ false)
      × (is_unspecified n ≡ false)
unfolding address
address_allowed allowed value {text} h = go (read_address value) refl h
  where
    go :
        (read : Option ℕ)
        → read_address value ≡ read
        → check_address allowed true read ≡ ok text
        → (n : ℕ) × (parse_address text ≡ some n)
          × (any (in_network n) allowed ≡ true)
          × (is_multicast n ≡ false)
          × (is_unspecified n ≡ false)
    go none e h = absurd cc
    go (some n) e h =
        let (scope, shown) = check_address-ok allowed n h in
        (
          n,
          subst (λ (t : String). parse_address t ≡ some n) shown
              (parse_address-show_address n (read_address-small value e)),
          scope.0,
          scope.1,
          scope.2,
        )
