-- ===== src/Ipv4/Roundtrip.antt =====
-- What `str` prints of an address or a network reads back as the same address or network.
use Prim.Native.Char.{Char, code}
use text.Mathlib.TextLemmas.{nil-append, cons-append}
use narsika.Base.{
  List, all, ℕ, zero, suc, ◌+◌, ◌*◌, ◌/◌, ◌%◌, ◌<◌, String, ◌≡◌, ◌≢◌, refl, ap, ◌∙◌, Bool, true,
  not, ◌&&◌, some, [], ◌∷◌, arith, ◌==◌, nat_eq, option_eq, show, ◌+s◌,
}
use narsika.Ipv4.{split_on, parse_octet, parse_address, show_address}

-- Whether a text has no character with this code.
free_of : ℕ → String → Bool
free_of sep String.[] = true
free_of sep (String.◌∷◌ c s) = not (code c == sep) && free_of sep s

split_on-ne-nil : (sep : ℕ) (s : String) → split_on sep s ≢ []
unfolding split_on
split_on-ne-nil sep String.[] = ground arith
split_on-ne-nil sep (String.◌∷◌ c s) = ground (arith, split_on-ne-nil sep s)

split_on-sep :
    (c : Char) (t : String) → split_on (code c) (String.◌∷◌ c t) ≡ String.[] ∷ split_on (code c) t
unfolding split_on
split_on-sep c t = ground (arith, split_on-ne-nil (code c) t)

-- The first word ends at the first separator.
split_on-append :
    (c : Char) (s t : String)
    → free_of (code c) s ≡ true
    → split_on (code c) (s +s String.◌∷◌ c t) ≡ s ∷ split_on (code c) t
unfolding split_on free_of
split_on-append c String.[] t h = rw nil-append (ground (arith, split_on-ne-nil (code c) t))
split_on-append c (String.◌∷◌ d s) t h = rw cons-append (ground (arith, split_on-append c s t))

split_on-free : (c : Char) (s : String) → free_of (code c) s ≡ true → split_on (code c) s ≡ s ∷ []
unfolding split_on free_of
split_on-free c String.[] h = refl
split_on-free c (String.◌∷◌ d s) h = ground (arith, split_on-free c s)

-- Every octet, by evaluation: it reads back, and it has no dot and no slash.
octet_fits : ℕ → Bool
octet_fits n = parse_octet (show n) == some n && (free_of b'.' (show n) && free_of b'/' (show n))

-- The numbers under a limit, the largest first.
numbers : ℕ → List ℕ
numbers zero = []
numbers (suc limit) = limit ∷ numbers limit

numbers-all :
    (test : ℕ → Bool) (k limit : ℕ) → k < limit → all test (numbers limit) ≡ true → test k ≡ true
unfolding numbers
numbers-all test k zero small passed = absurd (omega arith)
numbers-all test k (suc limit) small passed = ground (arith, numbers-all test k limit)

octet_table : all octet_fits (numbers 256) ≡ true
unfolding numbers octet_fits parse_octet show free_of
octet_table = refl

octet_lem :
    (n : ℕ)
    → n < 256
    → (parse_octet (show n) ≡ some n)
      × (free_of b'.' (show n) ≡ true)
      × (free_of b'/' (show n) ≡ true)
unfolding octet_fits
octet_lem n h =
    let fits = numbers-all octet_fits n 256 h octet_table in
    ground (arith, (option_eq {A = ℕ}).same_iff (parse_octet (show n)) (some n))

-- The four octets of a number below 2^32.
octets-join :
    (n : ℕ)
    → n < 4294967296
    → ((n / 16777216 % 256 * 256 + n / 65536 % 256) * 256 + n / 256 % 256) * 256 + n % 256 ≡ n
octets-join n h = omega arith

abbrev dot : Char
dot = "."

abbrev slash : Char
slash = "/"

-- A separator that is written as a text of one character.
text-append : (c : Char) (t : String) → (String.◌∷◌ c String.[]) +s t ≡ String.◌∷◌ c t
text-append c t = rw (cons-append, nil-append)

split_four :
    (a b c d : String)
    → free_of b'.' a ≡ true
    → free_of b'.' b ≡ true
    → free_of b'.' c ≡ true
    → free_of b'.' d ≡ true
    → split_on b'.' (a +s ("." +s (b +s ("." +s (c +s ("." +s d)))))) ≡ a ∷ b ∷ c ∷ d ∷ []
split_four a b c d ha hb hc hd = simp (text-append dot) (
    split_on-append dot a _ ha
    ∙ ap (λ w. a ∷ w)
        (split_on-append dot b _ hb
          ∙ ap (λ w. b ∷ w)
              (split_on-append dot c d hc ∙ ap (λ w. c ∷ w) (split_on-free dot d hd))))

-- Reading what `str` prints of an address gives the address.
pub parse_address-show_address : (n : ℕ) → n < 4294967296 → parse_address (show_address n) ≡ some n
unfolding parse_address show_address
parse_address-show_address n h =
    let (ra, fa, _) = octet_lem (n / 16777216 % 256) (omega arith) in
    let (rb, fb, _) = octet_lem (n / 65536 % 256) (omega arith) in
    let (rc, fc, _) = octet_lem (n / 256 % 256) (omega arith) in
    let (rd, fd, _) = octet_lem (n % 256) (omega arith) in
    rw (split_four _ _ _ _ fa fb fc fd, ra, rb, rc, rd) (ap some (octets-join n h))
