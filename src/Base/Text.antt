-- ===== src/Base/Text.antt =====
-- What the program uses of Python's `str`: decimal printing and reading, and slices from the end.
use Prim.Native.Nat.{ℕ, zero, suc, ◌+◌, ◌-◌, ◌*◌, ◌/◌, ◌%◌, ◌≤◌}
use Prim.Native.Char.{Char, code}
use Prim.Native.String.{String, ◌++◌ as append}
use mathlib.Core.Path.{◌≡◌, refl}
use mathlib.Core.Bool.{Bool, true, false, ◌&&◌, ◌||◌}
use mathlib.Core.Option.{Option, none, some}
use native.Mathlib.Omega.{arith}
use narsika.Base.Tests.{ltb, leb, eqb, if◌then◌else◌}

infixl 65 ◌+s◌
abbrev pub ◌+s◌ : String → String → String
a +s b = append a b

-- `len(s)`
unfoldable pub len : String → ℕ
len String.[] = 0
len (String.◌∷◌ c s) = suc (len s)

drop_chars : ℕ → String → String
drop_chars zero s = s
drop_chars (suc n) String.[] = String.[]
drop_chars (suc n) (String.◌∷◌ c s) = drop_chars n s

-- `s[-n:]` for n > 0: the last n characters, or the whole text if it is shorter
unfoldable pub keep_last : ℕ → String → String
unfolding drop_chars len
keep_last n s = drop_chars (len s - n) s

-- `s[:n]`
unfoldable pub take_chars : ℕ → String → String
take_chars zero s = String.[]
take_chars (suc n) String.[] = String.[]
take_chars (suc n) (String.◌∷◌ c s) = String.◌∷◌ c (take_chars n s)

len-drop_chars : (n : ℕ) (s : String) → len (drop_chars n s) ≡ len s - n
unfolding drop_chars len
len-drop_chars zero s = omega arith
len-drop_chars (suc n) String.[] = omega arith
len-drop_chars (suc n) (String.◌∷◌ c s) = omega (arith, len-drop_chars n s)

pub len-keep_last : (n : ℕ) (s : String) → len (keep_last n s) ≤ n
unfolding keep_last
len-keep_last n s = omega (arith, len-drop_chars (len s - n) s)

digit_text : ℕ → String
digit_text zero = "0"
digit_text (suc zero) = "1"
digit_text (suc (suc zero)) = "2"
digit_text (suc (suc (suc zero))) = "3"
digit_text (suc (suc (suc (suc zero)))) = "4"
digit_text (suc (suc (suc (suc (suc zero))))) = "5"
digit_text (suc (suc (suc (suc (suc (suc zero)))))) = "6"
digit_text (suc (suc (suc (suc (suc (suc (suc zero))))))) = "7"
digit_text (suc (suc (suc (suc (suc (suc (suc (suc zero)))))))) = "8"
digit_text _ = "9"

-- The digits of `n` before `rest`. A number has no more digits than its own size, plus one.
show_digits : ℕ → ℕ → String → String
show_digits zero n rest = rest
show_digits (suc fuel) n rest =
    let shown = append (digit_text (n % 10)) rest in
    let more = show_digits fuel (n / 10) shown in if ltb n 10 then shown else more

-- `str(n)`
unfoldable pub show : ℕ → String
unfolding show_digits digit_text
show n = show_digits (suc n) n ""

is_digit : Char → Bool
is_digit c = leb 48 (code c) && leb (code c) 57

-- `int(s)` of a text of ASCII digits, from the value read so far; `none` at any other character
read_digits : ℕ → String → Option ℕ
read_digits n String.[] = some n
read_digits n (String.◌∷◌ c s) =
    let rest = read_digits (n * 10 + (code c - 48)) s in if is_digit c then rest else none

-- `re.fullmatch('[0-9]+', s)` and `int(s)`
unfoldable pub read_nat : String → Option ℕ
unfolding read_digits is_digit
read_nat String.[] = none
read_nat (String.◌∷◌ c s) = read_digits 0 (String.◌∷◌ c s)

-- `a <= b` on texts, by code points
unfoldable pub text_leb : String → String → Bool
text_leb String.[] b = true
text_leb (String.◌∷◌ c a) String.[] = false
text_leb (String.◌∷◌ c a) (String.◌∷◌ d b) =
    ltb (code c) (code d) || eqb (code c) (code d) && text_leb a b

show_example : show 32768 ≡ "32768"
unfolding show
show_example = refl

read_nat_example : read_nat "08080" ≡ some 8080
unfolding read_nat
read_nat_example = refl
