-- ===== src/Security/Inputs.antt =====
-- The input checks of app/security.py: `integer` on one JSON value, and `payload` on the whole body.
use mathlib.Core.Path.{subst}
use narsika.Base.{
  ◌≡◌, ◌≢◌, sym, true, false, Bool, ◌||◌, ◌==◌, Bool-cases, inl, inr, bind-eq-ok, Returns-ok,
  fail_if-Returns, arith, not, List, [], ◌∷◌, any, filter, contains, text_eq, list_eq, ◌!=◌, ◌>>◌,
  fail, fail_if, api_error, text_leb, ℕ, String, ◌&&◌, Option, none, some, leb, Result, ok, invalid,
  ◌+s◌, show, read_nat, if◌then◌else◌,
}
use narsika.Base.Json.{Json, num, str, obj, Fields, end, field, keys, get_field}

-- `re.fullmatch('[0-9]+', str(value))` and then `int(value)`, a Boolean excepted. Only an int that
-- is not negative and a text of digits pass. (`int` refuses texts of more than 4300 digits.)
unfoldable pub read_integer : Option Json → Option ℕ
unfolding read_nat
read_integer (some (num n)) = some n
read_integer (some (str s)) = read_nat s
read_integer _ = none

unfoldable pub integer : Option Json → String → ℕ → ℕ → Result ℕ
unfolding read_integer show
integer value name minimum maximum = elim (read_integer value) [
  | none ↦ invalid (name +s " must be an integer.")
  | some n ↦
      if leb minimum n && leb n maximum
      then ok n
      else invalid (name +s " must be between " +s show minimum +s " and " +s show maximum +s ".")
]

insert_text : String → List String → List String
unfolding text_leb
insert_text s [] = s ∷ []
insert_text s (t ∷ ts) =
    let later = insert_text s ts in if text_leb s t then s ∷ t ∷ ts else t ∷ later

sort_texts : List String → List String
unfolding insert_text
sort_texts [] = []
sort_texts (s ∷ ts) = insert_text s (sort_texts ts)

-- `', '.join(texts)`
join_texts : List String → String
join_texts [] = ""
join_texts (s ∷ []) = s
join_texts (s ∷ ts) = s +s ", " +s join_texts ts

-- `payload(allowed, required)`. The body is `none` where it is no JSON.
unfoldable pub payload : List String → List String → Option Json → Result Fields
unfolding sort_texts join_texts keys
payload allowed required (some (obj row)) = do
  let unknown = filter (λ k. not (contains k allowed)) (keys row)
  fail_if (unknown != [])
      (api_error ("Unknown fields: " +s join_texts (sort_texts unknown)) "VALIDATION_ERROR" 422)
  fail_if (any (λ k. not (contains k (keys row))) required)
      (api_error "Required fields are missing." "VALIDATION_ERROR" 422)
  ok row
payload allowed required value = fail "Send a JSON object." "VALIDATION_ERROR" 400

get_field-keys :
    (key : String) (row : Fields) → contains key (keys row) ≡ true → get_field key row ≢ none
unfolding get_field keys
get_field-keys key end h = absurd cc
get_field-keys key (field k value rest) h =
    ground (arith, text_eq.same_iff k key, text_eq.same_iff key k, get_field-keys key rest)

-- Where no required name is missing, each is there.
none_missing :
    (required : List String) (key : String) (row : Fields)
    → any (λ k. not (contains k (keys row))) required ≡ false
    → contains key required ≡ true
    → contains key (keys row) ≡ true
none_missing [] key row h needed = absurd cc
none_missing (k ∷ ks) key row h needed = elim (Bool-cases (key == k)) [
  | inl e ↦
      let same = (text_eq.same_iff key k).0 e in
      subst (λ (x : String). contains x (keys row) ≡ true) (sym same)
        (found (contains k (keys row)) (any (λ x. not (contains x (keys row))) ks) h)
  | inr e ↦ none_missing ks key row (ground (arith, h)) (ground (arith, needed, e))
]
  where
    found : (a b : Bool) → (not a || b) ≡ false → a ≡ true
    found a b h = ground arith

-- A required field is there.
pub payload-given :
    (allowed required : List String) (body : Option Json) (key : String) {row : Fields}
    → payload allowed required body ≡ ok row
    → contains key required ≡ true
    → get_field key row ≢ none
unfolding payload
payload-given allowed required (some (obj given)) key h needed =
    let unknown = filter (λ k. not (contains k allowed)) (keys given) in
    let (_, _, h₁) =
      bind-eq-ok
        (fail_if (unknown != []) (
          api_error ("Unknown fields: " +s join_texts (sort_texts unknown)) "VALIDATION_ERROR" 422))
        _ h in
    let missing = any (λ k. not (contains k (keys given))) required in
    let (_, passed, h₂) =
      bind-eq-ok (fail_if missing (api_error "Required fields are missing." "VALIDATION_ERROR" 422))
        _ h₁ in
    let complete =
      Returns-ok (λ _. missing ≡ false)
        (fail_if missing (api_error "Required fields are missing." "VALIDATION_ERROR" 422))
        (fail_if-Returns missing _) passed in
    Returns-ok (λ (row : Fields). get_field key row ≢ none) (ok given)
      (get_field-keys key given (none_missing required key given complete needed)) h₂
payload-given allowed required value key h needed = absurd cc
