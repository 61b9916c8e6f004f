-- ===== src/Automation/Untrusted/Marked.antt =====
-- Every text of the user is marked, and says what the user wrote.
use mathlib.Core.Path.{subst}
use mathlib.Core.Option
use narsika.Base.{
  sym, String, Bool, true, false, ◌&&◌, Option, none, some, text_eq, ◌≡◌, ◌≢◌, refl, ap, ◌∙◌, arith,
}
use narsika.Base.Json.{
  Json, null, bool, num, negative, float, str, arr, obj, Items, nil, cons, Fields, end, field,
  get_field,
}
use narsika.Automation.Untrusted.{
  Value, null_value, bool_value, num_value, negative_value, float_value, plain, unsafe, list, dict,
  Values, no_value, value, Entries, no_entry, entry, untrusted, untrusted_items, untrusted_fields,
  find_value, put_value, extra_variables,
}

-- Whether no text in a value is plain.
mutual
  pub is_marked : Value → Bool
  is_marked (plain text) = false
  is_marked (list values) = are_marked values
  is_marked (dict entries) = has_marked entries
  is_marked v = true

  pub are_marked : Values → Bool
  are_marked no_value = true
  are_marked (value v values) = is_marked v && are_marked values

  pub has_marked : Entries → Bool
  has_marked no_entry = true
  has_marked (entry key v entries) = is_marked v && has_marked entries

mutual
  unfolding untrusted is_marked

  untrusted-marked : (x : Json) → is_marked (untrusted x) ≡ true
  untrusted-marked null = refl
  untrusted-marked (bool b) = refl
  untrusted-marked (num n) = refl
  untrusted-marked (negative n) = refl
  untrusted-marked (float text) = refl
  untrusted-marked (str text) = refl
  untrusted-marked (arr xs) = untrusted_items-marked xs
  untrusted-marked (obj fields) = untrusted_fields-marked fields

  untrusted_items-marked : (xs : Items) → are_marked (untrusted_items xs) ≡ true
  untrusted_items-marked nil = refl
  untrusted_items-marked (cons x xs) = ground (arith, untrusted-marked x, untrusted_items-marked xs)

  untrusted_fields-marked : (fields : Fields) → has_marked (untrusted_fields fields) ≡ true
  untrusted_fields-marked end = refl
  untrusted_fields-marked (field key x rest) =
      ground (arith, untrusted-marked x, untrusted_fields-marked rest)

-- What was written is the plain text again.
mutual
  pub written : Value → Json
  written null_value = null
  written (bool_value b) = bool b
  written (num_value n) = num n
  written (negative_value n) = negative n
  written (float_value text) = float text
  written (plain text) = str text
  written (unsafe text) = str text
  written (list values) = arr (written_items values)
  written (dict entries) = obj (written_fields entries)

  pub written_items : Values → Items
  written_items no_value = nil
  written_items (value v values) = cons (written v) (written_items values)

  pub written_fields : Entries → Fields
  written_fields no_entry = end
  written_fields (entry key v entries) = field key (written v) (written_fields entries)

mutual
  unfolding untrusted written

  written-untrusted : (x : Json) → written (untrusted x) ≡ x
  written-untrusted null = refl
  written-untrusted (bool b) = refl
  written-untrusted (num n) = refl
  written-untrusted (negative n) = refl
  written-untrusted (float text) = refl
  written-untrusted (str text) = refl
  written-untrusted (arr xs) = ap (λ l. arr l) (written_items-untrusted_items xs)
  written-untrusted (obj fields) = ap (λ l. obj l) (written_fields-untrusted_fields fields)

  written_items-untrusted_items : (xs : Items) → written_items (untrusted_items xs) ≡ xs
  written_items-untrusted_items nil = refl
  written_items-untrusted_items (cons x xs) =
      cc (written-untrusted x, written_items-untrusted_items xs)

  written_fields-untrusted_fields :
      (fields : Fields) → written_fields (untrusted_fields fields) ≡ fields
  written_fields-untrusted_fields end = refl
  written_fields-untrusted_fields (field key x rest) =
      cc (written-untrusted x, written_fields-untrusted_fields rest)

find_value-untrusted :
    (key : String) (fields : Fields)
    → find_value key (untrusted_fields fields) ≡ Option.map untrusted (get_field key fields)
unfolding find_value untrusted_fields get_field
find_value-untrusted key end = refl
find_value-untrusted key (field k x rest) = ground (arith, find_value-untrusted key rest)

find_value-put_value :
    (key : String) (v : Value) (entries : Entries)
    → find_value key (put_value key v entries) ≡ some v
unfolding find_value put_value
find_value-put_value key v no_entry = ground (arith, text_eq.same_iff key key)
find_value-put_value key v (entry k old rest) =
    ground
      (arith, text_eq.same_iff k key, text_eq.same_iff key key, find_value-put_value key v rest)

find_value-put_other :
    (key other : String) (v : Value) (entries : Entries)
    → key ≢ other
    → find_value key (put_value other v entries) ≡ find_value key entries
unfolding find_value put_value
find_value-put_other key other v no_entry ne = ground (arith, text_eq.same_iff other key)
find_value-put_other key other v (entry k old rest) ne = ground (
  arith,
  text_eq.same_iff other key,
  text_eq.same_iff k other,
  text_eq.same_iff k key,
  find_value-put_other key other v rest,
)

-- A value of the user: marked throughout, and what he wrote.
abbrev pub IsData : Option Json → Option Value → Type 0
IsData none none = Unit
IsData (some x) (some v) = (is_marked v ≡ true) × (written v ≡ x)
IsData none (some v) = ⊥
IsData (some x) none = ⊥

IsData-untrusted : (x : Option Json) → IsData x (Option.map untrusted x)
IsData-untrusted none = tt
IsData-untrusted (some x) = (untrusted-marked x, written-untrusted x)

-- In the extra variables of a run the two values of the server are plain texts, whatever the
-- user's variables say. Every other key has the user's value with every text in it marked as data,
-- at any depth, and without the marks it is what the user wrote.
pub extra_variables-IsData :
    (root : String) (variables : Fields)
    → (find_value "narsika_targets" (extra_variables root variables) ≡ some (plain "all"))
      × (find_value "narsika_artifact_root" (extra_variables root variables) ≡ some (plain root))
      × ((key : String)
          → key ≢ "narsika_targets"
          → key ≢ "narsika_artifact_root"
          → IsData (get_field key variables) (find_value key (extra_variables root variables)))
unfolding extra_variables
extra_variables-IsData root variables =
    let data' = untrusted_fields variables in
    let targets = put_value "narsika_targets" (plain "all") data' in
    (
      find_value-put_other "narsika_targets" "narsika_artifact_root" (plain root) targets
            (λ h. absurd cc)
          ∙ find_value-put_value "narsika_targets" (plain "all") data',
      find_value-put_value "narsika_artifact_root" (plain root) targets,
      λ key ne ne'.
          subst (λ (v : Option Value). IsData (get_field key variables) v)
            (sym (
              find_value-put_other key "narsika_artifact_root" (plain root) targets ne'
              ∙ (find_value-put_other key "narsika_targets" (plain "all") data' ne
                  ∙ find_value-untrusted key variables)))
            (IsData-untrusted (get_field key variables)),
    )
