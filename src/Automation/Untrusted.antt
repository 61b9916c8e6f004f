-- ===== src/Automation/Untrusted.antt =====
-- `untrusted` of app/services/automation.py and the extra variables of `run_ansible`: texts of a user
-- that Ansible must not render as templates.
pub mod Marked
use narsika.Base.{
  ℕ, String, Bool, true, false, ◌&&◌, Option, none, some, ◌==◌, text_eq, if◌then◌else◌,
}
use narsika.Base.Json.{
  Json, null, bool, num, negative, float, str, arr, obj, Items, nil, cons, Fields, end, field,
}

-- A value for the YAML writer: `unsafe` is a text of the class Untrusted.
mutual
  pub data Value : Type 0 where
    null_value : Value
    bool_value : Bool → Value
    num_value : ℕ → Value
    negative_value : ℕ → Value
    float_value : String → Value
    plain : String → Value
    unsafe : String → Value
    list : Values → Value
    dict : Entries → Value

  pub data Values : Type 0 where
    no_value : Values
    value : Value → Values → Values

  pub data Entries : Type 0 where
    no_entry : Entries
    entry : String → Value → Entries → Entries

-- `untrusted(value)`
mutual
  pub untrusted : Json → Value
  untrusted null = null_value
  untrusted (bool b) = bool_value b
  untrusted (num n) = num_value n
  untrusted (negative n) = negative_value n
  untrusted (float text) = float_value text
  untrusted (str text) = unsafe text
  untrusted (arr xs) = list (untrusted_items xs)
  untrusted (obj fields) = dict (untrusted_fields fields)

  pub untrusted_items : Items → Values
  untrusted_items nil = no_value
  untrusted_items (cons x xs) = value (untrusted x) (untrusted_items xs)

  pub untrusted_fields : Fields → Entries
  untrusted_fields end = no_entry
  untrusted_fields (field key x rest) = entry key (untrusted x) (untrusted_fields rest)

unfoldable pub find_value : String → Entries → Option Value
find_value key no_entry = none
find_value key (entry k v rest) = if k == key then some v else find_value key rest

unfoldable pub put_value : String → Value → Entries → Entries
put_value key v no_entry = entry key v no_entry
put_value key v (entry k old rest) =
    let later = put_value key v rest in if k == key then entry k v rest else entry k old later

-- `{**untrusted(variables), 'narsika_targets': …, 'narsika_artifact_root': …}`
unfoldable pub extra_variables : String → Fields → Entries
unfolding untrusted_fields put_value
extra_variables root variables =
    put_value "narsika_artifact_root" (plain root)
      (put_value "narsika_targets" (plain "all") (untrusted_fields variables))
