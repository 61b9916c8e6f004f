-- ===== src/Automation/Operation/Validity.antt =====
-- What a validated operation is, and the lines that it becomes.
use narsika.Base.{
  ℕ, String, true, false, Option, some, contains, ◌!=◌, nat_eq, text_eq, ok, fail_if, bind-eq-ok,
  Returns, Returns-ok, ◌≤◌, ◌≡◌, ◌≢◌, ◌⊎◌, arith,
}
use narsika.Base.Json.{Json, str, Fields, get_field}
use narsika.Models.{Platform, cisco, platform_eq, platform_beq_iff}
use narsika.Security.Inputs.{integer}
use narsika.Security.Access.{text, all_chars}
use narsika.Automation.Operation.{
  VlanChange, get_or_text, text_among, read_save, is_word_code, reserved_vlans, platform_error,
  check_vlan_id, check_vlan_name, read_vlan_action, validate_vlan,
}

-- One VLAN of the free range, with a name of safe characters where it is created.
pub record IsVlan (platform : Platform) (v : VlanChange) : Type 0 where
  pub device : platform ≡ cisco
  pub range : (2 ≤ v.vlan_id) × (v.vlan_id ≤ 4094)
  pub free : contains v.vlan_id reserved_vlans ≡ false
  pub action : (v.operation ≡ "create") ⊎ (v.operation ≡ "remove")
  pub named :
      v.operation ≢ "remove" → (v.vlan_name ≢ "") × (all_chars is_word_code v.vlan_name ≡ true)

pub integer-range :
    (value : Option Json) (name : String) (minimum maximum : ℕ) {n : ℕ}
    → integer value name minimum maximum ≡ ok n
    → (minimum ≤ n) × (n ≤ maximum)
unfolding integer
integer-range value name minimum maximum h = ground arith

read_vlan_action-cases :
    (value : Option Json)
    → Returns (λ action. (action ≡ "create") ⊎ (action ≡ "remove")) (read_vlan_action value)
unfolding read_vlan_action text_among
read_vlan_action-cases (some (str s)) =
    ground (arith, text_eq.same_iff s "create", text_eq.same_iff s "remove")
read_vlan_action-cases value = tt

check_vlan_name-Returns :
    (action name : String)
    → Returns
        (λ _. action ≢ "remove" → (name ≢ "") × (all_chars is_word_code name ≡ true))
        (check_vlan_name action name)
unfolding check_vlan_name
check_vlan_name-Returns action name =
    ground (arith, text_eq.same_iff action "remove", text_eq.same_iff name "")

check_vlan_id-free :
    (ident : ℕ) {u : Unit {0}} → check_vlan_id ident ≡ ok u → contains ident reserved_vlans ≡ false
unfolding check_vlan_id
check_vlan_id-free ident h = ground arith

pub validate_vlan-IsVlan :
    (platform : Platform) (params : Fields) {v : VlanChange}
    → validate_vlan platform params ≡ ok v
    → IsVlan platform v
unfolding validate_vlan
validate_vlan-IsVlan platform params h =
    let (save, _, h₁) = bind-eq-ok (read_save (get_field "save_config" params)) _ h in
    let (_, device, h₂) = bind-eq-ok (fail_if (platform != cisco) platform_error) _ h₁ in
    let (ident, read, h₃) =
      bind-eq-ok (integer (get_field "vlan_id" params) "VLAN ID" 2 4094) _ h₂ in
    let (_, free, h₄) = bind-eq-ok (check_vlan_id ident) _ h₃ in
    let operation = get_or_text "operation" "create" params in
    let (action, acted, h₅) = bind-eq-ok (read_vlan_action operation) _ h₄ in
    let (name, _, h₆) =
      bind-eq-ok (text (get_or_text "vlan_name" "" params) "VLAN name" 32 (action != "remove")) _
        h₅ in
    let (_, named, h₇) = bind-eq-ok (check_vlan_name action name) _ h₆ in
    Returns-ok (IsVlan platform) (ok _)
      (record {
        device = same_platform platform device;
        range = integer-range (get_field "vlan_id" params) "VLAN ID" 2 4094 read;
        free = check_vlan_id-free ident free;
        action = Returns-ok _ (read_vlan_action operation) (read_vlan_action-cases operation) acted;
        named =
            Returns-ok _ (check_vlan_name action name) (check_vlan_name-Returns action name) named;
      })
      h₇
  where
    same_platform :
        (p : Platform) {u : Unit {0}} → fail_if (p != cisco) platform_error ≡ ok u → p ≡ cisco
    same_platform p h = ground (arith, platform_beq_iff p cisco)
