-- ===== src/Firewall/Compile/Steps.antt =====
-- The steps of a successful `compile_plan`, and what each item of the plan has to do with its change.
use narsika.Base.{
  ℕ, String, false, ◌&&◌, List, [], ◌==◌, ok, fail_if, ◌≡◌, Returns-ok, bind-eq-ok, fail_if-Returns,
}
use narsika.Base.Json.{Json}
use narsika.Models.{Device, Role, operator, role_eq}
use narsika.Firewall.Change.{Change}
use narsika.Firewall.Normalize.{normalize}
use narsika.Firewall.Normalize.Validity.{normalize-IsRequest, IsRequest}
use narsika.Firewall.Snapshot.{Snapshot, Item, Plan}
use narsika.Firewall.Plan.{
  Progress, compile_rows, early_lockout, top_risk, any_opposed, needs_admin, order_error,
  role_error, opposite_error,
}
use narsika.Firewall.Compile.{compile_plan, check_items, assemble}

abbrev pub at_start : Progress
at_start = record { created = []; occupied = [] }

pub record IsCompiled (sha256 : String → String) (tag : ℕ → String) (device : Device)
    (state : Snapshot) (role : Role) (plan : Plan) : Type 0 where
  pub source : ℕ
  pub rows : List Change
  pub items : List Item
  pub request : IsRequest device.platform rows
  pub compiled : compile_rows tag device state source 0 at_start rows ≡ ok items
  pub late : early_lockout items ≡ false
  pub allowed : role == operator && needs_admin (top_risk items) items ≡ false
  pub agree : any_opposed items ≡ false
  pub assembled : assemble sha256 device state source items ≡ plan

module _ (sha256 : String → String) (tag : ℕ → String) (device : Device) (state : Snapshot)
    (role : Role) where
  pub compile_plan-IsCompiled :
      (value : Json) {plan : Plan}
      → compile_plan sha256 tag value device state role ≡ ok plan
      → IsCompiled sha256 tag device state role plan
  unfolding compile_plan check_items
  compile_plan-IsCompiled value {plan} h =
      let (request, normal, h₁) = bind-eq-ok (normalize value device.platform) _ h in
      let (items, compiled, h₂) =
        bind-eq-ok (compile_rows tag device state request.0 0 at_start request.1) _ h₁ in
      let (_, checked, h₃) = bind-eq-ok (check_items role items) _ h₂ in
      let (_, late, c₁) = bind-eq-ok (fail_if (early_lockout items) order_error) _ checked in
      let (_, allowed, agree) =
        bind-eq-ok (fail_if (role == operator && needs_admin (top_risk items) items) role_error) _
          c₁ in
      record {
        source = request.0;
        rows = request.1;
        items = items;
        request = normalize-IsRequest value device.platform normal;
        compiled = compiled;
        late = Returns-ok _ _ (fail_if-Returns (early_lockout items) order_error) late;
        allowed =
            Returns-ok _ _
              (fail_if-Returns (role == operator && needs_admin (top_risk items) items) role_error)
              allowed;
        agree = Returns-ok _ _ (fail_if-Returns (any_opposed items) opposite_error) agree;
        assembled = cc;
      }
