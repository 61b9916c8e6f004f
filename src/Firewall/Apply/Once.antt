-- ===== src/Firewall/Apply/Once.antt =====
-- Requests that apply the same review, in any order and with any reading of it, start one run.
use mathlib.Core.Path.{subst}
use narsika.Base.{
  ℕ, ◌≤◌, String, Bool, true, false, ◌&&◌, Option, none, some, List, [], ◌∷◌, map, count, ◌!=◌,
  nat_eq, text_eq, option_eq, ok, fail_if, api_error, ◌≡◌, refl, sym, arith, Returns-ok, bind-eq-ok,
  fail_if-Returns,
}
use narsika.Base.Json.{Json, Fields}
use narsika.Models.{User, Device, firewall, admin, role_eq}
use narsika.Security.{Fernet}
use narsika.Security.Inputs.{payload}
use narsika.Jobs.Queue.{Parameters, enqueue}
use narsika.Firewall.Review.{StoredPlan, Review}
use narsika.Firewall.Apply.{
  Tables, Reply, reused, started, is_open, claim_row, claim, set_run, receipt, check_plan,
  check_request, consume, proceed_with, apply_review, apply_keys, run_parameters,
}

abbrev pub open_count : String → List Review → ℕ
open_count ident reviews = count (is_open ident) reviews

is_open-claim_row : (ident : String) (row : Review) → is_open ident (claim_row ident row) ≡ false
is_open-claim_row ident row = ground arith

pub open_count-claim :
    (ident : String) (reviews : List Review) → open_count ident (map (claim_row ident) reviews) ≡ 0
open_count-claim ident [] = refl
open_count-claim ident (row ∷ rows) =
    ground (arith, is_open-claim_row ident row, open_count-claim ident rows)

-- An update that opens no row.
pub open_count-map :
    (ident : String) (f : Review → Review) (reviews : List Review)
    → ((row : Review) → is_open ident (f row) ≡ true → is_open ident row ≡ true)
    → open_count ident (map f reviews) ≤ open_count ident reviews
open_count-map ident f [] keeps = omega arith
open_count-map ident f (row ∷ rows) keeps =
    let here = keeps row in let rest = open_count-map ident f rows keeps in ground arith

pub set_run-keeps :
    (ident other : String) (run_id : ℕ) (row : Review)
    → is_open ident (set_run other run_id row) ≡ true
    → is_open ident row ≡ true
set_run-keeps ident other run_id row h = ground arith

pub claim_row-keeps :
    (ident other : String) (row : Review)
    → is_open ident (claim_row other row) ≡ true
    → is_open ident row ≡ true
claim_row-keeps ident other row h = ground arith

receipt-some :
    (user : User) (row : Review) {read : Review} → receipt user (some row) ≡ ok read → row ≡ read
unfolding receipt
receipt-some user row h =
    let (_, _, same) =
      bind-eq-ok
        (fail_if (row.actor_id != user.id && user.role != admin)
          (api_error "This review belongs to another user." "FORBIDDEN" 403))
        _ h in
    cc

-- What a request leaves: nothing new, or one open row less.
abbrev pub Consumed : String → List Review → Reply × Tables → Type 0
Consumed ident reviews (reused run, after) = after.reviews ≡ reviews
Consumed ident reviews (started run, after) =
    (open_count ident reviews ≡ 1)
    × (after.reviews ≡ map (set_run ident run.id) (map (claim_row ident) reviews))

module _ (sha256 : String → String) (plan_key : Fernet StoredPlan) (digest : StoredPlan → String)
    (key : Fernet Parameters) where
  consume-Consumed :
      (now : String) (user : User) (tables : Tables) (row : Review) (stored : StoredPlan)
      (device : Device) {reply : Reply × Tables}
      → consume sha256 plan_key digest key now user tables row stored device ≡ ok reply
      → Consumed row.id tables.reviews reply
  unfolding consume claim
  consume-Consumed now user tables row stored device h =
      let twice = open_count row.id tables.reviews != 1 in
      let (_, claimed, h₁) =
        bind-eq-ok
          (fail_if twice (api_error "Another request already consumed this review." "CONFLICT" 409))
          _ h in
      let (queued, _, h₂) =
        bind-eq-ok
          (enqueue sha256 key now firewall (some device.id) user.id (run_parameters user row)
            tables.db)
          _ h₁ in
      Returns-ok (Consumed row.id tables.reviews) (ok _)
        (
          once (open_count row.id tables.reviews)
              (Returns-ok _ _ (fail_if-Returns twice _) claimed),
          refl,
        )
        h₂
    where
      once : (n : ℕ) → n != 1 ≡ false → n ≡ 1
      once n h = ground arith

  proceed_with-Consumed :
      (now : String) (clock : ℕ) (working : Bool) (user : User) (tables : Tables) (row : Review)
      (stored : StoredPlan) (data' : Fields) (run_id : Option ℕ) {reply : Reply × Tables}
      → proceed_with sha256 plan_key digest key now clock working user tables row stored data'
          run_id
        ≡ ok reply
      → Consumed row.id tables.reviews reply
  unfolding proceed_with
  proceed_with-Consumed now clock working user tables row stored data' (some run) h =
      Returns-ok (Consumed row.id tables.reviews) (ok _) refl h
  proceed_with-Consumed now clock working user tables row stored data' none h =
      let (device, _, h₁) =
        bind-eq-ok
          (check_request sha256 plan_key digest key clock working user tables row stored data') _
          h in
      consume-Consumed now user tables row stored device h₁

  -- The row that the request read is the one that it consumes.
  pub apply_review-Consumed :
      (now : String) (clock : ℕ) (working : Bool) (user : User) (row : Review) (body : Option Json)
      (tables : Tables) {reply : Reply × Tables}
      → apply_review sha256 plan_key digest key now clock working user (some row) body tables
        ≡ ok reply
      → Consumed row.id tables.reviews reply
  unfolding apply_review receipt
  apply_review-Consumed now clock working user row body tables {reply} h =
      let (data', _, h₁) = bind-eq-ok (payload apply_keys ("checksum" ∷ []) body) _ h in
      let (read, same, h₂) = bind-eq-ok (receipt user (some row)) _ h₁ in
      let (stored, _, h₃) =
        bind-eq-ok (check_plan sha256 plan_key digest key user read data') _ h₂ in
      subst (λ (r : Review). Consumed r.id tables.reviews reply) (sym (receipt-some user row same))
        (proceed_with-Consumed now clock working user tables read stored data' read.run_id h₃)
