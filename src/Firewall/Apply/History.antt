-- ===== src/Firewall/Apply/History.antt =====
-- The life of one review: requests that apply it, in any number and with any reading of it, and
-- the runs that report to it. The review is consumed once.
use mathlib.Core.Path.{subst}
use narsika.Base.{
  Bool-cases, inl, inr, ℕ, ◌+◌, ◌≤◌, String, Bool, true, false, Option, some, List, [], ◌∷◌, ◌++◌,
  map, count, count-append, ◌==◌, nat_eq, text_eq, option_eq, ok, ◌≡◌, sym, arith, if◌then◌else◌,
}
use narsika.Base.Json.{Json}
use narsika.Models.{User}
use narsika.Security.{Fernet}
use narsika.Jobs.Queue.{Parameters}
use narsika.Firewall.Review.{StoredPlan, ReviewStatus, Review}
use narsika.Firewall.Apply.{
  Tables, Reply, reused, started, is_reviewed, is_open, claim_row, set_run, apply_review,
}
use narsika.Firewall.Apply.Once.{
  open_count, open_count-map, open_count-claim, claim_row-keeps, set_run-keeps, Consumed,
  apply_review-Consumed,
}

-- One run where a request started one for this review.
abbrev pub starts : String → Review → Reply → ℕ
starts ident row (reused run) = 0
starts ident row (started run) = if row.id == ident then 1 else 0

-- `row.status = …` of firewall.execute
abbrev pub set_status : String → ReviewStatus → Review → Review
set_status ident status row = if row.id == ident then record row { status = status } else row

set_status-keeps :
    (ident other : String) (status : ReviewStatus)
    → is_reviewed status ≡ false
    → (row : Review) → is_open ident (set_status other status row) ≡ true
    → is_open ident row ≡ true
set_status-keeps ident other status h row opened = ground arith

new_row :
    (ident : String) (row : Review) → row.id == ident ≡ false → open_count ident (row ∷ []) ≡ 0
new_row ident row h = ground arith

open_count-le :
    (ident : String) (reviews : List Review)
    → open_count ident reviews ≤ count (λ (r : Review). r.id == ident) reviews
open_count-le ident [] = omega arith
open_count-le ident (row ∷ rows) = ground (arith, open_count-le ident rows)

module _ (sha256 : String → String) (plan_key : Fernet StoredPlan) (digest : StoredPlan → String)
    (key : Fernet Parameters) (ident : String) where
  -- How many runs were started for the review, from the first tables to the last. A request may
  -- hold any old reading `row` of any review; a new review has a name of its own.
  pub data History : Tables → ℕ → Tables → Type 0 where
    unused : {tables : Tables} → History tables 0 tables
    applied :
        {tables after last : Tables} {n : ℕ} (now : String) (clock : ℕ) (working : Bool)
        (user : User) (row : Review) (body : Option Json) (reply : Reply)
        → apply_review sha256 plan_key digest key now clock working user (some row) body tables
          ≡ ok (reply, after)
        → History after n last
        → History tables (starts ident row reply + n) last
    reported :
        {tables last : Tables} {n : ℕ} (other : String) (status : ReviewStatus)
        → is_reviewed status ≡ false
        → History (record tables { reviews = map (set_status other status) tables.reviews }) n last
        → History tables n last
    added :
        {tables last : Tables} {n : ℕ} (row : Review)
        → row.id == ident ≡ false
        → History (record tables { reviews = tables.reviews ++ row ∷ [] }) n last
        → History tables n last

  Consumed-le :
      (reviews : List Review) (row : Review) (reply : Reply) (after : Tables)
      → Consumed row.id reviews (reply, after)
      → starts ident row reply + open_count ident after.reviews ≤ open_count ident reviews
  Consumed-le reviews row (reused run) after h = rw h (omega arith)
  Consumed-le reviews row (started run) after (one, left) =
      let claimed = map (claim_row row.id) reviews in
      let marked =
        subst (λ (rows : List Review). open_count ident rows ≤ open_count ident claimed) (sym left)
          (open_count-map ident (set_run row.id run.id) claimed
            (set_run-keeps ident row.id run.id)) in
      let fewer = open_count-map ident (claim_row row.id) reviews (claim_row-keeps ident row.id) in
      elim (Bool-cases (row.id == ident)) [
        | inl e ↦
            let same = (text_eq.same_iff row.id ident).0 e in
            let none_left =
              subst (λ (i : String). open_count i claimed ≡ 0) same
                (open_count-claim row.id reviews) in
            let one_left = subst (λ (i : String). open_count i reviews ≡ 1) same one in
            rw e (omega (arith, marked, none_left, one_left))
        | inr e ↦ rw e (omega (arith, marked, fewer))
      ]

  History-le :
      {tables last : Tables} {n : ℕ}
      → History tables n last
      → n + open_count ident last.reviews ≤ open_count ident tables.reviews
  History-le unused = omega arith
  History-le {tables} (applied {after = after} now clock working user row body reply h rest) =
      omega (
        arith,
        History-le rest,
        Consumed-le tables.reviews row reply after (
            apply_review-Consumed sha256 plan_key digest key now clock working user row body tables
              h),
      )
  History-le {tables} (reported other status h rest) = omega (
    arith,
    History-le rest,
    open_count-map ident (set_status other status) tables.reviews
        (set_status-keeps ident other status h),
  )
  History-le {tables} (added row h rest) = omega (
    arith,
    History-le rest,
    count-append (is_open ident) tables.reviews (row ∷ []),
    new_row ident row h,
  )

  -- Whatever requests apply a review, with whatever reading of it, and whatever runs report to it
  -- or reviews are added in between, at most one of the requests starts a run for it, if the table
  -- holds at most one row with its id at the start, new reviews get other ids, and no run reports
  -- the status REVIEWED.
  pub apply_review_once :
      {tables last : Tables} {n : ℕ}
      → count (λ (r : Review). r.id == ident) tables.reviews ≤ 1
      → History tables n last
      → n ≤ 1
  apply_review_once {tables} unique history =
      omega (arith, unique, History-le history, open_count-le ident tables.reviews)
