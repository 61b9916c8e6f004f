-- ===== src/Scheduling/Requests/Retry.antt =====
-- A save that is sent again.
use mathlib.Core.Path.{subst}
use narsika.Base.{
  ℕ, suc, ◌≤◌, Bool, true, false, Option, none, some, List, [], ◌∷◌, ◌++◌, length, leb, ◌==◌, ◌!=◌,
  nat_eq, text_eq, option_eq, Result, ok, fail_if, api_error, bind-eq-ok, Returns-ok, ◌≡◌, refl,
  sym, arith, if_ind,
}
use narsika.Base.Json.{Json, num}
use narsika.Models.{Kind, User, get_row, put_row, first_row}
use narsika.Models.Rows.{get_row-id, get_row-put_row}
use narsika.Security.{Fernet}
use narsika.Security.Inputs.{integer, read_integer}
use narsika.Security.Access.{require, operate_level}
use narsika.Api.Records.{get, find_live, get-eq-ok}
use narsika.Scheduling.Rule.{Zone, Rule}
use narsika.Scheduling.Definition.{Saved, ScheduledTask, Calendar}
use narsika.Scheduling.Requests.{
  Schedules, Receipt, task_key, find_task, manage, check_receipt, read_receipt, recheck, filled,
  new_task, saved_event, save_edit, save_new, is_made_by, save_checked, save,
}

-- The first row that passes is the one that was added.
first_row-append :
    {A : Type 0} (p : A → Bool) (new : A) (rows : List A)
    → first_row p rows ≡ none
    → p new ≡ true
    → first_row p (rows ++ new ∷ []) ≡ some new
unfolding first_row
first_row-append p new [] free here = ground arith
first_row-append p new (row ∷ rows) free here = ground (arith, first_row-append p new rows)

find_task-later :
    (ident : ℕ) (task row : ScheduledTask) (before after : List ScheduledTask)
    → find_task (num ident) before ≡ ok task
    → get_row task_key ident after ≡ some row
    → find_task (num ident) after ≡ ok row
unfolding get find_live integer read_integer
find_task-later ident task row before after h found = ground (arith, h, found)

module _ (reviews : Fernet Receipt) (seal : Fernet Saved) (zone_of : Rule → Zone)
    (define : Calendar → Kind → Saved → Result Saved) (same : Saved → Saved → Bool) where
  -- The row of the answer is where a second save looks for it.
  abbrev IsKept : User → ℕ → Receipt → Option ℕ → ScheduledTask × Schedules → Type 0
  IsKept actor later receipt ident (task, s) =
      save_checked reviews seal zone_of define same actor later receipt s ident ≡ ok (task, s)

  edited-IsKept :
      (actor : User) (later ident : ℕ) (receipt : Receipt) (row : ScheduledTask) (s : Schedules)
      → find_task (num ident) s.tasks ≡ ok row
      → manage actor row ≡ ok tt
      → row.last_review_token ≡ receipt.key
      → IsKept actor later receipt (some ident) (row, s)
  unfolding save_checked save_edit
  edited-IsKept actor later ident receipt row s found managed used =
      rw (found, managed, (text_eq.same_iff row.last_review_token receipt.key).1 used) refl

  save_edit-IsKept :
      (actor : User) (clock later ident : ℕ) (receipt : Receipt) (task : ScheduledTask)
      (s : Schedules) {reply : ScheduledTask × Schedules}
      → find_task (num ident) s.tasks ≡ ok task
      → manage actor task ≡ ok tt
      → save_edit reviews seal zone_of define same actor clock receipt task s ≡ ok reply
      → IsKept actor later receipt (some ident) reply
  unfolding save_edit filled saved_event manage
  save_edit-IsKept actor clock later ident receipt task s {reply} found managed h =
      let Kept = IsKept actor later receipt (some ident) in
      let (here, _) = get-eq-ok task_key (λ _. false) ident s.tasks found in
      let named = get_row-id task_key ident task s.tasks here in
      if_ind (λ (r : Result (ScheduledTask × Schedules)). r ≡ ok reply → Kept reply)
        (task.last_review_token == receipt.key)
        (λ used saved.
          Returns-ok Kept (ok (task, s))
            (edited-IsKept actor later ident receipt task s found managed
              ((text_eq.same_iff task.last_review_token receipt.key).0 used))
            saved)
        (λ _ saved.
          let (_, _, h₁) =
            bind-eq-ok
              (fail_if (some task.revision != receipt.revision)
                (api_error "This task changed. Preview it again." "CONFLICT" 409))
              _ saved in
          let (due, _, h₂) =
            bind-eq-ok (recheck reviews seal zone_of define same clock receipt s) _ h₁ in
          let row =
            filled reviews seal zone_of define same receipt due
              (record task { revision = suc task.revision }) in
          Returns-ok Kept (ok _)
            (edited-IsKept actor later ident receipt row _
              (find_task-later ident task row s.tasks (put_row task_key task.id row s.tasks) found (
                subst
                  (λ (i : ℕ). get_row task_key ident (put_row task_key i row s.tasks) ≡ some row)
                  (sym named) (get_row-put_row task_key ident row task s.tasks named here)))
              managed refl)
            h₂)
        h

  save_new-IsKept :
      (actor : User) (clock later : ℕ) (receipt : Receipt) (s : Schedules)
      (found : Option ScheduledTask) {reply : ScheduledTask × Schedules}
      → first_row (is_made_by receipt.key) s.tasks ≡ found
      → save_new reviews seal zone_of define same actor clock receipt s found ≡ ok reply
      → IsKept actor later receipt none reply
  unfolding save_new save_checked new_task filled saved_event
  save_new-IsKept actor clock later receipt s (some task) made h =
      Returns-ok (IsKept actor later receipt none) (ok (task, s)) (rw made refl) h
  save_new-IsKept actor clock later receipt s none made h =
      let (_, _, h₁) =
        bind-eq-ok
          (fail_if (leb 200 (length s.tasks))
            (api_error "This installation supports up to 200 scheduled tasks." "CAPACITY" 409))
          _ h in
      let (due, _, h₂) =
        bind-eq-ok (recheck reviews seal zone_of define same clock receipt s) _ h₁ in
      let row = new_task reviews seal zone_of define same actor receipt due s in
      let added =
        first_row-append (is_made_by receipt.key) row s.tasks made
          ((text_eq.same_iff receipt.key receipt.key).1 refl) in
      Returns-ok (IsKept actor later receipt none) (ok _) (rw added refl) h₂

  save_checked-IsKept :
      (actor : User) (clock later : ℕ) (receipt : Receipt) (ident : Option ℕ) (s : Schedules)
      {reply : ScheduledTask × Schedules}
      → save_checked reviews seal zone_of define same actor clock receipt s ident ≡ ok reply
      → IsKept actor later receipt ident reply
  unfolding save_checked
  save_checked-IsKept actor clock later receipt none s h =
      save_new-IsKept actor clock later receipt s (first_row (is_made_by receipt.key) s.tasks) refl
        h
  save_checked-IsKept actor clock later receipt (some ident) s h =
      let (task, found, h₁) = bind-eq-ok (find_task (num ident) s.tasks) _ h in
      let (_, managed, h₂) = bind-eq-ok (manage actor task) _ h₁ in
      save_edit-IsKept actor clock later ident receipt task s found managed h₂

  -- What the checks of the receipt ask at the later time.
  check_receipt-later :
      (actor : User) (clock later : ℕ) (receipt : Receipt)
      → check_receipt actor clock receipt ≡ ok tt
      → later ≤ receipt.expires
      → check_receipt actor later receipt ≡ ok tt
  unfolding check_receipt
  check_receipt-later actor clock later receipt h early = ground (arith, h, early)

  -- Where a save of a scheduled task has succeeded, the same request by the same user answers with
  -- the same task and changes nothing when it is sent again, however the clock stands before the
  -- receipt expires.
  pub save_retried :
      (session : Option User) (clock later : ℕ) (body : Option Json) (s after : Schedules)
      (receipt : Receipt) (task : ScheduledTask)
      → save reviews seal zone_of define same session clock body s ≡ ok (task, after)
      → read_receipt reviews body ≡ ok receipt
      → later ≤ receipt.expires
      → save reviews seal zone_of define same session later body after ≡ ok (task, after)
  unfolding save
  save_retried session clock later body s after receipt task h read early =
      let (actor, signed, h₁) = bind-eq-ok (require operate_level session) _ h in
      let (receipt', read', h₂) = bind-eq-ok (read_receipt reviews body) _ h₁ in
      let (_, checked, h₃) = bind-eq-ok (check_receipt actor clock receipt') _ h₂ in
      let kept = save_checked-IsKept actor clock later receipt' receipt'.task_id s h₃ in
      let one : receipt' ≡ receipt = cc in
      let expires : later ≤ receipt'.expires = rw one early in
      rw (signed, read', check_receipt-later actor clock later receipt' checked expires, kept) refl
