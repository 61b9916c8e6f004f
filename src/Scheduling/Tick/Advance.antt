-- ===== src/Scheduling/Tick/Advance.antt =====
-- What a pass of `tick` of app/services/scheduling.py makes of the tasks that it handles.
use narsika.Base.{
  ℕ, zero, suc, filter, if_ind, ◌<◌, String, Bool, true, false, Option, none, some, List, [], ◌∷◌,
  All, ApiError, Result, ok, err, ◌≡◌, ◌≢◌, ◌⊎◌, inl, inr, refl, ap, sym, ◌∙◌, arith, Returns-ok,
  bind-eq-ok,
}
use narsika.Base.Json.{Json}
use narsika.Models.{Kind, Device}
use narsika.Security.{Fernet}
use narsika.Jobs.Queue.{Parameters}
use narsika.Scheduling.Rule.{Zone, next_time}
use narsika.Scheduling.Rule.Next.{HasHours, next_time-later}
use narsika.Scheduling.Definition.{Saved, Book, ScheduledTask, Calendar}
use narsika.Scheduling.Tick.Kept.{IsKept, set_next-IsKept, handle-IsKept}
use narsika.Scheduling.Tick.{
  Pass, done, broke, add_task, set_next, is_due_task, handle, advance_at, advance, tick_rows,
  due_tasks, insert_task, sort_tasks, take_tasks, earlier,
}

-- The task waits for a later moment, or no longer runs.
abbrev pub IsAhead : ℕ → ScheduledTask → Type 0
IsAhead moment task =
    (task.enabled ≡ false) ⊎ ((next : ℕ) × (task.next_due ≡ some next) × (moment < next))

-- A task that the query selects, with a rule that `rule_data` has checked.
abbrev pub IsFit : ℕ → ScheduledTask → Type 0
IsFit moment task = (is_due_task moment task ≡ true) × HasHours task.rule.frequency

-- The row of a task that was due, after the pass: it waits for the next time of its rule.
pub record IsAdvanced (zone : Zone) (moment : ℕ) (task row : ScheduledTask) : Type 0 where
  pub was_due : is_due_task moment task ≡ true
  pub ahead : IsAhead moment row
  pub timed : next_time zone task.rule moment ≡ ok row.next_due
  pub kept : IsKept task row

-- One row for each task, in order.
abbrev pub AreAdvanced : Zone → ℕ → List ScheduledTask → List ScheduledTask → Type 0
AreAdvanced zone moment [] [] = Unit
AreAdvanced zone moment (task ∷ tasks) (row ∷ rows) =
    IsAdvanced zone moment task row × AreAdvanced zone moment tasks rows
AreAdvanced zone moment tasks rows = ⊥

set_next-IsAhead :
    (moment : ℕ) (task : ScheduledTask) (next : Option ℕ)
    → ((t : ℕ) → next ≡ some t → moment < t)
    → IsAhead moment (set_next task next)
set_next-IsAhead moment task none later = inl refl
set_next-IsAhead moment task (some t) later = inr (t, refl, later t refl)

next_due-set_next : (task : ScheduledTask) (next : Option ℕ) → (set_next task next).next_due ≡ next
next_due-set_next task none = refl
next_due-set_next task (some t) = refl

filter-IsFit :
    (moment : ℕ) (tasks : List ScheduledTask)
    → All (λ (t : ScheduledTask). HasHours t.rule.frequency) tasks
    → All (IsFit moment) (filter (is_due_task moment) tasks)
filter-IsFit moment [] hours = tt
filter-IsFit moment (task ∷ tasks) hours =
    pick (is_due_task moment task) refl (filter-IsFit moment tasks hours.1)
  where
    pick :
        (b : Bool)
        → is_due_task moment task ≡ b
        → All (IsFit moment) (filter (is_due_task moment) tasks)
        → All (IsFit moment) (elim b as (λ _. List ScheduledTask) [
          | true ↦ task ∷ filter (is_due_task moment) tasks
          | false ↦ filter (is_due_task moment) tasks
        ])
    pick true e rest = ((e, hours.0), rest)
    pick false e rest = rest

insert_task-All :
    (P : ScheduledTask → Type 0) (task : ScheduledTask) (tasks : List ScheduledTask)
    → P task
    → All P tasks
    → All P (insert_task task tasks)
unfolding insert_task
insert_task-All P task [] h hs = (h, tt)
insert_task-All P task (other ∷ rest) h hs =
    if_ind (All P) (earlier task other) (λ _. (h, hs))
      (λ _. (hs.0, insert_task-All P task rest h hs.1))

pub sort_tasks-All :
    (P : ScheduledTask → Type 0) (tasks : List ScheduledTask)
    → All P tasks
    → All P (sort_tasks tasks)
unfolding sort_tasks
sort_tasks-All P [] hs = tt
sort_tasks-All P (task ∷ rest) hs = insert_task-All P task _ hs.0 (sort_tasks-All P rest hs.1)

pub take_tasks-All :
    (P : ScheduledTask → Type 0) (n : ℕ) (tasks : List ScheduledTask)
    → All P tasks
    → All P (take_tasks n tasks)
unfolding take_tasks
take_tasks-All P zero tasks hs = tt
take_tasks-All P (suc n) [] hs = tt
take_tasks-All P (suc n) (task ∷ rest) hs = (hs.0, take_tasks-All P n rest hs.1)

pub due_tasks-IsFit :
    (moment : ℕ) (tasks : List ScheduledTask)
    → All (λ (t : ScheduledTask). HasHours t.rule.frequency) tasks
    → All (IsFit moment) (due_tasks moment tasks)
unfolding due_tasks
due_tasks-IsFit moment tasks hours =
    take_tasks-All (IsFit moment) 50 _
      (sort_tasks-All (IsFit moment) _ (filter-IsFit moment tasks hours))

module _ (sha256 : String → String) (content : Book → String)
    (prepare : Kind → Device → Json → Result (Unit {0})) (key : Fernet Saved)
    (run_key : Fernet Parameters) (now : String) (zone : Zone) (moment : ℕ) where
  undue : (task : ScheduledTask) → task.next_due ≡ none → is_due_task moment task ≢ true
  unfolding is_due_task
  undue task e h = ground (arith, e)

  -- An exception ended the pass at one of the tasks.
  abbrev pub Stops : ℕ → List ScheduledTask → Type 0
  Stops ident [] = ⊥
  Stops ident (task ∷ tasks) =
      ((task.id ≡ ident)
        × ((calendar : Calendar) × ((e : ApiError) × (advance sha256 content prepare key run_key now
                  zone moment task calendar
                ≡ err e))))
      ⊎ Stops ident tasks

  abbrev pub IsPassed : List ScheduledTask → Pass → Type 0
  IsPassed tasks (done rows calendar) = AreAdvanced zone moment tasks rows
  IsPassed tasks (broke ident) = Stops ident tasks

  add_task-IsPassed :
      (task row : ScheduledTask) (tasks : List ScheduledTask) (rest : Pass)
      → IsAdvanced zone moment task row
      → IsPassed tasks rest
      → IsPassed (task ∷ tasks) (add_task row rest)
  add_task-IsPassed task row tasks (done rows calendar) h rest = (h, rest)
  add_task-IsPassed task row tasks (broke ident) h rest = inr rest

  advance_at-IsAdvanced :
      (task : ScheduledTask) (due : Option ℕ) (calendar : Calendar)
      {reply : ScheduledTask × Calendar}
      → task.next_due ≡ due
      → IsFit moment task
      → advance_at sha256 content prepare key run_key now zone moment task due calendar ≡ ok reply
      → IsAdvanced zone moment task reply.0
  unfolding advance_at
  advance_at-IsAdvanced task none calendar e fit h = absurd (undue task e fit.0)
  advance_at-IsAdvanced task (some due) calendar e fit h =
      let (handled, same, h₁) =
        bind-eq-ok (handle sha256 content prepare key run_key now zone moment task due calendar) _
          h in
      let (next, found, h₂) = bind-eq-ok (next_time zone task.rule moment) _ h₁ in
      let kept =
        Returns-ok (λ (r : ScheduledTask × Calendar). IsKept task r.0) _
          (handle-IsKept sha256 content prepare key run_key now zone moment task due calendar)
          same in
      Returns-ok (λ (r : ScheduledTask × Calendar). IsAdvanced zone moment task r.0) (ok _)
        (record {
          was_due = fit.0;
          ahead = set_next-IsAhead moment handled.0 next (λ t same.
              next_time-later zone task.rule moment fit.1
                (found ∙ ap {B = Result (Option ℕ)} ok same));
          timed = found ∙ ap {B = Result (Option ℕ)} ok (sym (next_due-set_next handled.0 next));
          kept = set_next-IsKept task handled.0 next kept;
        })
        h₂

  advance-IsAdvanced :
      (task : ScheduledTask) (calendar : Calendar) {reply : ScheduledTask × Calendar}
      → IsFit moment task
      → advance sha256 content prepare key run_key now zone moment task calendar ≡ ok reply
      → IsAdvanced zone moment task reply.0
  unfolding advance
  advance-IsAdvanced task calendar fit h =
      advance_at-IsAdvanced task task.next_due calendar refl fit h

  pub tick_rows-IsPassed :
      (tasks : List ScheduledTask) (calendar : Calendar)
      → All (IsFit moment) tasks
      → IsPassed tasks (tick_rows sha256 content prepare key run_key now zone moment tasks calendar)
  unfolding tick_rows
  tick_rows-IsPassed [] calendar fit = tt
  tick_rows-IsPassed (task ∷ tasks) calendar fit =
      go (advance sha256 content prepare key run_key now zone moment task calendar) refl
        (λ after. tick_rows-IsPassed tasks after fit.1)
    where
      go :
          (answer : Result (ScheduledTask × Calendar))
          → advance sha256 content prepare key run_key now zone moment task calendar ≡ answer
          → ((after : Calendar)
              → IsPassed tasks
                  (tick_rows sha256 content prepare key run_key now zone moment tasks after))
          → IsPassed (task ∷ tasks) (elim answer as (λ _. Pass) [
            | err e ↦ broke task.id
            | ok reply ↦
                add_task reply.0
                  (tick_rows sha256 content prepare key run_key now zone moment tasks reply.1)
          ])
      go (ok reply) same rest =
          add_task-IsPassed task reply.0 tasks _ (advance-IsAdvanced task calendar fit.0 same)
            (rest reply.1)
      go (err e) same rest = inl (refl, (calendar, (e, same)))
