-- ===== src/Scheduling/Tick/Ticked.antt =====
-- What a whole pass leaves in the table of the tasks, by `tick` of app/services/scheduling.py.
use mathlib.Core.Path.{subst}
use narsika.Base.{
  ℕ, ◌≤◌, ◌<◌, String, Bool, true, false, List, [], ◌∷◌, All, filter, count, leb, Result, ◌≡◌, ◌⊎◌,
  inl, inr, refl, sym, arith, Bool-cases, nat_eq,
}
use narsika.Base.Json.{Json}
use narsika.Models.{Kind, Device}
use narsika.Security.{Fernet}
use narsika.Jobs.Queue.{Parameters}
use narsika.Scheduling.Rule.{Zone}
use narsika.Scheduling.Rule.Next.{HasHours}
use narsika.Scheduling.Definition.{Saved, Book, ScheduledTask}
use narsika.Scheduling.Tick.{
  Pass, done, broke, Clock, is_due_task, due_tasks, put_tasks, settle_pass, tick, tick_due,
  tick_rows,
}
use narsika.Scheduling.Tick.Selection.{All-due_tasks}
use narsika.Scheduling.Tick.Advance.{
  IsFit, IsAdvanced, AreAdvanced, IsPassed, Stops, tick_rows-IsPassed, due_tasks-IsFit,
  sort_tasks-All, take_tasks-All,
}
use narsika.Scheduling.Tick.Table.{HasRow, IsRow, All-map, put_tasks-HasRow, put_tasks-All}

All-kept :
    (p : ScheduledTask → Bool) (P : ScheduledTask → Type 0) (tasks : List ScheduledTask)
    → All P tasks
    → All P (filter p tasks)
All-kept p P [] h = tt
All-kept p P (task ∷ rest) h = pick (p task) (All-kept p P rest h.1)
  where
    pick :
        (b : Bool)
        → All P (filter p rest)
        → All P (elim b as (λ _. List ScheduledTask) [
          | true ↦ task ∷ filter p rest
          | false ↦ filter p rest
        ])
    pick true others = (h.0, others)
    pick false others = others

few_or_many : (n : ℕ) → (50 < n) ⊎ (n ≤ 50)
few_or_many n = elim (Bool-cases (leb n 50)) [
  | inl few ↦ inr (ground (arith, few))
  | inr many ↦ inl (ground (arith, many))
]

due_tasks-All :
    (P : ScheduledTask → Type 0) (moment : ℕ) (tasks : List ScheduledTask)
    → All P tasks
    → All P (due_tasks moment tasks)
unfolding due_tasks
due_tasks-All P moment tasks h =
    take_tasks-All P 50 _ (sort_tasks-All P _ (All-kept (is_due_task moment) P tasks h))

-- The table after a pass that came to its end. A selected task has moved on, every other task is
-- what it was or has moved on, and no task is left where at most 50 were due.
pub record Ticked (zone : Zone) (moment : ℕ) (before after : List ScheduledTask) : Type 0 where
  pub selected :
      All
        (λ (t : ScheduledTask). HasRow (IsAdvanced zone moment t) t.id after)
        (due_tasks moment before)
  pub others :
      All
        (λ (t : ScheduledTask).
          HasRow (λ (row : ScheduledTask). (row ≡ t) ⊎ IsAdvanced zone moment t row) t.id after)
        before
  pub complete :
      (50 < count (is_due_task moment) before)
      ⊎ All
          (λ (t : ScheduledTask).
            (is_due_task moment t ≡ false) ⊎ HasRow (IsAdvanced zone moment t) t.id after)
          before

put_tasks-Ticked :
    (zone : Zone) (moment : ℕ) (rows tasks : List ScheduledTask)
    → All (IsRow tasks) tasks
    → AreAdvanced zone moment (due_tasks moment tasks) rows
    → Ticked zone moment tasks (put_tasks rows tasks)
put_tasks-Ticked zone moment rows tasks keys advanced =
    let due = due_tasks moment tasks in
    let due_keys = due_tasks-All (IsRow tasks) moment tasks keys in
    let selected =
      put_tasks-All zone moment tasks due rows tasks due_keys
        (All-map _ _ due (λ t key. (t, key, tt)) due_keys) advanced in
    record {
      selected = selected;
      others =
          All-map _ _ tasks
            (λ t key.
              put_tasks-HasRow zone moment
                (λ (row : ScheduledTask). (row ≡ t) ⊎ IsAdvanced zone moment t row) t tasks due rows
                tasks key due_keys advanced (λ row h. inr h) (t, key, inl refl))
            keys;
      complete = elim (few_or_many (count (is_due_task moment) tasks)) [
        | inl many ↦ inl many
        | inr few ↦ inr (
            All-due_tasks
              (λ (t : ScheduledTask). HasRow (IsAdvanced zone moment t) t.id (put_tasks rows tasks))
              moment tasks few selected)
      ];
    }

module _ (sha256 : String → String) (content : Book → String)
    (prepare : Kind → Device → Json → Result (Unit {0})) (key : Fernet Saved)
    (run_key : Fernet Parameters) (now : String) (zone : Zone) (moment : ℕ) where
  -- The pass came to its end, or an exception at one of the selected tasks has ended it.
  abbrev pub IsTicked : Clock → Clock × Bool → Type 0
  IsTicked before (after, again) =
      ((again ≡ false) × Ticked zone moment before.tasks after.tasks)
      ⊎ ((ident : ℕ) × (Stops sha256 content prepare key run_key now zone moment ident
              (due_tasks moment before.tasks)
            × ((after, again) ≡ settle_pass before (broke ident))))

  settle_pass-IsTicked :
      (clock : Clock) (pass : Pass)
      → All (IsRow clock.tasks) clock.tasks
      → IsPassed sha256 content prepare key run_key now zone moment
          (due_tasks moment clock.tasks)
          pass
      → IsTicked clock (settle_pass clock pass)
  unfolding settle_pass
  settle_pass-IsTicked clock (done rows calendar) keys passed =
      inl (refl, put_tasks-Ticked zone moment rows clock.tasks keys passed)
  settle_pass-IsTicked clock (broke ident) keys passed = inr (ident, (passed, refl))

  tick_due-IsTicked :
      (clock : Clock) (due : List ScheduledTask)
      → due_tasks moment clock.tasks ≡ due
      → All (IsRow clock.tasks) clock.tasks
      → All (IsFit moment) due
      → IsTicked clock (tick_due sha256 content prepare key run_key now zone moment clock due)
  unfolding tick_due
  tick_due-IsTicked clock [] same keys fit = inl (
    refl,
    put_tasks-Ticked zone moment [] clock.tasks keys
        (subst (λ (d : List ScheduledTask). AreAdvanced zone moment d []) (sym same) tt),
  )
  tick_due-IsTicked clock (task ∷ tasks) same keys fit = settle_pass-IsTicked clock _ keys (
      subst
        (λ (d : List ScheduledTask). IsPassed sha256 content prepare key run_key now zone moment d (
          tick_rows sha256 content prepare key run_key now zone moment (task ∷ tasks)
            clock.calendar))
        (sym same)
        (tick_rows-IsPassed sha256 content prepare key run_key now zone moment (task ∷ tasks)
          clock.calendar fit))

  -- The conditions are that every interval has at least one hour and that the key of a task finds
  -- its row. Where a pass of tick comes to its end, each task that it selects has the next time of
  -- its rule in the table, whether it was dispatched or missed, and is disabled or waits for a
  -- later moment; no column but the time, the switch and the attention text has changed; each task
  -- of the table is what it was or was due and has moved on like that; and where at most 50 tasks
  -- are due, every due task has. Otherwise an exception at one of the selected tasks has ended the
  -- pass, and what is left is what a failed pass at that task leaves.
  pub tick-IsTicked :
      (clock : Clock)
      → All (λ (t : ScheduledTask). HasHours t.rule.frequency) clock.tasks
      → All (IsRow clock.tasks) clock.tasks
      → IsTicked clock (tick sha256 content prepare key run_key now zone moment clock)
  unfolding tick
  tick-IsTicked clock hours keys =
      tick_due-IsTicked clock (due_tasks moment clock.tasks) refl keys
        (due_tasks-IsFit moment clock.tasks hours)
