-- ===== src/Scheduling/Tick/Table.antt =====
-- The table of the tasks after `tick` of app/services/scheduling.py.
use mathlib.Core.Path.{subst}
use narsika.Base.{
  ℕ, some, List, [], ◌∷◌, All, ◌≡◌, ◌≢◌, ◌⊎◌, inl, inr, refl, sym, ap, ◌∙◌, arith, Bool-cases, eqb,
  eqb_iff, nat_eq,
}
use narsika.Models.{get_row, put_row}
use narsika.Models.Rows.{get_row-put_row, get_row-put_row_ne}
use narsika.Scheduling.Definition.{ScheduledTask}
use narsika.Scheduling.Tick.{put_tasks}
use narsika.Scheduling.Rule.{Zone}
use narsika.Scheduling.Tick.Quarantine.{task_id}
use narsika.Scheduling.Tick.Advance.{IsAdvanced, AreAdvanced}

-- The row of a task in the table.
abbrev pub HasRow : (ScheduledTask → Type 0) → ℕ → List ScheduledTask → Type 0
HasRow Q ident tasks = (row : ScheduledTask) × (get_row task_id ident tasks ≡ some row) × Q row

-- The task is what the table holds for its key.
abbrev pub IsRow : List ScheduledTask → ScheduledTask → Type 0
IsRow tasks task = get_row task_id task.id tasks ≡ some task

pub All-map :
    (P Q : ScheduledTask → Type 0) (tasks : List ScheduledTask)
    → ((task : ScheduledTask) → P task → Q task)
    → All P tasks
    → All Q tasks
All-map P Q [] f h = tt
All-map P Q (task ∷ tasks) f h = (f task h.0, All-map P Q tasks f h.1)

some_inj : {a b : ScheduledTask} → some a ≡ some b → a ≡ b
some_inj h = cc

same_or_other : (a b : ℕ) → (a ≡ b) ⊎ (b ≢ a)
same_or_other a b = elim (Bool-cases (eqb a b)) [
  | inl same ↦ inl ((eqb_iff a b).0 same)
  | inr other ↦ inr (λ e. ground (arith, e, eqb_iff a b, other))
]

put_row-HasRow :
    (Q : ScheduledTask → Type 0) (ident : ℕ) (new : ScheduledTask) (tasks : List ScheduledTask)
    → (new.id ≡ ident → Q new)
    → HasRow Q ident tasks
    → HasRow Q ident (put_row task_id new.id new tasks)
put_row-HasRow Q ident new tasks h (row, there, old) = elim (same_or_other new.id ident) [
  | inl same ↦ (
    new,
    ap (λ (i : ℕ). get_row task_id i (put_row task_id new.id new tasks)) (sym same)
        ∙ get_row-put_row task_id new.id new row tasks refl
            (ap (λ (i : ℕ). get_row task_id i tasks) same ∙ there),
    h same,
  )
  | inr other ↦ (row, get_row-put_row_ne task_id new.id ident new tasks refl other ∙ there, old)
]

module _ (zone : Zone) (moment : ℕ) where
  IsAdvanced-id : (task row : ScheduledTask) → IsAdvanced zone moment task row → row.id ≡ task.id
  IsAdvanced-id task row h = ap task_id h.kept

  -- What holds of the row of a task and of what the pass makes of it holds after the pass.
  pub put_tasks-HasRow :
      (Q : ScheduledTask → Type 0) (task : ScheduledTask)
      (table due rows tasks : List ScheduledTask)
      → IsRow table task
      → All (IsRow table) due
      → AreAdvanced zone moment due rows
      → ((row : ScheduledTask) → IsAdvanced zone moment task row → Q row)
      → HasRow Q task.id tasks
      → HasRow Q task.id (put_tasks rows tasks)
  unfolding put_tasks
  put_tasks-HasRow Q task table [] [] tasks key keys rows h there = there
  put_tasks-HasRow Q task table [] (row ∷ rows) tasks key keys advanced h there = absurd advanced
  put_tasks-HasRow Q task table (d ∷ due) [] tasks key keys advanced h there = absurd advanced
  put_tasks-HasRow Q task table (d ∷ due) (row ∷ rows) tasks key keys advanced h there =
      put_tasks-HasRow Q task table due rows (put_row task_id row.id row tasks) key keys.1
        advanced.1 h
        (put_row-HasRow Q task.id row tasks
          (λ same. h row (moved (sym (IsAdvanced-id d row advanced.0) ∙ same))) there)
    where
      moved : d.id ≡ task.id → IsAdvanced zone moment task row
      moved same =
          subst (λ (t : ScheduledTask). IsAdvanced zone moment t row)
            (some_inj (sym keys.0 ∙ (ap (λ (i : ℕ). get_row task_id i table) same ∙ key)))
            advanced.0

  pub put_tasks-All :
      (table due rows tasks : List ScheduledTask)
      → All (IsRow table) due
      → All (λ (d : ScheduledTask). HasRow (λ _. Unit {0}) d.id tasks) due
      → AreAdvanced zone moment due rows
      → All
          (λ (d : ScheduledTask). HasRow (IsAdvanced zone moment d) d.id (put_tasks rows tasks))
          due
  unfolding put_tasks
  put_tasks-All table [] rows tasks keys there advanced = tt
  put_tasks-All table (d ∷ due) [] tasks keys there advanced = absurd advanced
  put_tasks-All table (d ∷ due) (row ∷ rows) tasks keys there advanced =
      let next = put_row task_id row.id row tasks in
      let same = IsAdvanced-id d row advanced.0 in
      (
        put_tasks-HasRow (IsAdvanced zone moment d) d table due rows next keys.0 keys.1 advanced.1
            (λ r h. h)
            (
              row,
              ap (λ (i : ℕ). get_row task_id i next) (sym same)
                  ∙ get_row-put_row task_id row.id row there.0.0 tasks refl
                      (ap (λ (i : ℕ). get_row task_id i tasks) same ∙ there.0.1),
              advanced.0,
            ),
        put_tasks-All table due rows next keys.1
            (All-map _ _ due
              (λ (t : ScheduledTask) h. put_row-HasRow (λ _. Unit {0}) t.id row tasks (λ _. tt) h)
              there.1)
            advanced.1,
      )
