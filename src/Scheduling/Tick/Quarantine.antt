-- ===== src/Scheduling/Tick/Quarantine.antt =====
-- A task whose dispatch raises in five passes in a row is disabled.
use narsika.Base.{
  ℕ, zero, suc, ◌+◌, ◌<◌, false, some, List, [], ◌∷◌, nat_eq, eqb_iff, beq_refl, ◌≡◌, refl, ap, ◌∙◌,
  arith,
}
use narsika.Models.{get_row, put_row}
use narsika.Scheduling.Definition.{ScheduledTask}
use narsika.Scheduling.Tick.{
  broke, Clock, failures_of, drop_failures, quarantine, settle_pass, attention_text,
}

abbrev pub task_id : ScheduledTask → ℕ
task_id task = task.id

-- The state after `n` passes in a row that raise at this task.
unfoldable pub fail_passes : ℕ → ℕ → Clock → Clock
fail_passes zero ident clock = clock
fail_passes (suc n) ident clock = fail_passes n ident (settle_pass clock (broke ident)).0

get_row-put_row :
    (ident : ℕ) (task new : ScheduledTask) (tasks : List ScheduledTask)
    → new.id ≡ ident
    → get_row task_id ident tasks ≡ some task
    → get_row task_id ident (put_row task_id ident new tasks) ≡ some new
unfolding get_row put_row
get_row-put_row ident task new [] same h = absurd cc
get_row-put_row ident task new (row ∷ rows) same h =
    ground (arith, eqb_iff new.id ident, get_row-put_row ident task new rows same)

settle_pass-counts :
    (ident n : ℕ) (clock : Clock)
    → failures_of ident clock.failures ≡ n
    → n < 4
    → (failures_of ident (settle_pass clock (broke ident)).0.failures ≡ suc n)
      × ((settle_pass clock (broke ident)).0.tasks ≡ clock.tasks)
unfolding settle_pass failures_of
settle_pass-counts ident n clock h few = ground (arith, h, beq_refl ident)

get_row-id :
    (ident : ℕ) (tasks : List ScheduledTask) (task : ScheduledTask)
    → get_row task_id ident tasks ≡ some task
    → task.id ≡ ident
unfolding get_row
get_row-id ident [] task h = absurd cc
get_row-id ident (row ∷ rows) task h =
    ground (arith, eqb_iff row.id ident, get_row-id ident rows task)

abbrev pub disable : ScheduledTask → ScheduledTask
disable task = record task { enabled = false; attention = attention_text }

tasks-quarantine :
    (ident : ℕ) (clock : Clock) (task : ScheduledTask)
    → get_row task_id ident clock.tasks ≡ some task
    → (quarantine ident clock).tasks ≡ put_row task_id ident (disable task) clock.tasks
unfolding quarantine
tasks-quarantine ident clock task h = rw (h, quarantine) refl

settle_pass-disables :
    (ident : ℕ) (clock : Clock) (task : ScheduledTask)
    → failures_of ident clock.failures ≡ 4
    → get_row task_id ident clock.tasks ≡ some task
    → get_row task_id ident (settle_pass clock (broke ident)).0.tasks ≡ some (disable task)
unfolding settle_pass
settle_pass-disables ident clock task h found =
    let emptied = record clock { failures = drop_failures ident clock.failures } in
    rw h (
      rw (tasks-quarantine ident emptied task found) (
        get_row-put_row ident task (disable task) clock.tasks
          (get_row-id ident clock.tasks task found) found))

fail_passes-disable :
    (n k ident : ℕ) (clock : Clock) (task : ScheduledTask)
    → n + k ≡ 4
    → failures_of ident clock.failures ≡ n
    → get_row task_id ident clock.tasks ≡ some task
    → get_row task_id ident (fail_passes (suc k) ident clock).tasks ≡ some (disable task)
unfolding fail_passes
fail_passes-disable n zero ident clock task total h found =
    settle_pass-disables ident clock task (omega (arith, h, total)) found
fail_passes-disable n (suc k) ident clock task total h found =
    let (counted, kept) = settle_pass-counts ident n clock h (omega (arith, total)) in
    fail_passes-disable (suc n) k ident (settle_pass clock (broke ident)).0 task
      (omega (arith, total)) counted (ap (get_row task_id ident) kept ∙ found)

-- For a task that the database holds and that has no failed pass on record, five passes in a row
-- that raise at this task leave its row disabled with the attention text and otherwise unchanged.
pub fail_passes_five :
    (ident : ℕ) (clock : Clock) (task : ScheduledTask)
    → failures_of ident clock.failures ≡ 0
    → get_row task_id ident clock.tasks ≡ some task
    → get_row task_id ident (fail_passes 5 ident clock).tasks ≡ some (disable task)
fail_passes_five ident clock task h found = fail_passes-disable 0 4 ident clock task refl h found
