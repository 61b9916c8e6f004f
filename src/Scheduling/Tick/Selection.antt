-- ===== src/Scheduling/Tick/Selection.antt =====
-- The query of `tick` of app/services/scheduling.py, and the tasks that are due.
use mathlib.Core.Path.{subst}
use narsika.Base.{
  ℕ, zero, suc, ◌≤◌, Bool, true, false, List, [], ◌∷◌, All, filter, count, length, ◌≡◌, ◌⊎◌, inl,
  inr, refl, ap, ◌∙◌, arith, if_ind,
}
use narsika.Scheduling.Definition.{ScheduledTask}
use narsika.Scheduling.Tick.{earlier, is_due_task, insert_task, sort_tasks, take_tasks, due_tasks}

All-insert_task :
    (P : ScheduledTask → Type 0) (task : ScheduledTask) (tasks : List ScheduledTask)
    → All P (insert_task task tasks)
    → P task × All P tasks
unfolding insert_task
All-insert_task P task [] h = h
All-insert_task P task (other ∷ rest) h =
    if_ind (λ (l : List ScheduledTask). All P l → P task × All P (other ∷ rest))
      (earlier task other) (λ _ k. k)
      (λ _ k. let (one, others) = All-insert_task P task rest k.1 in (one, (k.0, others))) h

All-sort_tasks :
    (P : ScheduledTask → Type 0) (tasks : List ScheduledTask)
    → All P (sort_tasks tasks)
    → All P tasks
unfolding sort_tasks
All-sort_tasks P [] h = tt
All-sort_tasks P (task ∷ rest) h =
    let (one, others) = All-insert_task P task (sort_tasks rest) h in
    (one, All-sort_tasks P rest others)

length-insert_task :
    (task : ScheduledTask) (tasks : List ScheduledTask)
    → length (insert_task task tasks) ≡ suc (length tasks)
unfolding insert_task
length-insert_task task [] = refl
length-insert_task task (other ∷ rest) =
    if_ind (λ (l : List ScheduledTask). length l ≡ suc (suc (length rest))) (earlier task other)
      (λ _. refl) (λ _. ap suc (length-insert_task task rest))

length-sort_tasks : (tasks : List ScheduledTask) → length (sort_tasks tasks) ≡ length tasks
unfolding sort_tasks
length-sort_tasks [] = refl
length-sort_tasks (task ∷ rest) =
    length-insert_task task (sort_tasks rest) ∙ ap suc (length-sort_tasks rest)

take_tasks-all :
    (n : ℕ) (tasks : List ScheduledTask) → length tasks ≤ n → take_tasks n tasks ≡ tasks
unfolding take_tasks
take_tasks-all zero [] h = refl
take_tasks-all zero (task ∷ rest) h = absurd (omega (arith, h))
take_tasks-all (suc n) [] h = refl
take_tasks-all (suc n) (task ∷ rest) h =
    ap (λ (l : List ScheduledTask). task ∷ l) (take_tasks-all n rest (omega (arith, h)))

length-filter :
    (p : ScheduledTask → Bool) (tasks : List ScheduledTask)
    → length (filter p tasks) ≡ count p tasks
length-filter p [] = refl
length-filter p (task ∷ rest) = ground (arith, length-filter p rest)

All-filter :
    (P : ScheduledTask → Type 0) (p : ScheduledTask → Bool) (tasks : List ScheduledTask)
    → All P (filter p tasks)
    → All (λ (t : ScheduledTask). (p t ≡ false) ⊎ P t) tasks
All-filter P p [] h = tt
All-filter P p (task ∷ rest) h = pick (p task) refl (All-filter P p rest) h
  where
    pick :
        (b : Bool)
        → p task ≡ b
        → (All P (filter p rest) → All (λ (t : ScheduledTask). (p t ≡ false) ⊎ P t) rest)
        → All P (elim b as (λ _. List ScheduledTask) [
          | true ↦ task ∷ filter p rest
          | false ↦ filter p rest
        ])
        → All (λ (t : ScheduledTask). (p t ≡ false) ⊎ P t) (task ∷ rest)
    pick true e others h = (inr h.0, others h.1)
    pick false e others h = (inl e, others h)

-- Where at most 50 tasks are due, what holds of the selected tasks holds of all that are due.
pub All-due_tasks :
    (P : ScheduledTask → Type 0) (moment : ℕ) (tasks : List ScheduledTask)
    → count (is_due_task moment) tasks ≤ 50
    → All P (due_tasks moment tasks)
    → All (λ (t : ScheduledTask). (is_due_task moment t ≡ false) ⊎ P t) tasks
unfolding due_tasks
All-due_tasks P moment tasks few h =
    let due = filter (is_due_task moment) tasks in
    let short : length (sort_tasks due) ≤ 50 =
      omega (arith, few, length-filter (is_due_task moment) tasks, length-sort_tasks due) in
    All-filter P (is_due_task moment) tasks
      (All-sort_tasks P due (subst (All P) (take_tasks-all 50 (sort_tasks due) short) h))
