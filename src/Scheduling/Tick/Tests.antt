-- ===== src/Scheduling/Tick/Tests.antt =====
-- A task that is due, one that is late, and one that keeps failing.
use narsika.Base.{ℕ, some, [], ◌∷◌, map, length, ◌≡◌, refl}
use narsika.Scheduling.Definition.{ScheduledTask}
use narsika.Scheduling.Tick.{Clock, failures_of, tick}
use narsika.Scheduling.Tick.Ticked.{IsTicked, tick-IsTicked}
use narsika.Scheduling.Tick.Quarantine.{task_id, fail_passes, disable, fail_passes_five}
use narsika.Models.{get_row}
use narsika.Scheduling.Dispatch.Tests.{sha, content, prepare, key, run_key, task, calendar}
use narsika.Scheduling.Tests.{utc}

abbrev clock : Clock
clock = record { tasks = task ∷ []; calendar = calendar; failures = [] }

abbrev after : ℕ → Clock
after moment = (tick sha content prepare key run_key "t0" utc moment clock).0

-- Ten seconds late, both targets are submitted, and the task waits for the next day.
on_time :
    (length (after 259210).calendar.db.runs ≡ 2)
    × (map (λ (t : ScheduledTask). t.next_due) (after 259210).tasks ≡ some 345600 ∷ [])
unfolding tick
on_time = (refl, refl)

-- A hundred seconds late, nothing is submitted.
too_late :
    (length (after 259300).calendar.db.runs ≡ 0)
    × (map (λ (t : ScheduledTask). t.next_due) (after 259300).tasks ≡ some 345600 ∷ [])
unfolding tick
too_late = (refl, refl)

keyed : get_row task_id task.id clock.tasks ≡ some task
unfolding get_row
keyed = refl

tick-IsTicked_example :
    IsTicked sha content prepare key run_key "t0" utc 259210 clock
      (tick sha content prepare key run_key "t0" utc 259210 clock)
tick-IsTicked_example =
    tick-IsTicked sha content prepare key run_key "t0" utc 259210 clock (tt, tt) (keyed, tt)

fail_passes_five_example :
    get_row task_id task.id (fail_passes 5 task.id clock).tasks ≡ some (disable task)
unfolding failures_of get_row
fail_passes_five_example = fail_passes_five task.id clock task refl refl
