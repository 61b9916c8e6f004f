-- ===== src/Scheduling/Requests/Tests.antt =====
-- A new daily task is saved twice.
use narsika.Base.{true, Option, none, some, [], ◌∷◌, Result, ok, ◌≡◌, refl, arith}
use narsika.Base.Json.{Json, str, obj, field, end}
use narsika.Models.{Kind, backup}
use narsika.Security.{Fernet}
use narsika.Scheduling.Tests.{utc}
use narsika.Scheduling.Definition.{Saved, ScheduledTask, Calendar}
use narsika.Scheduling.Dispatch.Tests.{owner, saved, key, task, calendar}
use narsika.Scheduling.Requests.{Schedules, Receipt, read_receipt, save}
use narsika.Scheduling.Requests.Retry.{save_retried}

abbrev receipt : Receipt
receipt = record {
  key = "r";
  actor = 1;
  session = 3;
  expires = 300600;
  task_id = none;
  revision = none;
  name = "nightly";
  kind = backup;
  rule = task.rule;
  enabled = true;
  definition = saved;
}

abbrev reviews : Fernet Receipt
reviews = record { seal = λ _. "token"; unseal = λ _. some receipt }

abbrev body : Option Json
body = some (obj (field "review_token" (str "token") end))

abbrev no_tasks : Schedules
no_tasks = record { calendar = calendar; tasks = [] }

abbrev define : Calendar → Kind → Saved → Result Saved
define c kind s = ok s

abbrev row : ScheduledTask
row = record task { id = 1; next_due = some 345600; creation_token = "r"; last_review_token = "r" }

abbrev after : Schedules
after = record {
  calendar = record calendar {
    db = record calendar.db {
      audit_events =
          record {
            actor_id = some 1;
            actor = "ops";
            action = "Scheduled task saved";
            target = "1";
            result = "success";
            detail = "nightly";
          }
          ∷ [];
    };
  };
  tasks = row ∷ [];
}

saves :
    save reviews key (λ _. utc) define (λ a b. true) (some owner) 300000 body no_tasks
    ≡ ok (row, after)
unfolding save
saves = refl

reads : read_receipt reviews body ≡ ok receipt
unfolding read_receipt
reads = refl

save_retried_example :
    save reviews key (λ _. utc) define (λ a b. true) (some owner) 300500 body after
    ≡ ok (row, after)
save_retried_example =
    save_retried reviews key (λ _. utc) define (λ a b. true) (some owner) 300000 300500 body
      no_tasks after receipt row saves reads (omega arith)
