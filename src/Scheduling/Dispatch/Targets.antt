-- ===== src/Scheduling/Dispatch/Targets.antt =====
-- The loop of `dispatch` of app/services/scheduling.py over the targets of a task.
use mathlib.Core.List.{append-nil, append_assoc}
use narsika.Base.{
  ℕ, ◌+◌, String, some, List, [], ◌∷◌, ◌++◌, length, Result, ok, ◌≡◌, refl, sym, ap, ◌∙◌, arith,
  Returns-ok, bind-eq-ok,
}
use narsika.Base.Json.{Json}
use narsika.Models.{Kind, Device, OperationRun, pending}
use narsika.Security.{Fernet}
use narsika.Jobs.Queue.{Parameters, active_count, enqueue}
use narsika.Jobs.Queue.Capacity.{enqueue-Queued}
use narsika.Jobs.Queue.Filed.{Filed, enqueue-Filed}
use narsika.Scheduling.Definition.{Target, Saved, Book, ScheduledTask, Calendar, ScheduleRun}
use narsika.Scheduling.Dispatch.{submit, task_parameters}

module _ (sha256 : String → String) (run_key : Fernet Parameters) (task : ScheduledTask)
    (parameters : Json) (occurrence_id : ℕ) where
  -- The run and the link of one target.
  pub record IsSubmitted (target : Target) (run : OperationRun) (link : ScheduleRun) : Type 0 where
    pub waits : run.status ≡ pending
    pub filed :
        Filed sha256 run_key task.kind
          (some target.id)
          task.owner_id
          (task_parameters task parameters)
          run
    pub names : link ≡ (record {
      occurrence_id = occurrence_id;
      device_id = target.id;
      device_name = target.name;
      run_id = run.id;
    })

  -- One run and one link for each target, in the order of the targets.
  abbrev pub AreSubmitted : List Target → List OperationRun → List ScheduleRun → Type 0
  AreSubmitted [] [] [] = Unit
  AreSubmitted (target ∷ targets) (run ∷ runs) (link ∷ links) =
      IsSubmitted target run link × AreSubmitted targets runs links
  AreSubmitted targets runs links = ⊥

  -- The tables have the rows of the targets more, behind those that were there, and the queue as
  -- many active runs more.
  pub record Submitted (targets : List Target) (before after : Calendar) : Type 0 where
    pub runs : List OperationRun
    pub links : List ScheduleRun
    pub appended : after.db.runs ≡ before.db.runs ++ runs
    pub linked : after.links ≡ before.links ++ links
    pub matched : AreSubmitted targets runs links
    pub active : active_count after.db.runs ≡ active_count before.db.runs + length targets

  Submitted-none : (before : Calendar) → Submitted [] before before
  Submitted-none before = record {
    runs = [];
    links = [];
    appended = sym (append-nil before.db.runs);
    linked = sym (append-nil before.links);
    matched = tt;
    active = omega arith;
  }

  Submitted-add :
      (target : Target) (targets : List Target) (run : OperationRun) (link : ScheduleRun)
      (before next after : Calendar)
      → IsSubmitted target run link
      → next.db.runs ≡ before.db.runs ++ run ∷ []
      → next.links ≡ before.links ++ link ∷ []
      → active_count next.db.runs ≡ active_count before.db.runs + 1
      → Submitted targets next after
      → Submitted (target ∷ targets) before after
  Submitted-add target targets run link before next after one runs links active rest = record {
    runs = run ∷ rest.runs;
    links = link ∷ rest.links;
    appended =
        rest.appended
        ∙ (ap (λ (r : List OperationRun). r ++ rest.runs) runs
            ∙ append_assoc before.db.runs (run ∷ []) rest.runs);
    linked =
        rest.linked
        ∙ (ap (λ (l : List ScheduleRun). l ++ rest.links) links
            ∙ append_assoc before.links (link ∷ []) rest.links);
    matched = (one, rest.matched);
    active = omega (arith, rest.active, active);
  }

module _ (sha256 : String → String) (content : Book → String)
    (prepare : Kind → Device → Json → Result (Unit {0})) (key : Fernet Saved)
    (run_key : Fernet Parameters) (now : String) where
  pub submit-Submitted :
      (task : ScheduledTask) (parameters : Json) (occurrence_id : ℕ) (targets : List Target)
      (before : Calendar) {after : Calendar}
      → submit sha256 content prepare key run_key now task parameters occurrence_id targets before
        ≡ ok after
      → Submitted sha256 run_key task parameters occurrence_id targets before after
        × (after.occurrences ≡ before.occurrences)
  unfolding submit
  submit-Submitted task parameters occurrence_id [] before {after} h =
      Returns-ok
        (λ (c : Calendar).
          Submitted sha256 run_key task parameters occurrence_id [] before c
          × (c.occurrences ≡ before.occurrences))
        (ok before) (Submitted-none sha256 run_key task parameters occurrence_id before, refl) h
  submit-Submitted task parameters occurrence_id (target ∷ targets) before {after} h =
      let asked = task_parameters task parameters in
      let (reply, done, h₁) =
        bind-eq-ok
          (enqueue sha256 run_key now task.kind (some target.id) task.owner_id asked before.db) _
          h in
      let (waits, appended, active, _) =
        enqueue-Queued sha256 run_key now task.kind (some target.id) task.owner_id asked before.db
          done in
      let filed =
        enqueue-Filed sha256 run_key now task.kind (some target.id) task.owner_id asked before.db
          done in
      let link : ScheduleRun = record {
        occurrence_id = occurrence_id;
        device_id = target.id;
        device_name = target.name;
        run_id = reply.0.id;
      } in
      let next : Calendar = record before { db = reply.1; links = before.links ++ link ∷ [] } in
      let (rest, same) = submit-Submitted task parameters occurrence_id targets next h₁ in
      (
        Submitted-add sha256 run_key task parameters occurrence_id target targets reply.0 link
            before next after (record { waits = waits; filed = filed; names = refl }) appended refl
            active rest,
        same,
      )
