-- ===== src/Jobs/Queue/Filed.antt =====
-- What the row of a new run holds, by `enqueue` of app/services/jobs.py.
use narsika.Base.{ℕ, String, Option, none, some, List, ◌≡◌, arith, ok, bind-eq-ok}
use narsika.Models.{Kind, User, Device, OperationRun, Db, get_row}
use narsika.Security.{Fernet, encrypt}
use narsika.Jobs.Queue.{Parameters, add_target, add_actor, insert_run, enqueue}

-- The keys of the caller, which `enqueue` leaves as they are.
abbrev pub KeepsRequest : Parameters → Parameters → Type 0
KeepsRequest p q =
    (q.request ≡ p.request)
    × (q.scheduled_task ≡ p.scheduled_task)
    × (q.schedule_revision ≡ p.schedule_revision)

add_target-KeepsRequest :
    (sha256 : String → String) (devices : List Device) (ident : Option ℕ) (p : Parameters)
    {q : Parameters}
    → add_target sha256 devices ident p ≡ ok q
    → KeepsRequest p q
unfolding add_target
add_target-KeepsRequest sha256 devices none p h = ground arith
add_target-KeepsRequest sha256 devices (some ident) p h = ground arith

add_actor-KeepsRequest :
    (user : Option User) (p q : Parameters) → KeepsRequest p q → KeepsRequest p (add_actor user q)
unfolding add_actor
add_actor-KeepsRequest none p q h = h
add_actor-KeepsRequest (some user) p q h = h

module _ (sha256 : String → String) (key : Fernet Parameters) where
  -- The columns of the row that say what it was queued for, with the sealed parameters.
  pub record Filed (kind : Kind) (device : Option ℕ) (user : ℕ) (p : Parameters)
      (run : OperationRun) : Type 0 where
    pub on_kind : run.kind ≡ kind
    pub on_device : run.device_id ≡ device
    pub by_owner : run.requested_by_id ≡ user
    pub sealed : Parameters
    pub holds : run.encrypted_parameters ≡ encrypt key sealed
    pub request : KeepsRequest p sealed

  insert_run-columns :
      (now : String) (kind : Kind) (device : Option ℕ) (user : ℕ) (db : Db) (p : Parameters)
      {run : OperationRun} {db' : Db}
      → insert_run sha256 key now kind device user db p ≡ ok (run, db')
      → (run.kind ≡ kind)
        × (run.device_id ≡ device)
        × (run.requested_by_id ≡ user)
        × (run.encrypted_parameters ≡ encrypt key p)
  unfolding insert_run
  insert_run-columns now kind device user db p e = ground arith

  pub enqueue-Filed :
      (now : String) (kind : Kind) (device : Option ℕ) (user : ℕ) (p : Parameters) (db : Db)
      {run : OperationRun} {db' : Db}
      → enqueue sha256 key now kind device user p db ≡ ok (run, db')
      → Filed kind device user p run
  unfolding enqueue
  enqueue-Filed now kind device user p db e =
      let (targeted, same, inserted) = bind-eq-ok (add_target sha256 db.devices device p) _ e in
      let owner = get_row (λ (u : User). u.id) user db.users in
      let (k, d, u, holds) = insert_run-columns now kind device user db _ inserted in
      record {
        on_kind = k;
        on_device = d;
        by_owner = u;
        sealed = add_actor owner targeted;
        holds = holds;
        request =
            add_actor-KeepsRequest owner p targeted
              (add_target-KeepsRequest sha256 db.devices device p same);
      }
