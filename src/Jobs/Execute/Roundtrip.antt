-- ===== src/Jobs/Execute/Roundtrip.antt =====
-- A run that is taken up before anything has changed passes the checks.
use narsika.Base.{ℕ, String, ◌≡◌, ◌≢◌, true, false, eqb, Option, none, some, Result, ok, arith}
use narsika.Models.{Kind, User, Device, OperationRun, Db, get_row}
use narsika.Security.{Fernet, encrypt, decrypt-encrypt}
use narsika.Jobs.Target.{target_identity, identity_beq_iff}
use narsika.Jobs.Queue.{Parameters, insert_run, enqueue}
use narsika.Jobs.Execute.{may_run, without_schedule, guards}

-- The parameters as `enqueue` completes them for this owner and this target.
abbrev pub completed : (String → String) → User → Device → Parameters → Parameters
completed sha256 user device p = record p {
  target = some (target_identity sha256 device);
  actor_session_version = some user.session_version;
}

-- The parameters of the caller, with which the schedule's check is called.
abbrev pub unsigned : Parameters → Parameters
unsigned p = record p { target = none; actor_session_version = none }

module _ (sha256 : String → String) (key : Fernet Parameters) where
  -- The columns that the checks read, as the INSERT left them.
  abbrev pub Stored : ℕ → Kind → ℕ → Parameters → Db → OperationRun → Db → Type 0
  Stored ident kind user_id p db run db' =
      (run.kind ≡ kind)
      × (run.device_id ≡ some ident)
      × (run.requested_by_id ≡ user_id)
      × (run.encrypted_parameters ≡ encrypt key p)
      × (db'.users ≡ db.users)
      × (db'.devices ≡ db.devices)

  insert_run-Stored :
      (now : String) (kind : Kind) (ident user_id : ℕ) (db : Db) (p : Parameters)
      {run : OperationRun} {db' : Db}
      → insert_run sha256 key now kind (some ident) user_id db p ≡ ok (run, db')
      → Stored ident kind user_id p db run db'
  unfolding insert_run
  insert_run-Stored now kind ident user_id db p e = ground arith

  module _ (ident user_id : ℕ) (db : Db) (user : User) (device : Device) (positive : ident ≢ 0)
      (known : get_row (λ (d : Device). d.id) ident db.devices ≡ some device)
      (owner : get_row (λ (u : User). u.id) user_id db.users ≡ some user) where
    enqueue-Stored :
        (now : String) (kind : Kind) (p : Parameters) {run : OperationRun} {db' : Db}
        → enqueue sha256 key now kind (some ident) user_id p db ≡ ok (run, db')
        → Stored ident kind user_id (completed sha256 user device p) db run db'
    unfolding enqueue
    enqueue-Stored now kind p {run} {db'} e =
        insert_run-Stored now kind ident user_id db (completed sha256 user device p) {run = run}
          {db' = db'} (ground arith)

    module _ (preflight : Parameters → Option ℕ → Result (Unit {0}))
        (live : device.archived_at ≡ none) (allowed : may_run user ≡ true) where
      guards_pass :
          (kind : Kind) (p : Parameters) (db' : Db) (run : OperationRun)
          → Stored ident kind user_id (completed sha256 user device p) db run db'
          → key.unseal (key.seal (completed sha256 user device p))
            ≡ some (completed sha256 user device p)
          → preflight (unsigned p) (some ident) ≡ ok tt
          → guards sha256 key preflight db' run ≡ ok (without_schedule (unsigned p), some device)
      unfolding guards without_schedule
      guards_pass kind p db' run (_, on, by, holds, users, devices) opens flight =
          let other : eqb ident 0 ≡ false = ground arith in
          rw
            (
              on,
              by,
              holds,
              users,
              devices,
              owner,
              allowed,
              decrypt-encrypt key _ opens,
              other,
              known,
            )
            (rw flight (
              ground (
                arith,
                identity_beq_iff (target_identity sha256 device) (target_identity sha256 device),
              )))

      -- A run of an authorized owner on a live device that is taken up while its owner and its
      -- device are as they were when it was queued passes the checks, and its operation is called
      -- with the parameters that the caller gave to enqueue, less the keys of the schedule, where
      -- the stored token opens to the parameters that enqueue completed and the schedule's check
      -- passes.
      pub guards-enqueue :
          (now : String) (kind : Kind) (p : Parameters) {run : OperationRun} {db' : Db}
          → key.unseal (key.seal (completed sha256 user device p))
            ≡ some (completed sha256 user device p)
          → preflight (unsigned p) (some ident) ≡ ok tt
          → enqueue sha256 key now kind (some ident) user_id p db ≡ ok (run, db')
          → guards sha256 key preflight db' run ≡ ok (without_schedule (unsigned p), some device)
      guards-enqueue now kind p {run} {db'} opens flight e =
          guards_pass kind p db' run (enqueue-Stored now kind p e) opens flight
