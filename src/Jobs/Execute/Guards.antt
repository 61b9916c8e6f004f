-- ===== src/Jobs/Execute/Guards.antt =====
-- An operation reaches its device only if its owner, its target and its schedule still stand.
use native.Mathlib.Omega.{arith}
use narsika.Base.{
  ℕ, String, ◌≡◌, refl, ◌≢◌, ◌⊎◌, true, Option, none, some, Result, ok, err, bind-eq-ok,
}
use narsika.Models.{discovery, success, Kind, User, Device, OperationRun, Db, get_row}
use narsika.Security.{Fernet, decrypt}
use narsika.Jobs.Target.{TargetIdentity, target_identity, identity_beq_iff}
use narsika.Jobs.Queue.{Parameters}
use narsika.Jobs.Execute.{
  may_run, find_device, check_owner, check_session, check_present, check_target, without_identity,
  Performed, guards, run_operation, settle, execute,
}

-- The device of a run, as it is at the moment of the checks.
abbrev pub IsUsable : (String → String) → Kind → Option Device → Option TargetIdentity → Type 0
IsUsable sha256 kind none target = kind ≡ discovery
IsUsable sha256 kind (some device) target =
    ((kind ≡ discovery) ⊎ (device.archived_at ≡ none))
    × (target ≡ some (target_identity sha256 device))

module _ (sha256 : String → String) (key : Fernet Parameters)
    (preflight : Parameters → Option ℕ → Result (Unit {0})) where
  pub record IsAuthorized (db : Db) (run : OperationRun) : Type 0 where
    pub user : User
    pub parameters : Parameters
    pub owner : get_row (λ (u : User). u.id) run.requested_by_id db.users ≡ some user
    pub allowed : may_run user ≡ true
    pub opened : decrypt key run.encrypted_parameters ≡ ok parameters
    pub session :
        (parameters.actor_session_version ≡ none)
        ⊎ (parameters.actor_session_version ≡ some user.session_version)
    pub usable : IsUsable sha256 run.kind (find_device db.devices run.device_id) parameters.target
    pub scheduled :
        preflight (without_identity (find_device db.devices run.device_id) parameters) run.device_id
        ≡ ok tt

  check_session-eq-ok :
      (user : User) (version : Option ℕ)
      → check_session user version ≡ ok tt
      → (version ≡ none) ⊎ (version ≡ some user.session_version)
  unfolding check_session
  check_session-eq-ok user version h = ground arith

  IsUsable-check_target :
      (kind : Kind) (device : Option Device) (target : Option TargetIdentity)
      → check_present kind device ≡ ok tt
      → check_target sha256 device target ≡ ok tt
      → IsUsable sha256 kind device target
  unfolding check_present check_target
  IsUsable-check_target kind none target h k = ground arith
  IsUsable-check_target kind (some device) none h k = ground arith
  IsUsable-check_target kind (some device) (some t) h k =
      ground (arith, identity_beq_iff t (target_identity sha256 device))

  owner_allowed :
      (found : Option User) {user : User}
      → check_owner found ≡ ok user
      → (found ≡ some user) × (may_run user ≡ true)
  unfolding check_owner
  owner_allowed none h = cc
  owner_allowed (some user) h = ground arith

  unit_path : (u : Unit {0}) {m : Result (Unit {0})} → m ≡ ok u → m ≡ ok tt
  unit_path u h = h

  -- The checks pass only for an authorized run.
  pub guards-IsAuthorized :
      (db : Db) (run : OperationRun) {out : Parameters × Option Device}
      → guards sha256 key preflight db run ≡ ok out
      → IsAuthorized db run
  unfolding guards
  guards-IsAuthorized db run h =
      let (user, owned, h₁) = bind-eq-ok (check_owner _) _ h in
      let (parameters, opened, h₂) = bind-eq-ok (decrypt key _) _ h₁ in
      let (_, session, h₃) = bind-eq-ok (check_session user _) _ h₂ in
      let device = find_device db.devices run.device_id in
      let (_, present, h₄) = bind-eq-ok (check_present run.kind device) _ h₃ in
      let (_, target, h₅) = bind-eq-ok (check_target sha256 device parameters.target) _ h₄ in
      let (_, scheduled, _) =
        bind-eq-ok (preflight (without_identity device parameters) run.device_id) _ h₅ in
      let (owner, allowed) =
        owner_allowed (get_row (λ (u : User). u.id) run.requested_by_id db.users) owned in
      record {
        user = user;
        parameters = parameters;
        owner = owner;
        allowed = allowed;
        opened = opened;
        session = check_session-eq-ok user parameters.actor_session_version session;
        usable = IsUsable-check_target run.kind device parameters.target present target;
        scheduled = scheduled;
      }

  module _ (perform perform' : OperationRun → Parameters → Option Device → Performed) where
    run_operation_unauthorized :
        (db : Db) (now : String) (run : OperationRun)
        (checked : Result (Parameters × Option Device))
        → ((out : Parameters × Option Device) → checked ≢ ok out)
        → (run_operation sha256 key preflight perform run checked
            ≡ run_operation sha256 key preflight perform' run checked)
          × ((settle db now (run_operation sha256 key preflight perform run checked)).0.status
              ≢ success)
    unfolding run_operation settle
    run_operation_unauthorized db now run (ok out) h = absurd (h out refl)
    run_operation_unauthorized db now run (err e) h = (refl, ground arith)

    -- A run does not succeed, and its operation is not called (the result is the same whatever the
    -- operation would have done), unless its owner exists, is active, is an operator or
    -- administrator with no password change due and has the session version of the submission, its
    -- parameters decrypt, its device is present and not archived (a discovery needs none), the
    -- target is as it was when the run was queued, and the schedule's check passes.
    pub execute_unauthorized :
        (db : Db) (now : String) (run : OperationRun)
        → ¬ (IsAuthorized db run)
        → (execute sha256 key preflight perform db now run
            ≡ execute sha256 key preflight perform' db now run)
          × ((execute sha256 key preflight perform db now run).0.status ≢ success)
    unfolding execute
    execute_unauthorized db now run h =
        let (same, unsuccessful) =
          run_operation_unauthorized db now run (guards sha256 key preflight db run)
            (λ out passed. h (guards-IsAuthorized db run passed)) in
        ground arith
