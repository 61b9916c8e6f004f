-- ===== src/Firewall/Execute/Safety.antt =====
-- When `execute` of app/services/firewall.py sends commands.
use narsika.Base.{
  ℕ, String, true, false, ◌&&◌, ◌||◌, Option, none, some, List, [], ◌∷◌, ltb, ◌!=◌, nat_eq, text_eq,
  option_eq, Result, ok, err, fail_if, ◌≡◌, refl, arith, Returns-ok, bind-eq-ok, fail_if-Returns,
}
use narsika.Models.{role_eq, admin, AuditEvent}
use narsika.Security.{Fernet, decrypt}
use narsika.Jobs.Target.{identity_eq, target_identity}
use narsika.Firewall.Snapshot.{Snapshot, Plan}
use narsika.Firewall.Review.{StoredPlan, Review}
use narsika.Firewall.Execute.{
  Answer, gave, refused, broke, World, Request, is_high, open_receipt, is_allowed, check_rows,
  depart, check_receipt, recheck, back_up, compare_state, hold_lock, execute, proceed,
  started_output, starting_event, integrity_error, expired_error, admin_error,
}

-- What held when the commands were sent.
pub record IsCleared (sha256 : String → String) (plan : Plan) (session : Option ℕ) (world : World)
    : Type 0 where
  pub before : Snapshot
  pub read : world.before ≡ gave before
  pub reviewed : before.fingerprint ≡ plan.baseline.fingerprint
  pub backup : ℕ
  pub saved : world.backup ≡ gave backup
  pub again : Snapshot
  pub reread : world.again ≡ gave again
  pub unchanged : again.fingerprint ≡ before.fingerprint
  pub allowed : is_allowed world.user session ≡ true
  pub target : target_identity sha256 world.device ≡ plan.target
  pub present : world.device.archived_at ≡ none
  pub wanted : world.run.cancel_requested ≡ false

check_rows-ok :
    (sha256 : String → String) (plan : Plan) (session : Option ℕ) (world : World)
    → check_rows sha256 plan session world ≡ ok tt
    → (is_allowed world.user session ≡ true)
      × (target_identity sha256 world.device ≡ plan.target)
      × (world.device.archived_at ≡ none)
unfolding check_rows
check_rows-ok sha256 plan session world h =
    ground (arith, identity_eq.same_iff (target_identity sha256 world.device) plan.target)

record IsUnchanged (sha256 : String → String) (plan : Plan) (session : Option ℕ) (before : Snapshot)
    (world : World) (answer : Answer Snapshot) : Type 0 where
  again : Snapshot
  reread : answer ≡ gave again
  unchanged : again.fingerprint ≡ before.fingerprint
  checked : check_rows sha256 plan session world ≡ ok tt
  wanted : world.run.cancel_requested ≡ false

recheck-sent :
    (sha256 : String → String) (plan : Plan) (session : Option ℕ) (before : Snapshot)
    (world : World) (row : Review) (events : List AuditEvent) (answer : Answer Snapshot)
    → (recheck sha256 plan session before world row events answer).sent ≡ true
    → IsUnchanged sha256 plan session before world answer
unfolding recheck depart
recheck-sent sha256 plan session before world row events (refused e) h = absurd cc
recheck-sent sha256 plan session before world row events broke h = absurd cc
recheck-sent sha256 plan session before world row events (gave again) h =
    let facts = go h in
    record {
      again = again;
      reread = refl;
      unchanged = facts.0;
      checked = facts.1;
      wanted = facts.2;
    }
  where
    go :
        (recheck sha256 plan session before world row events (gave again)).sent ≡ true
        → (again.fingerprint ≡ before.fingerprint)
          × (check_rows sha256 plan session world ≡ ok tt)
          × (world.run.cancel_requested ≡ false)
    go h = ground (arith, text_eq.same_iff again.fingerprint before.fingerprint)

-- The world of the second half: the run has its first output.
abbrev noted : World → ℕ → Review → World
noted world backup row = record world {
  run = record world.run { output = started_output backup row };
}

compare_state-sent :
    (sha256 : String → String) (plan : Plan) (req : Request) (world : World) (row : Review)
    (before : Snapshot) (backup : ℕ)
    → before.fingerprint ≡ plan.baseline.fingerprint
    → world.before ≡ gave before
    → world.backup ≡ gave backup
    → IsUnchanged sha256 plan req.session before (noted world backup row) world.again
    → IsCleared sha256 plan req.session world
compare_state-sent sha256 plan req world row before backup reviewed read saved h =
    let (allowed, target, present) =
      check_rows-ok sha256 plan req.session (noted world backup row) h.checked in
    record {
      before = before;
      read = read;
      reviewed = reviewed;
      backup = backup;
      saved = saved;
      again = h.again;
      reread = h.reread;
      unchanged = h.unchanged;
      allowed = allowed;
      target = target;
      present = present;
      wanted = h.wanted;
    }

back_up-sent :
    (sha256 : String → String) (plan : Plan) (req : Request) (before : Snapshot) (world : World)
    (row : Review) (answer : Answer ℕ)
    → (back_up sha256 plan req before world row answer).sent ≡ true
    → (backup : ℕ) × (answer ≡ gave backup)
      × IsUnchanged sha256 plan req.session before (noted world backup row) world.again
unfolding back_up
back_up-sent sha256 plan req before world row (refused e) h = absurd cc
back_up-sent sha256 plan req before world row broke h = absurd cc
back_up-sent sha256 plan req before world row (gave backup) h = (
  backup,
  refl,
  recheck-sent sha256 plan req.session before (noted world backup row) row
      (starting_event req world.users backup row ∷ []) world.again h,
)

compare_state-IsCleared :
    (sha256 : String → String) (plan : Plan) (req : Request) (world : World) (row : Review)
    (answer : Answer Snapshot)
    → world.before ≡ answer
    → (compare_state sha256 plan req world row answer).sent ≡ true
    → IsCleared sha256 plan req.session world
unfolding compare_state
compare_state-IsCleared sha256 plan req world row (refused e) read h = absurd cc
compare_state-IsCleared sha256 plan req world row broke read h = absurd cc
compare_state-IsCleared sha256 plan req world row (gave before) read h =
    let (reviewed, sent) = go h in
    let (backup, saved, unchanged) =
      back_up-sent sha256 plan req before world row world.backup sent in
    compare_state-sent sha256 plan req world row before backup reviewed read saved unchanged
  where
    go :
        (compare_state sha256 plan req world row (gave before)).sent ≡ true
        → (before.fingerprint ≡ plan.baseline.fingerprint)
          × ((back_up sha256 plan req before world row world.backup).sent ≡ true)
    go h = ground (arith, text_eq.same_iff before.fingerprint plan.baseline.fingerprint)

hold_lock-IsCleared :
    (sha256 : String → String) (plan : Plan) (req : Request) (world : World) (row : Review)
    (answer : Answer (Unit {0}))
    → (hold_lock sha256 plan req world row answer).sent ≡ true
    → IsCleared sha256 plan req.session world
unfolding hold_lock
hold_lock-IsCleared sha256 plan req world row (refused e) h = absurd cc
hold_lock-IsCleared sha256 plan req world row broke h = absurd cc
hold_lock-IsCleared sha256 plan req world row (gave done) h =
    compare_state-IsCleared sha256 plan req world row world.before refl h

-- The receipt belongs to the run, is whole and is not expired, and its risk is within the role.
pub record IsOpened (key : Fernet StoredPlan) (digest : StoredPlan → String) (clock : ℕ)
    (receipt : Option Review) (req : Request) (row : Review) (stored : StoredPlan) : Type 0 where
  pub found : receipt ≡ some row
  pub owner : row.run_id ≡ some req.run.id
  pub opened : decrypt key row.encrypted_plan ≡ ok stored
  pub whole : digest stored ≡ row.checksum
  pub fresh : ltb row.expires_at clock ≡ false
  pub session : req.session ≡ some req.user.session_version
  pub role : is_high stored.plan.risk ≡ true → req.user.role ≡ admin

module _ (key : Fernet StoredPlan) (digest : StoredPlan → String) (clock : ℕ) where
  check_receipt-ok :
      (receipt : Option Review) (ident : ℕ) {row : Review}
      → check_receipt receipt ident ≡ ok row
      → (receipt ≡ some row) × (row.run_id ≡ some ident)
  unfolding check_receipt
  check_receipt-ok none ident h = absurd cc
  check_receipt-ok (some found) ident h =
      ground (arith, (option_eq {A = ℕ}).same_iff found.run_id (some ident))

  open_receipt-IsOpened :
      (receipt : Option Review) (req : Request) {opened : Review × StoredPlan}
      → open_receipt key digest clock receipt req ≡ ok opened
      → IsOpened key digest clock receipt req opened.0 opened.1
  unfolding open_receipt
  open_receipt-IsOpened receipt req {opened} h =
      let (row, received, h₁) = bind-eq-ok (check_receipt receipt req.run.id) _ h in
      let (stored, decrypted, h₂) = bind-eq-ok (decrypt key row.encrypted_plan) _ h₁ in
      let broken = digest stored != row.checksum in
      let late = ltb row.expires_at clock || req.session != some req.user.session_version in
      let barred = is_high stored.plan.risk && req.user.role != admin in
      let (_, whole, h₃) = bind-eq-ok (fail_if broken integrity_error) _ h₂ in
      let (_, fresh, h₄) = bind-eq-ok (fail_if late expired_error) _ h₃ in
      let (_, role, h₅) = bind-eq-ok (fail_if barred admin_error) _ h₄ in
      let (found, owner) = check_receipt-ok receipt req.run.id received in
      let (in_time, session) =
        check_time row (Returns-ok _ _ (fail_if-Returns late expired_error) fresh) in
      Returns-ok (λ (o : Review × StoredPlan). IsOpened key digest clock receipt req o.0 o.1) (ok _)
        (record {
          found = found;
          owner = owner;
          opened = decrypted;
          whole =
              check_digest row stored
                (Returns-ok _ _ (fail_if-Returns broken integrity_error) whole);
          fresh = in_time;
          session = session;
          role = check_role stored (Returns-ok _ _ (fail_if-Returns barred admin_error) role);
        })
        h₅
    where
      check_digest :
          (row : Review) (stored : StoredPlan)
          → digest stored != row.checksum ≡ false
          → digest stored ≡ row.checksum
      check_digest row stored h = ground (arith, text_eq.same_iff (digest stored) row.checksum)

      check_time :
          (row : Review)
          → ltb row.expires_at clock || req.session != some req.user.session_version ≡ false
          → (ltb row.expires_at clock ≡ false) × (req.session ≡ some req.user.session_version)
      check_time row h =
          ground (arith, (option_eq {A = ℕ}).same_iff req.session (some req.user.session_version))

      check_role :
          (stored : StoredPlan)
          → is_high stored.plan.risk && req.user.role != admin ≡ false
          → is_high stored.plan.risk ≡ true
          → req.user.role ≡ admin
      check_role stored h high = ground (arith, role_eq.same_iff req.user.role admin)

-- Where a firewall run sends its commands, the receipt belongs to the run, its plan opens and has
-- the stored checksum, it is not expired, and a HIGH or LOCKOUT plan has an administrator; the
-- state read under the lock has the fingerprint of the reviewed state, a backup was taken, a
-- second reading has that fingerprint too, and after that the account is still active, allowed and
-- in the session of the request, the device is not archived and has the planned target, and no
-- cancellation was requested.
pub execute_sent :
    (sha256 : String → String) (key : Fernet StoredPlan) (digest : StoredPlan → String) (clock : ℕ)
    (world : World) (receipt : Option Review) (req : Request)
    → (execute sha256 key digest clock world receipt req).sent ≡ true
    → (row : Review) × (stored : StoredPlan) × IsOpened key digest clock receipt req row stored
      × IsCleared sha256 stored.plan req.session world
unfolding execute proceed
execute_sent sha256 key digest clock world receipt req h =
    go (open_receipt key digest clock receipt req) refl h
  where
    go :
        (answer : Result (Review × StoredPlan))
        → open_receipt key digest clock receipt req ≡ answer
        → (proceed sha256 world receipt req answer).sent ≡ true
        → (row : Review) × (stored : StoredPlan) × IsOpened key digest clock receipt req row stored
          × IsCleared sha256 stored.plan req.session world
    go (err e) opened h = absurd cc
    go (ok (row, stored)) opened h = (
      row,
      stored,
      open_receipt-IsOpened key digest clock receipt req opened,
      hold_lock-IsCleared sha256 stored.plan req world row world.lock h,
    )
