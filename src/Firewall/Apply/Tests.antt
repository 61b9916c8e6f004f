-- ===== src/Firewall/Apply/Tests.antt =====
-- One review of a router, applied once.
use narsika.Base.{
  arith, map, ◌≤◌, String, true, false, none, some, [], ◌∷◌, count, ◌==◌, text_eq, Result, ok, ◌≡◌,
  refl,
}
use narsika.Base.Json.{Json, str, bool, obj, field, end}
use narsika.Models.{User, operator, new_id}
use narsika.Security.{Fernet}
use narsika.Jobs.Queue.{Parameters}
use narsika.Firewall.Compile.{compile_plan}
use narsika.Firewall.Review.{StoredPlan, Review, reviewed, applying}
use narsika.Firewall.Apply.{Tables, Reply, reused, apply_review}
use narsika.Firewall.Apply.History.{
  History, unused, applied, reported, set_status, apply_review_once,
}
use narsika.Firewall.Tests.{hash, router, modest_plan}

abbrev stored : StoredPlan
stored = record { plan = modest_plan; reviewer_session_version = 3 }

abbrev plan_key : Fernet StoredPlan
plan_key = record { seal = λ _. "plan"; unseal = λ _. some stored }

abbrev checksum : StoredPlan → String
checksum plan = "0123456789abcdef"

abbrev key : Fernet Parameters
key = record { seal = λ _. "token"; unseal = λ _. none }

abbrev review : Review
review = record {
  id = "r";
  device_id = 1;
  actor_id = 1;
  encrypted_plan = "plan";
  checksum = "0123456789abcdef";
  expires_at = 600;
  status = reviewed;
  run_id = none;
}

abbrev reviewer : User
reviewer = record {
  id = 1;
  username = "ops";
  role = operator;
  password = "";
  password_hash = "scrypt";
  name = "";
  must_change_password = false;
  disabled_at = none;
  session_version = 3;
}

abbrev tables : Tables
tables = record {
  db = record { users = reviewer ∷ []; devices = router ∷ []; runs = []; audit_events = [] };
  reviews = review ∷ [];
}

abbrev body : Json
body = obj (
    field "checksum" (str "0123456789abcdef") (
      field "target_confirmed" (bool true) (
        field "source_confirmed" (bool true) (
          field "risk_ack" (bool true)
            (field "recovery_saved" (bool true) (field "no_rollback_ack" (bool true) end))))))

abbrev reply_or : Result (Reply × Tables) → Reply × Tables
reply_or (ok reply) = reply
reply_or _ = (reused 0, tables)

abbrev reply : Reply × Tables
reply = reply_or (
    apply_review hash plan_key checksum key "t0" 100 true reviewer (some review) (some body) tables)

-- The first request is answered with the new run.
reply_ok :
    apply_review hash plan_key checksum key "t0" 100 true reviewer (some review) (some body) tables
    ≡ ok (reply.0, reply.1)
unfolding apply_review compile_plan new_id
reply_ok = refl

one_row : count (λ (r : Review). r.id == "r") tables.reviews ≤ 1
one_row = omega arith

-- Then the run reports its status.
abbrev reported_tables : Tables
reported_tables = record reply.1 { reviews = map (set_status "r" applying) reply.1.reviews }

history : History hash plan_key checksum key "r" tables 1 reported_tables
unfolding apply_review compile_plan
history =
    applied "t0" 100 true reviewer review (some body) reply.0 reply_ok
      (reported "r" applying refl unused)

apply_review_once_example : 1 ≤ 1
apply_review_once_example = apply_review_once hash plan_key checksum key "r" one_row history
