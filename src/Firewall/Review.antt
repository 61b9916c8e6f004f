-- ===== src/Firewall/Review.antt =====
-- The receipt of a review, `FirewallReview` of app/models.py, and the plan that it stores.
use narsika.Base.{ℕ, String, Option}
use narsika.Models.{Status}
use narsika.Firewall.Snapshot.{Plan}

-- The plan of `compile_plan`, with the session of its reviewer.
pub record StoredPlan : Type 0 where
  pub plan : Plan
  pub reviewer_session_version : ℕ

-- The values of the column `status`; the last one is a copy of the status of the run.
pub data ReviewStatus : Type 0 where
  reviewed queued applying verifying : ReviewStatus
  ended : Status → ReviewStatus

-- `expires_at` and the clock are whole seconds here.
pub record Review : Type 0 where
  pub id : String
  pub device_id : ℕ
  pub actor_id : ℕ
  pub encrypted_plan : String
  pub checksum : String
  pub expires_at : ℕ
  pub status : ReviewStatus
  pub run_id : Option ℕ
