-- ===== src/Jobs/Target.antt =====
-- `target_identity` of app/services/jobs.py: what a queued operation remembers of its target, and
-- the parameters that are stored with it.
use narsika.Base.{
  ℕ, String, ◌≡◌, ◌↔◌, Bool, true, ◌&&◌, Option, none, some, arith, eq_iff, HasEq, ◌==◌, nat_eq,
  text_eq, option_eq, ◌+s◌,
}
use narsika.Models.{Platform, platform_eq, platform_beq_iff, Credential, Device}

-- `credential_revision` is a key of the dictionary only where a credential is assigned.
pub record TargetIdentity : Type 0 where
  pub ip_address : String
  pub ssh_port : ℕ
  pub platform : Platform
  pub credential_id : Option ℕ
  pub credential_revision : Option String

module _ (sha256 : String → String) where
  revision : Option Credential → Option String
  revision none = none
  revision (some profile) = some (sha256 (profile.username +s "\0" +s profile.encrypted_secret))

  -- `sha256` is the hex digest of hashlib.sha256.
  unfoldable pub target_identity : Device → TargetIdentity
  unfolding revision
  target_identity device = record {
    ip_address = device.ip_address;
    ssh_port = device.ssh_port;
    platform = device.platform;
    credential_id = device.credential_id;
    credential_revision = revision device.credential;
  }

abbrev identity_beq : TargetIdentity → TargetIdentity → Bool
identity_beq a b =
    a.ip_address == b.ip_address
    && a.ssh_port == b.ssh_port
    && a.platform == b.platform
    && a.credential_id == b.credential_id
    && a.credential_revision == b.credential_revision

pub identity_beq_iff : (a b : TargetIdentity) → (identity_beq a b ≡ true) ↔ (a ≡ b)
identity_beq_iff a b = ground (
  arith,
  eq_iff a.ip_address b.ip_address,
  platform_beq_iff a.platform b.platform,
  (option_eq {A = ℕ}).same_iff a.credential_id b.credential_id,
  (option_eq {A = String}).same_iff a.credential_revision b.credential_revision,
)

instance abbrev pub identity_eq : HasEq TargetIdentity
identity_eq = record { same = identity_beq; same_iff = identity_beq_iff }
