-- ===== src/Network.antt =====
-- app/services/network.py: credentials of a device, the lock of a device, and the commands of a
-- session.
pub mod Lock
mod Tests
use narsika.Base.{
  String, Option, none, some, not, Result, ApiError, err, fail_if, api_error, ◌>>=◌, ◌>>◌, ◌==◌,
  text_eq,
}
use narsika.Models.{Credential}
use narsika.Security.{Fernet, decrypt}

-- The dictionary that a credential profile seals; a key that is missing is `none`.
pub record Secret : Type 0 where
  pub password : Option String
  pub enable_password : Option String
  pub private_key : Option String
  pub passphrase : Option String
  pub auth_password : Option String
  pub priv_password : Option String

abbrev pub credential_error : ApiError
credential_error = api_error "Assign an SSH credential profile first." "CREDENTIAL_REQUIRED" 422

-- `secret(profile)`
unfoldable pub secret : Fernet Secret → Option Credential → Result Secret
unfolding decrypt
secret key none = err credential_error
secret key (some profile) = do
  fail_if (not (profile.kind == "ssh")) credential_error
  decrypt key profile.encrypted_secret
