-- ===== src/Security/Cipher.antt =====
-- `encrypt` and `decrypt` of app/security.py. Fernet (the package cryptography) with the configured
-- key is a parameter, together with the JSON text of the value: `unseal` is `none` where Fernet
-- finds no valid token. That the token of a value opens to that value is a hypothesis where a
-- theorem needs it.
use narsika.Base.{String, ◌≡◌, Option, none, some, Result, ok, fail, arith}

pub record Fernet (A : Type 0) : Type 0 where
  pub seal : A → String
  pub unseal : String → Option A

module _ {A : Type 0} (key : Fernet A) where
  unfoldable pub encrypt : A → String
  encrypt value = key.seal value

  unfoldable pub decrypt : String → Result A
  decrypt value = elim (key.unseal value) [
    | none ↦
        fail "Unable to decrypt stored credentials. Restore the original encryption key."
          "KEY_ERROR" 503
    | some a ↦ ok a
  ]

  pub decrypt-encrypt :
      (value : A) → key.unseal (key.seal value) ≡ some value → decrypt (encrypt value) ≡ ok value
  unfolding encrypt decrypt
  decrypt-encrypt value opens = ground arith
