-- ===== src/Base/Errors.antt =====
-- `APIError` and `fail` of app/security.py: an operation returns a value or raises.
use Prim.Native.Nat.{ℕ}
use Prim.Native.String.{String}
use mathlib.Core.Path.{◌≡◌, refl, subst}
use mathlib.Core.Bool.{Bool, true, false}

-- The attribute `retryable_before_network` is set by `connection_busy` of network.py alone.
pub record ApiError : Type 0 where
  pub message : String
  pub code : String
  pub status : ℕ
  pub retryable_before_network : Bool

pub data Result {ℓ} (A : Type ℓ) : Type ℓ where
  ok : A → Result A
  err : ApiError → Result A

module _ {ℓ κ} {A : Type ℓ} {B : Type κ} where
  infixl 5 ◌>>=◌
  -- An error ends the rest of the block.
  abbrev pub ◌>>=◌ : Result A → (A → Result B) → Result B
  err e >>= rest = err e
  ok a >>= rest = rest a

  -- Where a block returns, its first statement has returned.
  pub bind-eq-ok :
      (first : Result A) (rest : A → Result B) {b : B}
      → (first >>= rest) ≡ ok b
      → (a : A) × (first ≡ ok a) × (rest a ≡ ok b)
  bind-eq-ok (err e) rest same = cc
  bind-eq-ok (ok a) rest same = (a, refl, same)

infixl 5 ◌>>◌
abbrev pub ◌>>◌ {κ} : {B : Type κ} → Result (Unit {0}) → Result B → Result B
check >> rest = check >>= λ _. rest

abbrev pub api_error : String → String → ℕ → ApiError
api_error message code status = record {
  message = message;
  code = code;
  status = status;
  retryable_before_network = false;
}

-- `fail(message, code, status)`, and the shorter call with the defaults of `fail`
abbrev pub fail {ℓ} : {A : Type ℓ} → String → String → ℕ → Result A
fail message code status = err (api_error message code status)

abbrev pub invalid {ℓ} : {A : Type ℓ} → String → Result A
invalid message = fail message "VALIDATION_ERROR" 422

-- `if test: fail(…)`
abbrev pub fail_if : Bool → ApiError → Result (Unit {0})
fail_if true e = err e
fail_if false e = ok tt

abbrev pub succeeds {ℓ} : {A : Type ℓ} → Result A → Bool
succeeds (ok a) = true
succeeds (err e) = false

module _ {ℓ κ} {A : Type ℓ} where
  -- What holds of the value, if one is returned.
  abbrev pub Returns : (A → Type κ) → Result A → Type κ
  Returns P (ok a) = P a
  Returns P (err e) = Unit

  pub Returns-ok : (P : A → Type κ) (r : Result A) {a : A} → Returns P r → r ≡ ok a → P a
  Returns-ok P (ok b) {a} h same = subst P (ok_inj same) h
    where
      ok_inj : {b c : A} → ok b ≡ ok c → b ≡ c
      ok_inj same = cc
  Returns-ok P (err e) h same = absurd cc

module _ {ℓ κ μ ν} {A : Type ℓ} {B : Type κ} where
  pub bind-Returns :
      (Q : A → Type μ) (P : B → Type ν) (m : Result A) (f : A → Result B)
      → Returns Q m
      → ((a : A) → Q a → Returns P (f a))
      → Returns P (m >>= f)
  bind-Returns Q P (ok a) f h rest = rest a h
  bind-Returns Q P (err e) f h rest = tt

-- A check that passes has found its test false.
pub fail_if-Returns : (b : Bool) (e : ApiError) → Returns (λ _. b ≡ false) (fail_if b e)
fail_if-Returns true e = tt
fail_if-Returns false e = refl

-- Nothing is asked of the value.
pub Returns-any {ℓ} : {A : Type ℓ} (r : Result A) → Returns (λ _. Unit {0}) r
Returns-any (ok a) = tt
Returns-any (err e) = tt

pub fail_if-eq-ok : (b : Bool) (e : ApiError) {u : Unit {0}} → fail_if b e ≡ ok u → b ≡ false
fail_if-eq-ok true e h = absurd cc
fail_if-eq-ok false e h = refl

pub fail_if-not-eq-ok :
    (b : Bool) (e : ApiError) {u : Unit {0}}
    → fail_if (elim b [ true ↦ false | false ↦ true ]) e ≡ ok u
    → b ≡ true
fail_if-not-eq-ok true e h = refl
fail_if-not-eq-ok false e h = absurd cc
