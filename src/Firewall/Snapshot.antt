-- ===== src/Firewall/Snapshot.antt =====
-- The state that `read_state` of app/services/firewall.py returns, and the plan of a review.
use narsika.Base.{ℕ, String, Bool, Option, none, some, List, [], ◌∷◌, ◌==◌, text_eq, if◌then◌else◌}
use narsika.Models.{Platform}
use narsika.Jobs.Target.{TargetIdentity}
use narsika.Firewall.Words.{Risk}
use narsika.Firewall.Change.{Change}

-- A row of `parse_routeros`: what the compiler and `verify` read of it.
pub record FilterRule : Type 0 where
  pub comment : String
  pub disabled : Bool
  pub fields : List (String × String)

-- A row of `parse_cisco`.
pub record Entry : Type 0 where
  pub sequence : ℕ
  pub body : String

-- A dictionary from names, each name once.
abbrev pub Acls : Type 0
Acls = List (String × List Entry)

-- `d.get(key)` on an association list
unfoldable pub lookup {ℓ} : {A : Type ℓ} → String → List (String × A) → Option A
lookup key [] = none
lookup key ((k, value) ∷ rest) = if k == key then some value else lookup key rest

or_empty {ℓ} : {A : Type ℓ} → Option (List A) → List A
or_empty none = []
or_empty (some xs) = xs

-- `d.get(key, [])`
unfoldable pub get_entries : String → Acls → List Entry
unfolding lookup or_empty
get_entries acl acls = or_empty (lookup acl acls)

unfoldable pub names {ℓ} : {A : Type ℓ} → List (String × A) → List String
names [] = []
names ((k, value) ∷ rest) = k ∷ names rest

-- The keys that a platform does not set are empty here; the code reads them by `get` with the
-- default `[]`.
pub record Snapshot : Type 0 where
  pub rules : List FilterRule
  pub acls : Acls
  pub acl_names : List String
  pub bindings : List String
  pub unsupported_acls : List String
  pub fingerprint : String

pub data Expected : Type 0 where
  expected_entry : (acl : String) (sequence : ℕ) (body : String) → Expected
  expected_rule : (fields : List (String × String)) → Expected

pub record Item : Type 0 where
  pub label : String
  pub rule : Change
  pub risk : Risk
  pub parents : List String
  pub commands : List String
  pub rollback : List String
  pub tag : String
  pub expected : Expected

-- `warnings`, the public copy of the device and the constant fields are left out: nothing reads them.
pub record Plan : Type 0 where
  pub platform : Platform
  pub target : TargetIdentity
  pub source_ip : ℕ
  pub baseline : Snapshot
  pub items : List Item
  pub risk : Risk
  pub final_order : List String
  pub recovery : List String
