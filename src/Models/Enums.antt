-- ===== src/Models/Enums.antt =====
-- The texts that app/models.py stores in the columns `role`, `platform`, `kind` and `status`, each
-- column as an enumeration of the values that the program writes there.
use mathlib.Core.Path.{◌≡◌}
use mathlib.Core.Logic.{◌↔◌}
use mathlib.Core.Bool.{Bool, true, false}
use native.Mathlib.Omega.{arith}
use narsika.Base.{HasEq, String}

pub data Role : Type 0 where
  viewer operator admin : Role

abbrev role_beq : Role → Role → Bool
role_beq viewer viewer = true
role_beq operator operator = true
role_beq admin admin = true
role_beq _ _ = false

pub role_beq_iff : (a b : Role) → (role_beq a b ≡ true) ↔ (a ≡ b)
role_beq_iff a b = ground arith

instance abbrev pub role_eq : HasEq Role
role_eq = record { same = role_beq; same_iff = role_beq_iff }

pub data Platform : Type 0 where
  cisco mikrotik : Platform

abbrev platform_beq : Platform → Platform → Bool
platform_beq cisco cisco = true
platform_beq mikrotik mikrotik = true
platform_beq _ _ = false

pub platform_beq_iff : (a b : Platform) → (platform_beq a b ≡ true) ↔ (a ≡ b)
platform_beq_iff a b = ground arith

instance abbrev pub platform_eq : HasEq Platform
platform_eq = record { same = platform_beq; same_iff = platform_beq_iff }

pub data Kind : Type 0 where
  discovery backup firewall vlan playbook : Kind

abbrev pub kind_text : Kind → String
kind_text discovery = "discovery"
kind_text backup = "backup"
kind_text firewall = "firewall"
kind_text vlan = "vlan"
kind_text playbook = "playbook"

abbrev kind_beq : Kind → Kind → Bool
kind_beq discovery discovery = true
kind_beq backup backup = true
kind_beq firewall firewall = true
kind_beq vlan vlan = true
kind_beq playbook playbook = true
kind_beq _ _ = false

pub kind_beq_iff : (a b : Kind) → (kind_beq a b ≡ true) ↔ (a ≡ b)
kind_beq_iff a b = ground arith

instance abbrev pub kind_eq : HasEq Kind
kind_eq = record { same = kind_beq; same_iff = kind_beq_iff }

pub data Status : Type 0 where
  pending running success failed cancelled interrupted partial applied_unverified : Status

-- `run.status.lower()`, as the audit log stores it
abbrev pub status_text : Status → String
status_text pending = "pending"
status_text running = "running"
status_text success = "success"
status_text failed = "failed"
status_text cancelled = "cancelled"
status_text interrupted = "interrupted"
status_text partial = "partial"
status_text applied_unverified = "applied_unverified"

abbrev status_beq : Status → Status → Bool
status_beq pending pending = true
status_beq running running = true
status_beq success success = true
status_beq failed failed = true
status_beq cancelled cancelled = true
status_beq interrupted interrupted = true
status_beq partial partial = true
status_beq applied_unverified applied_unverified = true
status_beq _ _ = false

pub status_beq_iff : (a b : Status) → (status_beq a b ≡ true) ↔ (a ≡ b)
status_beq_iff pending b = ground arith
status_beq_iff a b = ground arith

instance abbrev pub status_eq : HasEq Status
status_eq = record { same = status_beq; same_iff = status_beq_iff }

-- `vendor` of a playbook
pub data Vendor : Type 0 where
  any_vendor cisco_vendor mikrotik_vendor : Vendor

-- `book.vendor != 'Any' and book.vendor.lower() != device.platform` fails
abbrev pub suits : Vendor → Platform → Bool
suits any_vendor platform = true
suits cisco_vendor cisco = true
suits cisco_vendor mikrotik = false
suits mikrotik_vendor cisco = false
suits mikrotik_vendor mikrotik = true
