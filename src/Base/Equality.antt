-- ===== src/Base/Equality.antt =====
-- Python's `==` on the values that the program compares: an interface, and its instances.
use Prim.Native.Nat.{ℕ}
use Prim.Native.String.{String}
use mathlib.Core.Path.{◌≡◌, refl}
use mathlib.Core.Logic.{◌↔◌}
use mathlib.Core.Bool.{Bool, true, false, ◌&&◌, ◌||◌}
use mathlib.Core.Option.{Option, none, some}
use mathlib.Core.List.{List, [], ◌∷◌, ◌++◌}
use native.Mathlib.Omega.{arith}
use text.Mathlib.Text.{◌==◌ as text_beq}
use text.Mathlib.TextEquality.{eq_iff}
use narsika.Base.Tests.{eqb, eqb_iff}

-- `same` is the test, and it decides equality.
pub record HasEq {ℓ} (V : Type ℓ) : Type ℓ where
  pub same : V → V → Bool
  pub same_iff : (v w : V) → (same v w ≡ true) ↔ (v ≡ w)

infix 50 ◌!=◌ ◌==◌
abbrev pub ◌!=◌ {ℓ} : {V : Type ℓ} ⦃e : HasEq V⦄ → V → V → Bool
◌!=◌ ⦃e⦄ v w = elim (e.same v w) [ true ↦ false | false ↦ true ]

abbrev pub ◌==◌ {ℓ} : {V : Type ℓ} ⦃e : HasEq V⦄ → V → V → Bool
◌==◌ ⦃e⦄ v w = e.same v w

instance abbrev pub nat_eq : HasEq ℕ
nat_eq = record { same = eqb; same_iff = eqb_iff }

instance abbrev pub text_eq : HasEq String
text_eq = record { same = text_beq; same_iff = eq_iff }

abbrev bool_beq : Bool → Bool → Bool
bool_beq true b = b
bool_beq false true = false
bool_beq false false = true

pub bool_beq_iff : (a b : Bool) → (bool_beq a b ≡ true) ↔ (a ≡ b)
bool_beq_iff a b = ground arith

instance abbrev pub bool_eq : HasEq Bool
bool_eq = record { same = bool_beq; same_iff = bool_beq_iff }

module _ {ℓ} {A : Type ℓ} ⦃e : HasEq A⦄ where
  abbrev option_beq : Option A → Option A → Bool
  option_beq none none = true
  option_beq none (some b) = false
  option_beq (some a) none = false
  option_beq (some a) (some b) = e.same a b

  pub option_beq_iff : (a b : Option A) → (option_beq a b ≡ true) ↔ (a ≡ b)
  option_beq_iff none none = ground arith
  option_beq_iff none (some b) = ground arith
  option_beq_iff (some a) none = ground arith
  option_beq_iff (some a) (some b) = ground (arith, e.same_iff a b)

  instance abbrev pub option_eq : HasEq (Option A)
  option_eq = record { same = option_beq; same_iff = option_beq_iff }

  abbrev list_beq : List A → List A → Bool
  list_beq [] [] = true
  list_beq [] (b ∷ bs) = false
  list_beq (a ∷ as') [] = false
  list_beq (a ∷ as') (b ∷ bs) = e.same a b && list_beq as' bs

  pub list_beq_iff : (as' bs : List A) → (list_beq as' bs ≡ true) ↔ (as' ≡ bs)
  list_beq_iff [] [] = ground arith
  list_beq_iff [] (b ∷ bs) = ground arith
  list_beq_iff (a ∷ as') [] = ground arith
  list_beq_iff (a ∷ as') (b ∷ bs) = ground (arith, e.same_iff a b, list_beq_iff as' bs)

  instance abbrev pub list_eq : HasEq (List A)
  list_eq = record { same = list_beq; same_iff = list_beq_iff }

  pub beq_refl : (a : A) → (a == a) ≡ true
  beq_refl a = (e.same_iff a a).1 refl

  -- `a in xs`
  abbrev pub contains : A → List A → Bool
  contains a [] = false
  contains a (x ∷ xs) = a == x || contains a xs

  pub contains-append :
      (a : A) (xs ys : List A) → contains a (xs ++ ys) ≡ contains a xs || contains a ys
  contains-append a [] ys = refl
  contains-append a (x ∷ xs) ys = ground (arith, contains-append a xs ys)

  -- No element stands twice.
  abbrev pub IsDistinct : List A → Type 0
  IsDistinct [] = Unit
  IsDistinct (x ∷ xs) = (contains x xs ≡ false) × IsDistinct xs

  pub IsDistinct-snoc :
      (xs : List A) (x : A) → IsDistinct xs → contains x xs ≡ false → IsDistinct (xs ++ (x ∷ []))
  IsDistinct-snoc [] x h new = (refl, tt)
  IsDistinct-snoc (y ∷ ys) x h new =
      ground
        (arith, IsDistinct-snoc ys x, contains-append y ys (x ∷ []), e.same_iff x y, e.same_iff y x)
