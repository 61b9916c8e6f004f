-- ===== src/Models/Rows.antt =====
-- Laws of the tables of app/models.py: reading a row by its key, and writing it back.
use mathlib.Core.Path.{subst}
use mathlib.Core.List.{map-append}
use narsika.Base.{
  suc, ◌==◌, ◌<◌, All, if_ind, ◌++◌, none, map, contains, IsDistinct, IsDistinct-snoc, Bool-cases,
  inl, inr, sym, ℕ, ◌+◌, Bool, true, false, some, List, [], ◌∷◌, count, nat_eq, eqb_iff, ◌≡◌, ◌≢◌,
  refl, arith,
}
use narsika.Models.{first_row, get_row, put_row, last_id, new_id}

-- `1 if b else 0`
abbrev pub one_if : Bool → ℕ
one_if true = 1
one_if false = 0

module _ {A : Type 0} (id : A → ℕ) where
  -- Writing one row changes a count of rows by that row alone.
  pub count-put_row :
      (p : A → Bool) (ident : ℕ) (new row : A) (rows : List A)
      → get_row id ident rows ≡ some row
      → count p (put_row id ident new rows) + one_if (p row) ≡ count p rows + one_if (p new)
  unfolding get_row put_row
  count-put_row p ident new row [] h = absurd cc
  count-put_row p ident new row (r ∷ rows) h = ground (arith, count-put_row p ident new row rows)

  pub get_row-id :
      (ident : ℕ) (row : A) (rows : List A) → get_row id ident rows ≡ some row → id row ≡ ident
  unfolding get_row
  get_row-id ident row [] h = absurd cc
  get_row-id ident row (r ∷ rows) h =
      ground (arith, eqb_iff (id r) ident, get_row-id ident row rows)

  -- The other rows are what they were.
  pub get_row-put_row_ne :
      (ident other : ℕ) (new : A) (rows : List A)
      → id new ≡ ident
      → other ≢ ident
      → get_row id other (put_row id ident new rows) ≡ get_row id other rows
  unfolding get_row put_row
  get_row-put_row_ne ident other new [] same ne = refl
  get_row-put_row_ne ident other new (r ∷ rows) same ne = ground (
    arith,
    eqb_iff (id r) ident,
    eqb_iff (id r) other,
    eqb_iff (id new) other,
    get_row-put_row_ne ident other new rows,
  )

  pub get_row-put_row :
      (ident : ℕ) (new row : A) (rows : List A)
      → id new ≡ ident
      → get_row id ident rows ≡ some row
      → get_row id ident (put_row id ident new rows) ≡ some new
  unfolding get_row put_row
  get_row-put_row ident new row [] same h = absurd cc
  get_row-put_row ident new row (r ∷ rows) same h =
      ground (arith, eqb_iff (id new) ident, get_row-put_row ident new row rows)

-- Primary keys are distinct, and stay so.
module _ {A : Type 0} (id : A → ℕ) where
  pub first_row-none : (p : A → Bool) (rows : List A) → first_row p rows ≡ none → count p rows ≡ 0
  unfolding first_row
  first_row-none p [] h = refl
  first_row-none p (r ∷ rows) h = ground (arith, first_row-none p rows)

  pub first_row-holds :
      (p : A → Bool) (row : A) (rows : List A) → first_row p rows ≡ some row → p row ≡ true
  unfolding first_row
  first_row-holds p row [] h = absurd cc
  first_row-holds p row (r ∷ rows) h = elim (Bool-cases (p r)) [
    | inl e ↦ let same : r ≡ row = cc (rw e at h) in subst (λ (x : A). p x ≡ true) same e
    | inr e ↦ first_row-holds p row rows (rw e at h)
  ]

  first_row-contains :
      (p : A → Bool) (row : A) (rows : List A)
      → first_row p rows ≡ some row
      → contains (id row) (map id rows) ≡ true
  unfolding first_row
  first_row-contains p row [] h = absurd cc
  first_row-contains p row (r ∷ rows) h =
      ground (arith, eqb_iff (id row) (id row), first_row-contains p row rows)

  pub get_row-first_row :
      (p : A → Bool) (row : A) (rows : List A)
      → IsDistinct (map id rows)
      → first_row p rows ≡ some row
      → get_row id (id row) rows ≡ some row
  unfolding first_row get_row
  get_row-first_row p row [] distinct h = absurd cc
  get_row-first_row p row (r ∷ rows) distinct h = ground (
    arith,
    eqb_iff (id r) (id row),
    eqb_iff (id row) (id row),
    first_row-contains p row rows,
    get_row-first_row p row rows,
  )

  above_last :
      (ident : ℕ) (rows : List A) → last_id id rows < ident → contains ident (map id rows) ≡ false
  unfolding last_id
  above_last ident [] h = refl
  above_last ident (r ∷ rows) h = ground (arith, eqb_iff ident (id r), above_last ident rows)

  pub new_id-IsDistinct :
      (row : A) (rows : List A)
      → IsDistinct (map id rows)
      → id row ≡ new_id id rows
      → IsDistinct (map id (rows ++ row ∷ []))
  unfolding new_id
  new_id-IsDistinct row rows distinct h = rw map-append (
      IsDistinct-snoc (map id rows) (id row) distinct
        (rw h (above_last (suc (last_id id rows)) rows (omega arith))))

  pub put_row-IsDistinct :
      (ident : ℕ) (new : A) (rows : List A)
      → id new ≡ ident
      → IsDistinct (map id rows)
      → IsDistinct (map id (put_row id ident new rows))
  unfolding put_row
  put_row-IsDistinct ident new rows same distinct =
      subst IsDistinct (sym (map-put_row rows)) distinct
    where
      map-put_row : (rows : List A) → map id (put_row id ident new rows) ≡ map id rows
      map-put_row [] = refl
      map-put_row (r ∷ rows) = ground (arith, eqb_iff (id r) ident, map-put_row rows)

pub count_one {ℓ} : {A : Type ℓ} (p : A → Bool) (row : A) → count p (row ∷ []) ≡ one_if (p row)
count_one p row = ground arith

-- What holds of all rows holds of the row that is read, and stays where the new row has it too.
module _ {ℓ} {A : Type 0} (id : A → ℕ) (P : A → Type ℓ) where
  pub get_row-All :
      (ident : ℕ) (row : A) (rows : List A) → get_row id ident rows ≡ some row → All P rows → P row
  unfolding get_row
  get_row-All ident row [] h ps = absurd cc
  get_row-All ident row (r ∷ rows) h ps = elim (Bool-cases (id r == ident)) [
    | inl e ↦ let same : r ≡ row = some_inj (rw e at h) in subst P same ps.0
    | inr e ↦ get_row-All ident row rows (rw e at h) ps.1
  ]
    where
      some_inj : {a b : A} → some a ≡ some b → a ≡ b
      some_inj h = cc

  pub put_row-All :
      (ident : ℕ) (new : A) (rows : List A) → P new → All P rows → All P (put_row id ident new rows)
  unfolding put_row
  put_row-All ident new [] p ps = tt
  put_row-All ident new (r ∷ rows) p ps =
      if_ind (All P) (id r == ident) (λ _. (p, ps.1))
        (λ _. (ps.0, put_row-All ident new rows p ps.1))
