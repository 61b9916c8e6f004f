-- ===== src/Automation/Artifacts/Limits.antt =====
-- What a run may keep.
use mathlib.Core.Path.{subst}
use narsika.Base.{
  ℕ, zero, suc, ◌+◌, ◌≤◌, Bool, true, false, not, List, [], ◌∷◌, ◌++◌, All, All-append, length,
  length-append, ltb, ok, ◌≡◌, refl, sym, ap, ◌∙◌, arith, if_ind, if◌then◌else◌,
}
use narsika.Automation.Artifacts.{
  Found, RunArtifact, Collected, file_limit, total_limit, entry_limit, first_entries, artifact_of,
  is_unsafe, is_large, collect_one, collect, report, collect_artifacts,
}

abbrev pub sizes : List RunArtifact → ℕ
sizes [] = 0
sizes (a ∷ artifacts) = a.size_bytes + sizes artifacts

abbrev pub IsSmall : RunArtifact → Type 0
IsSmall a = a.size_bytes ≤ file_limit

sizes-append : (a b : List RunArtifact) → sizes (a ++ b) ≡ sizes a + sizes b
sizes-append [] b = omega arith
sizes-append (x ∷ a) b = omega (arith, sizes-append a b)

-- What holds of the loop after `n` files.
pub record IsWithin (n : ℕ) (c : Collected) : Type 0 where
  pub counted : c.total ≡ sizes c.artifacts
  pub whole : c.total ≤ total_limit
  pub small : All IsSmall c.artifacts
  pub few : length c.artifacts ≤ n

collect_one-IsWithin :
    (run_id n : ℕ) (file : Found) (c : Collected)
    → IsWithin n c
    → IsWithin (suc n) (collect_one run_id file c)
unfolding collect_one
collect_one-IsWithin run_id n file c within =
    let more : IsWithin (suc n) c = record {
      counted = within.counted;
      whole = within.whole;
      small = within.small;
      few = omega (arith, within.few);
    } in
    let refused : IsWithin (suc n) (record c { rejected = true }) = record {
      counted = within.counted;
      whole = within.whole;
      small = within.small;
      few = omega (arith, within.few);
    } in
    if_ind (IsWithin (suc n)) (is_unsafe file) (λ _. refused)
      λ _.
        if_ind (IsWithin (suc n)) (not file.is_file) (λ _. more)
          λ _.
            if_ind (IsWithin (suc n)) (is_large c.total file) (λ _. refused)
              λ fits. record {
                counted = omega (
                  arith,
                  sizes-append c.artifacts (artifact_of run_id file ∷ []),
                  within.counted,
                );
                whole = ground (arith, fits);
                small =
                    All-append IsSmall c.artifacts (artifact_of run_id file ∷ []) within.small
                      (ground (arith, fits), tt);
                few =
                    omega
                      (arith, length-append c.artifacts (artifact_of run_id file ∷ []), within.few);
              }

collect-IsWithin :
    (run_id n : ℕ) (found : List Found) (c : Collected)
    → IsWithin n c
    → IsWithin (n + length found) (collect run_id found c)
unfolding collect
collect-IsWithin run_id n [] c within = subst (λ (m : ℕ). IsWithin m c) (omega arith) within
collect-IsWithin run_id n (file ∷ found) c within =
    subst (λ (m : ℕ). IsWithin m (collect run_id (file ∷ found) c)) (omega arith)
      (collect-IsWithin run_id (suc n) found (collect_one run_id file c)
        (collect_one-IsWithin run_id n file c within))

length-first_entries : (n : ℕ) (found : List Found) → length (first_entries n found) ≤ n
unfolding first_entries
length-first_entries zero found = omega arith
length-first_entries (suc n) [] = omega arith
length-first_entries (suc n) (file ∷ found) = omega (arith, length-first_entries n found)

append_nil : {A : Type 0} (xs : List A) → xs ++ [] ≡ xs
append_nil [] = refl
append_nil (x ∷ xs) = ap (λ ys. x ∷ ys) (append_nil xs)

append_assoc : {A : Type 0} (xs ys zs : List A) → (xs ++ ys) ++ zs ≡ xs ++ (ys ++ zs)
append_assoc [] ys zs = refl
append_assoc (x ∷ xs) ys zs = ap (λ l. x ∷ l) (append_assoc xs ys zs)

-- The rows of the regular files.
abbrev pub kept : ℕ → List Found → List RunArtifact
kept run_id [] = []
kept run_id (file ∷ found) =
    if file.is_file then artifact_of run_id file ∷ kept run_id found else kept run_id found

-- Nothing was rejected, so each regular file has its row.
abbrev IsComplete : List RunArtifact → Collected → Collected → Type 0
IsComplete rows c after =
    after.rejected ≡ false → (c.rejected ≡ false) × (after.artifacts ≡ c.artifacts ++ rows)

kept-cons :
    (run_id : ℕ) (file : Found) (found : List Found)
    → kept run_id (file ∷ []) ++ kept run_id found ≡ kept run_id (file ∷ found)
kept-cons run_id file found = cases file.is_file
  where
    cases :
        (b : Bool)
        → (if b then artifact_of run_id file ∷ [] else []) ++ kept run_id found
          ≡ (if b then artifact_of run_id file ∷ kept run_id found else kept run_id found)
    cases true = refl
    cases false = refl

no : (b : Bool) → not b ≡ true → b ≡ false
no b h = ground arith

yes : (b : Bool) → not b ≡ false → b ≡ true
yes b h = ground arith

collect_one-IsComplete :
    (run_id : ℕ) (file : Found) (c : Collected)
    → IsComplete (kept run_id (file ∷ [])) c (collect_one run_id file c)
unfolding collect_one
collect_one-IsComplete run_id file c =
    let P = IsComplete (kept run_id (file ∷ [])) c in
    if_ind P (is_unsafe file) (λ _ h. absurd cc)
      λ _.
        if_ind P (not file.is_file)
          (λ other h. (h, rw (no file.is_file other) (sym (append_nil c.artifacts))))
          λ regular.
            if_ind P (is_large c.total file) (λ _ h. absurd cc)
              λ _ h. (h, rw (yes file.is_file regular) refl)

collect-IsComplete :
    (run_id : ℕ) (found : List Found) (c : Collected)
    → IsComplete (kept run_id found) c (collect run_id found c)
unfolding collect
collect-IsComplete run_id [] c h = (h, sym (append_nil c.artifacts))
collect-IsComplete run_id (file ∷ found) c h =
    let next = collect_one run_id file c in
    let (passed, rest) = collect-IsComplete run_id found next h in
    let (before, one) = collect_one-IsComplete run_id file c passed in
    (
      before,
      rest
          ∙ (ap (λ rows. rows ++ kept run_id found) one
              ∙ (append_assoc c.artifacts (kept run_id (file ∷ [])) (kept run_id found)
                  ∙ ap (λ rows. c.artifacts ++ rows) (kept-cons run_id file found))),
    )

first_entries-all : (n : ℕ) (found : List Found) → length found ≤ n → first_entries n found ≡ found
unfolding first_entries
first_entries-all zero [] h = refl
first_entries-all zero (file ∷ found) h = absurd (omega (arith, h))
first_entries-all (suc n) [] h = refl
first_entries-all (suc n) (file ∷ found) h =
    ap (λ l. file ∷ l) (first_entries-all n found (omega (arith, h)))

not_more : (n m : ℕ) → ltb n m ≡ false → m ≤ n
not_more n m h = ground arith

report-ok : (b : Bool) → report b ≡ ok tt → b ≡ false
unfolding report
report-ok true h = absurd cc
report-ok false h = refl

-- The artifacts that a run keeps are at most 1,000, each of at most 5 MiB and 50 MiB together, and
-- their total is what the loop has counted. Where the collection reports no error there were at
-- most 1,000 entries, and each regular file has its row, in order.
pub collect_artifacts-IsWithin :
    (run_id : ℕ) (found : List Found)
    → IsWithin entry_limit (collect_artifacts run_id found).1
      × ((collect_artifacts run_id found).0 ≡ ok tt
          → (length found ≤ entry_limit)
            × ((collect_artifacts run_id found).1.artifacts ≡ kept run_id found))
unfolding collect_artifacts
collect_artifacts-IsWithin run_id found =
    let start : Collected = record {
      rejected = ltb entry_limit (length found);
      total = 0;
      artifacts = [];
      backups = [];
    } in
    let files = first_entries entry_limit found in
    let begin : IsWithin 0 start = record {
      counted = refl;
      whole = omega arith;
      small = tt;
      few = omega arith;
    } in
    let within = collect-IsWithin run_id 0 files start begin in
    (
      record {
        counted = within.counted;
        whole = within.whole;
        small = within.small;
        few = omega (arith, within.few, length-first_entries entry_limit found);
      },
      λ done.
          let (few, all) =
            collect-IsComplete run_id files start
              (report-ok (collect run_id files start).rejected done) in
          let short = not_more entry_limit (length found) few in
          (
            short,
            subst (λ (l : List Found). (collect run_id files start).artifacts ≡ kept run_id l)
                (first_entries-all entry_limit found short) all,
          ),
    )
