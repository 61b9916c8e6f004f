-- ===== src/Automation/Artifacts.antt =====
-- `collect_artifacts` of app/services/automation.py: the files that a playbook leaves are kept within
-- limits. The listing of the directory is an argument; `sha256` and the new names are too.
pub mod Limits
use narsika.Base.{
  ℕ, zero, suc, ◌+◌, String, Bool, true, false, not, ◌&&◌, ◌||◌, Option, none, some, List, [], ◌∷◌,
  ◌++◌, length, ltb, contains, take_chars, text_eq, Result, ok, err, fail, if◌then◌else◌,
}

-- What `root.rglob('*')` finds: `inside` is `is_relative_to` of the resolved path, `text` the decoded
-- content, and `stored_as` the new name.
pub record Found : Type 0 where
  pub name : String
  pub suffix : String
  pub is_symlink : Bool
  pub inside : Bool
  pub is_file : Bool
  pub size : ℕ
  pub digest : String
  pub text : Option String
  pub stored_as : String

pub record RunArtifact : Type 0 where
  pub run_id : ℕ
  pub name : String
  pub path : String
  pub size_bytes : ℕ
  pub checksum : String

-- The variables of the loop with the rows that it adds, and the texts for `store_backup`.
pub record Collected : Type 0 where
  pub rejected : Bool
  pub total : ℕ
  pub artifacts : List RunArtifact
  pub backups : List String

abbrev pub file_limit : ℕ
file_limit = 5242880

abbrev pub total_limit : ℕ
total_limit = 52428800

abbrev pub entry_limit : ℕ
entry_limit = 1000

-- `paths[:n]`
unfoldable pub first_entries : ℕ → List Found → List Found
first_entries zero found = []
first_entries (suc n) [] = []
first_entries (suc n) (file ∷ found) = file ∷ first_entries n found

-- `size_bytes` is the length of what was read: the file does not change between `stat`, which gives
-- `size`, and the reading.
abbrev pub artifact_of : ℕ → Found → RunArtifact
artifact_of run_id file = record {
  run_id = run_id;
  name = take_chars 180 file.name;
  path = file.stored_as;
  size_bytes = file.size;
  checksum = file.digest;
}

-- A configuration is also stored as a backup, if it is a text.
unfoldable pub backups_of : Found → List String
backups_of file = keep (contains file.suffix (".cfg" ∷ ".rsc" ∷ [])) file.text
  where
    keep : Bool → Option String → List String
    keep true (some text) = text ∷ []
    keep true none = []
    keep false text = []

-- A symbolic link, or a path that leaves the directory.
abbrev pub is_unsafe : Found → Bool
is_unsafe file = file.is_symlink || not file.inside

abbrev pub is_large : ℕ → Found → Bool
is_large total file = ltb file_limit file.size || ltb total_limit (total + file.size)

-- One pass of the loop.
unfoldable pub collect_one : ℕ → Found → Collected → Collected
unfolding backups_of
collect_one run_id file c =
    if is_unsafe file
    then record c { rejected = true }
    else if not file.is_file
    then c
    else if is_large c.total file
    then record c { rejected = true }
    else record c {
      total = c.total + file.size;
      artifacts = c.artifacts ++ artifact_of run_id file ∷ [];
      backups = c.backups ++ backups_of file;
    }

unfoldable pub collect : ℕ → List Found → Collected → Collected
unfolding collect_one
collect run_id [] c = c
collect run_id (file ∷ found) c = collect run_id found (collect_one run_id file c)

unfoldable pub report : Bool → Result (Unit {0})
report true =
    fail
      "Artifact collection was incomplete (unsafe path, over 1000 entries, 5 MiB/file or 50 MiB total). Accepted files were saved. Inspect the playbook before rerunning."
      "ARTIFACT_LIMIT" 502
report false = ok tt

-- `collect_artifacts(tmp, run, device)`: the rows are committed before the error.
unfoldable pub collect_artifacts : ℕ → List Found → Result (Unit {0}) × Collected
unfolding first_entries collect report
collect_artifacts run_id found =
    let c = collect run_id (first_entries entry_limit found) (record {
      rejected = ltb entry_limit (length found);
      total = 0;
      artifacts = [];
      backups = [];
    }) in
    (report c.rejected, c)
