-- ===== src/Automation/Tests.antt =====
-- Artifacts and variables of a run on small inputs.
use narsika.Base.{◌≤◌, String, true, false, some, [], ◌∷◌, length, ok, ◌≡◌, ◌≢◌, refl}
use narsika.Base.Json.{str, Fields, field, end, get_field}
use narsika.Automation.Artifacts.{Found, entry_limit, collect_artifacts}
use narsika.Automation.Artifacts.Limits.{IsWithin, kept, collect_artifacts-IsWithin}
use narsika.Automation.Untrusted.{plain, unsafe, find_value, extra_variables}
use narsika.Automation.Untrusted.Marked.{IsData, extra_variables-IsData}

abbrev backup : Found
backup = record {
  name = "edge.cfg";
  suffix = ".cfg";
  is_symlink = false;
  inside = true;
  is_file = true;
  size = 1200;
  digest = "d";
  text = some "hostname edge";
  stored_as = "1.artifact";
}

abbrev link : Found
link = record backup { is_symlink = true; stored_as = "2.artifact" }

collects : (collect_artifacts 4 (link ∷ backup ∷ [])).1.backups ≡ "hostname edge" ∷ []
unfolding collect_artifacts
collects = refl

collect_artifacts-IsWithin_example :
    IsWithin entry_limit (collect_artifacts 4 (backup ∷ [])).1
    × ((collect_artifacts 4 (backup ∷ [])).0 ≡ ok tt
        → (length (backup ∷ []) ≤ entry_limit)
          × ((collect_artifacts 4 (backup ∷ [])).1.artifacts ≡ kept 4 (backup ∷ [])))
collect_artifacts-IsWithin_example = collect_artifacts-IsWithin 4 (backup ∷ [])

abbrev template : Fields
template = field "banner" (str "{{ lookup('pipe', 'id') }}") (field "narsika_targets" (str "x") end)

marks :
    find_value "banner" (extra_variables "/run" template)
    ≡ some (unsafe "{{ lookup('pipe', 'id') }}")
unfolding extra_variables find_value
marks = refl

extra_variables-IsData_example :
    (find_value "narsika_targets" (extra_variables "/run" template) ≡ some (plain "all"))
    × (find_value "narsika_artifact_root" (extra_variables "/run" template) ≡ some (plain "/run"))
    × ((key : String)
        → key ≢ "narsika_targets"
        → key ≢ "narsika_artifact_root"
        → IsData (get_field key template) (find_value key (extra_variables "/run" template)))
extra_variables-IsData_example = extra_variables-IsData "/run" template
