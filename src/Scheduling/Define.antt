-- ===== src/Scheduling/Define.antt =====
-- `definition` of app/services/scheduling.py: the targets and the parameters of a task, checked by
-- `prepare_run` of app/api.py. `size` is the length of the JSON text, `content` a playbook's file.
use narsika.Base.{
  ℕ, String, Bool, true, false, not, ◌&&◌, Option, none, some, List, [], ◌∷◌, length, leb, ltb,
  contains, nat_eq, Result, ok, fail_if, api_error, invalid, ◌>>=◌, ◌>>◌, ◌==◌, text_eq,
  if◌then◌else◌,
}
use narsika.Base.Json.{Json, str, num, arr, obj, Fields, end, field, get_field, items}
use narsika.Ipv4.{Network}
use narsika.Models.{Kind, kind_text, backup, playbook, Device}
use narsika.Security.{Fernet}
use narsika.Network.{Secret}
use narsika.Jobs.Target.{target_identity}
use narsika.Api.Records.{get}
use narsika.Api.Devices.{device_id, is_archived}
use narsika.Api.Candidates.{read_ids}
use narsika.Api.Runs.{prepare_run, prepared_fields, book_key, get_or_null}
use narsika.Scheduling.Definition.{Target, PlaybookVersion, Saved, Book, Calendar}

-- `data.get('kind')` is one of two.
unfoldable pub read_task_kind : Option Json → Result Kind
read_task_kind (some (str s)) =
    if s == "backup"
    then ok backup
    else if s == "playbook"
    then ok playbook
    else invalid "Schedules support Backup and Playbook operations."
read_task_kind value = invalid "Schedules support Backup and Playbook operations."

-- `len(set(ids)) == len(ids)`
unfoldable pub has_repeats : List ℕ → Bool
has_repeats [] = false
has_repeats (ident ∷ idents) = if contains ident idents then true else has_repeats idents

unfoldable pub read_devices : Option Json → Result (List ℕ)
unfolding items read_ids has_repeats
read_devices (some (arr values)) = do
  fail_if (not (leb 1 (length (items values)) && leb (length (items values)) 32))
      (api_error "Select between 1 and 32 devices." "VALIDATION_ERROR" 422)
  idents ← read_ids (items values)
  fail_if (has_repeats idents)
      (api_error "Each device can be selected only once." "VALIDATION_ERROR" 422)
  ok idents
read_devices value = invalid "Select between 1 and 32 devices."

-- What `prepare_run` is given.
run_request : Fields → Fields
unfolding get_field
run_request data' =
    field "variables" (variables (get_field "variables" data'))
      (field "playbook_id" (get_or_null "playbook_id" data') end)
  where
    variables : Option Json → Json
    variables none = obj end
    variables (some value) = value

module _ (sha256 : String → String) (content : Book → String) (size : Saved → ℕ)
    (secrets : Fernet Secret) (allowed : List Network) where
  target_of : Device → Target
  unfolding target_identity
  target_of device = record {
    id = device.id;
    name = device.name;
    identity = target_identity sha256 device;
  }

  -- The loop over the devices: the targets, and the parameters of the last.
  unfoldable pub define_targets :
      Kind → Fields → Calendar → List ℕ → Fields → Result (List Target × Fields)
  unfolding get prepare_run prepared_fields target_of
  define_targets kind request calendar [] params = ok ([], params)
  define_targets kind request calendar (ident ∷ idents) params = do
    device ← get device_id is_archived true (some (num ident)) calendar.db.devices
    prepared ←
        prepare_run secrets allowed calendar.playbooks (some (str (kind_text kind))) device request
          none
    rest ← define_targets kind request calendar idents (prepared_fields prepared.1)
    ok (target_of device ∷ rest.0, rest.1)

  -- A playbook with its version and the digest of its file.
  unfoldable pub define_book : Kind → Fields → Calendar → Result (Option PlaybookVersion)
  unfolding get get_field
  define_book playbook params calendar = do
    book ← get book_key (λ _. false) true (get_field "playbook_id" params) calendar.playbooks
    ok (some (record { id = book.id; version = book.version; sha256 = sha256 (content book) }))
  define_book kind params calendar = ok none

  -- `definition(data)`
  unfoldable pub definition : Calendar → Fields → Result Saved
  unfolding read_task_kind read_devices run_request define_targets define_book get_field
  definition calendar data' = do
    kind ← read_task_kind (get_field "kind" data')
    idents ← read_devices (get_field "device_ids" data')
    defined ← define_targets kind (run_request data') calendar idents end
    book ← define_book kind defined.1 calendar
    let saved : Saved = record { parameters = obj defined.1; targets = defined.0; playbook = book }
    fail_if (ltb 64000 (size saved))
        (api_error "Schedule variables are too large." "VALIDATION_ERROR" 422)
    ok saved
