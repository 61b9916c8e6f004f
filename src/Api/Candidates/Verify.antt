-- ===== src/Api/Candidates/Verify.antt =====
-- `verify_candidate` of app/api.py: two transactions, and the device is asked between them.
use narsika.Base.{
  ℕ, String, Bool, true, false, ◌&&◌, ◌||◌, Option, none, some, [], ◌∷◌, ◌==◌, nat_eq, text_eq,
  Result, ApiError, ok, err, api_error, invalid, ◌>>=◌, if◌then◌else◌,
}
use narsika.Base.Json.{Json, num, str, get_field}
use narsika.Models.{Platform, cisco, mikrotik, platform_eq, Credential, User, put_row, get_row}
use narsika.Models.Passwords.{starts_with}
use narsika.Security.{Fernet}
use narsika.Security.Inputs.{payload}
use narsika.Security.Access.{operate_level, require}
use narsika.Network.{Secret, secret}
use narsika.Jobs.Queue.{internal_error}
use narsika.Api.Records.{get, logged}
use narsika.Api.Devices.{credential_key}
use narsika.Api.Candidates.{Scan, Verified, Candidate, Discovery, candidate_key, find_scan}

-- `needle in s`
unfoldable pub is_inside : String → String → Bool
unfolding starts_with
is_inside needle String.[] = starts_with needle String.[]
is_inside needle (String.◌∷◌ c s) = starts_with needle (String.◌∷◌ c s) || is_inside needle s

-- The output of the command names the platform. `is_ios` is the search for the Cisco banner.
unfoldable pub recognizes : (String → Bool) → Platform → String → Bool
unfolding is_inside
recognizes is_ios cisco output = is_ios output
recognizes is_ios mikrotik output =
    is_inside "version:" output
    && (is_inside "board-name:" output || is_inside "architecture-name:" output)

abbrev pub unrecognized : ApiError
unrecognized =
    api_error "The authenticated response did not verify the selected platform."
      "UNSUPPORTED_OUTPUT" 502

abbrev pub expected_platform : Option Json → Result Platform
expected_platform (some (str s)) =
    if s == "cisco"
    then ok cisco
    else if s == "mikrotik"
    then ok mikrotik
    else invalid "Select the expected platform."
expected_platform value = invalid "Select the expected platform."

-- `probe` is what the SSH session answers: its output, or the error of the lock or the connection.
-- `meanwhile` is what other requests do to the tables while the device is asked, when this request
-- has no transaction.
module _ (key : Fernet Secret) (is_ios : String → Bool)
    (probe : Candidate → Scan → Platform → Credential → Result String)
    (meanwhile : Discovery → Discovery) where
  -- The checks of the request, before the old verification is dropped.
  unfoldable pub check_verify :
      Option User
      → ℕ
      → Option Json
      → Discovery
      → Result (User × Candidate × Scan × Platform × Credential)
  unfolding require get payload get_field secret
  check_verify session ident body state = do
    actor ← require operate_level session
    candidate ← get candidate_key (λ _. false) true (some (num ident)) state.candidates
    scan ← find_scan candidate.scan_id state.scans
    data' ← payload ("platform" ∷ "credential_id" ∷ []) ("platform" ∷ "credential_id" ∷ []) body
    platform ← expected_platform (get_field "platform" data')
    profile ←
        get credential_key (λ _. false) true (get_field "credential_id" data')
          state.inventory.credentials
    opened ← secret key (some profile)
    ok (actor, candidate, scan, platform, profile)

  unfoldable pub put_candidate : Candidate → Discovery → Discovery
  unfolding put_row
  put_candidate candidate state = record state {
    candidates = put_row candidate_key candidate.id candidate state.candidates;
  }

  -- The first transaction: the old verification is dropped.
  abbrev pub drop_verification : Candidate → Discovery → Discovery
  drop_verification candidate state = put_candidate (record candidate { verified = none }) state

  -- The second transaction: the UPDATE of three columns of the row as it is then, and the audit row
  -- with the address that the request has read. The UPDATE of a row that is gone is an exception.
  unfoldable pub store_verified :
      User → Candidate → Verified → Discovery → Option Candidate → Result Candidate × Discovery
  unfolding put_candidate logged
  store_verified actor candidate v state none = (internal_error, state)
  store_verified actor candidate v state (some current) =
      let row = record current { verified = some v } in
      let stored = put_candidate row state in
      (
        ok row,
        record stored {
          inventory = record stored.inventory {
            db =
                logged actor "Discovery candidate verified" candidate.ip_address
                  stored.inventory.db;
          };
        },
      )

  -- The answer of the device.
  unfoldable pub conclude :
      ℕ
      → User
      → Candidate
      → Platform
      → Credential
      → Discovery
      → Result String
      → Result Candidate × Discovery
  unfolding recognizes store_verified get_row
  conclude clock actor candidate platform profile state (err e) = (err e, state)
  conclude clock actor candidate platform profile state (ok output) =
      let v : Verified = record { at = clock; platform = platform; credential_id = profile.id } in
      let stored =
        store_verified actor candidate v state
          (get_row candidate_key candidate.id state.candidates) in
      if recognizes is_ios platform output then stored else (err unrecognized, state)

  unfoldable pub probe_checked :
      ℕ
      → Discovery
      → Result (User × Candidate × Scan × Platform × Credential)
      → Result Candidate × Discovery
  unfolding conclude put_candidate
  probe_checked clock state (err e) = (err e, state)
  probe_checked clock state (ok (actor, candidate, scan, platform, profile)) =
      conclude clock actor candidate platform profile
        (meanwhile (drop_verification candidate state)) (probe candidate scan platform profile)

  -- `verify_candidate(ident)`
  unfoldable pub verify_candidate :
      Option User → ℕ → ℕ → Option Json → Discovery → Result Candidate × Discovery
  unfolding check_verify probe_checked
  verify_candidate session clock ident body state =
      probe_checked clock state (check_verify session ident body state)
