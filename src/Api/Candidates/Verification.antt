-- ===== src/Api/Candidates/Verification.antt =====
-- What `verify_candidate` of app/api.py leaves in the row of the candidate.
use mathlib.Core.Path.{subst}
use narsika.Base.{
  ℕ, String, Bool, true, false, Option, none, some, [], ◌∷◌, Result, ok, err, bind-eq-ok,
  Returns-ok, ◌⊎◌, inl, inr, ◌≡◌, refl, sym, ap, if_ind,
}
use narsika.Base.Json.{Json, Fields, num, get_field}
use narsika.Models.{Platform, Credential, User, get_row, put_row}
use narsika.Models.Rows.{get_row-id, get_row-put_row}
use narsika.Security.{Fernet}
use narsika.Security.Inputs.{integer, payload}
use narsika.Security.Access.{require, operate_level}
use narsika.Network.{Secret, secret}
use narsika.Api.Records.{get, last_record, get-eq-ok, get_value-eq-ok}
use narsika.Api.Devices.{credential_key}
use narsika.Api.Candidates.{
  Scan, Candidate, Verified, Discovery, candidate_key, scan_key, find_scan,
}
use narsika.Api.Candidates.Verify.{
  recognizes, check_verify, expected_platform, put_candidate, drop_verification, store_verified,
  conclude, probe_checked, verify_candidate,
}

module _ (key : Fernet Secret) (is_ios : String → Bool)
    (probe : Candidate → Scan → Platform → Credential → Result String)
    (meanwhile : Discovery → Discovery) where
  abbrev pub dropped : Candidate → Discovery → Discovery
  dropped candidate before = drop_verification key is_ios probe meanwhile candidate before

  -- What a request asks for: the row, its scan and the credential as the tables held them, and the
  -- platform of the body.
  pub record IsAsked (ident : ℕ) (body : Option Json) (before : Discovery) (candidate : Candidate)
      (scan : Scan) (platform : Platform) (profile : Credential) : Type 0 where
    pub found : get_row candidate_key ident before.candidates ≡ some candidate
    pub of_scan : get_row scan_key candidate.scan_id before.scans ≡ some scan
    pub fields : Fields
    pub read :
        payload ("platform" ∷ "credential_id" ∷ []) ("platform" ∷ "credential_id" ∷ []) body
        ≡ ok fields
    pub selects : expected_platform (get_field "platform" fields) ≡ ok platform
    pub chooses :
        integer (get_field "credential_id" fields) "record ID" 1 last_record ≡ ok profile.id
    pub has_profile : get_row credential_key profile.id before.inventory.credentials ≡ some profile

  -- The device answered with what the request asks for, its answer names the platform, and the row
  -- as it was when the answer came has the result, in the tables too.
  pub record IsVerified (clock ident : ℕ) (body : Option Json) (before : Discovery)
      (row : Candidate) (after : Discovery) : Type 0 where
    pub candidate : Candidate
    pub scan : Scan
    pub platform : Platform
    pub profile : Credential
    pub asked : IsAsked ident body before candidate scan platform profile
    pub output : String
    pub answered : probe candidate scan platform profile ≡ ok output
    pub recognized : recognizes is_ios platform output ≡ true
    pub current : Candidate
    pub then :
        get_row candidate_key ident (meanwhile (dropped candidate before)).candidates ≡ some current
    pub stored : row ≡ record current {
      verified = some (record { at = clock; platform = platform; credential_id = profile.id });
    }
    pub there : get_row candidate_key ident after.candidates ≡ some row

  -- The old verification was dropped, and nothing else of the request was stored.
  pub record IsDropped (ident : ℕ) (before after : Discovery) : Type 0 where
    pub candidate : Candidate
    pub found : get_row candidate_key ident before.candidates ≡ some candidate
    pub none_left :
        get_row candidate_key ident (dropped candidate before).candidates
        ≡ some (record candidate { verified = none })
    pub rest : after ≡ meanwhile (dropped candidate before)

  -- The answer and the tables after a request.
  abbrev pub IsSettled : ℕ → ℕ → Option Json → Discovery → Result Candidate × Discovery → Type 0
  IsSettled clock ident body before (err e, after) = (after ≡ before) ⊎ IsDropped ident before after
  IsSettled clock ident body before (ok row, after) = IsVerified clock ident body before row after

  put_candidate-there :
      (ident : ℕ) (old new : Candidate) (state : Discovery)
      → candidate_key new ≡ ident
      → get_row candidate_key ident state.candidates ≡ some old
      → get_row candidate_key ident (put_candidate key is_ios probe meanwhile new state).candidates
        ≡ some new
  unfolding put_candidate
  put_candidate-there ident old new state same there =
      subst
        (λ (i : ℕ).
          get_row candidate_key ident (put_row candidate_key i new state.candidates) ≡ some new)
        (sym same) (get_row-put_row candidate_key ident new old state.candidates same there)

  module _ (clock ident : ℕ) (body : Option Json) (before : Discovery) (actor : User)
      (candidate : Candidate) (scan : Scan) (platform : Platform) (profile : Credential)
      (asked : IsAsked ident body before candidate scan platform profile) where
    verified : Verified
    verified = record { at = clock; platform = platform; credential_id = profile.id }

    same_key : candidate_key candidate ≡ ident
    same_key = get_row-id candidate_key ident candidate before.candidates asked.found

    is_dropped : IsDropped ident before (meanwhile (dropped candidate before))
    is_dropped = record {
      candidate = candidate;
      found = asked.found;
      none_left =
          put_candidate-there ident candidate (record candidate { verified = none }) before same_key
            asked.found;
      rest = refl;
    }

    store_verified-IsSettled :
        (output : String) (row : Option Candidate)
        → probe candidate scan platform profile ≡ ok output
        → recognizes is_ios platform output ≡ true
        → get_row candidate_key ident (meanwhile (dropped candidate before)).candidates ≡ row
        → IsSettled clock ident body before (
            store_verified key is_ios probe meanwhile actor candidate verified
              (meanwhile (dropped candidate before))
              row)
    unfolding store_verified verified
    store_verified-IsSettled output none answered recognized now = inr is_dropped
    store_verified-IsSettled output (some current) answered recognized now = record {
      candidate = candidate;
      scan = scan;
      platform = platform;
      profile = profile;
      asked = asked;
      output = output;
      answered = answered;
      recognized = recognized;
      current = current;
      then = now;
      stored = refl;
      there =
          put_candidate-there ident current (record current { verified = some verified })
            (meanwhile (dropped candidate before)) (get_row-id candidate_key ident current _ now)
            now;
    }

    conclude-IsSettled :
        (answer : Result String)
        → probe candidate scan platform profile ≡ answer
        → IsSettled clock ident body before (
            conclude key is_ios probe meanwhile clock actor candidate platform profile
              (meanwhile (dropped candidate before))
              answer)
    unfolding conclude verified
    conclude-IsSettled (err e) answered = inr is_dropped
    conclude-IsSettled (ok output) answered =
        if_ind (IsSettled clock ident body before) (recognizes is_ios platform output)
          (λ known. store_verified-IsSettled output _ answered known (
            ap
              (λ (i : ℕ). get_row candidate_key i (meanwhile (dropped candidate before)).candidates)
              (sym same_key)))
          (λ _. inr is_dropped)

  -- The checks have found what the request asks for.
  check_verify-IsAsked :
      (session : Option User) (ident : ℕ) (body : Option Json) (before : Discovery)
      {found : User × Candidate × Scan × Platform × Credential}
      → check_verify key is_ios probe meanwhile session ident body before ≡ ok found
      → IsAsked ident body before found.1 found.2 found.3 found.4
  unfolding check_verify
  check_verify-IsAsked session ident body before h =
      let (actor, _, h₁) = bind-eq-ok (require operate_level session) _ h in
      let (candidate, got, h₂) =
        bind-eq-ok (get candidate_key (λ _. false) true (some (num ident)) before.candidates) _
          h₁ in
      let (there, _) = get-eq-ok candidate_key (λ _. false) ident before.candidates got in
      let (scan, in_scan, h₃) = bind-eq-ok (find_scan candidate.scan_id before.scans) _ h₂ in
      let (of_scan, _) = get-eq-ok scan_key (λ _. false) candidate.scan_id before.scans in_scan in
      let keys = "platform" ∷ "credential_id" ∷ [] in
      let (fields, read, h₄) = bind-eq-ok (payload keys keys body) _ h₃ in
      let (platform, selects, h₅) =
        bind-eq-ok (expected_platform (get_field "platform" fields)) _ h₄ in
      let profiles = before.inventory.credentials in
      let (profile, named, h₆) =
        bind-eq-ok
          (get credential_key (λ _. false) true (get_field "credential_id" fields) profiles) _ h₅ in
      let (opened, _, h₇) = bind-eq-ok (secret key (some profile)) _ h₆ in
      let (chooses, holds) =
        get_value-eq-ok credential_key (λ _. false) (get_field "credential_id" fields) profiles
          {row = profile} named in
      Returns-ok
        (λ (f : User × Candidate × Scan × Platform × Credential).
          IsAsked ident body before f.1 f.2 f.3 f.4)
        (ok (actor, candidate, scan, platform, profile))
        (record {
          found = there;
          of_scan = of_scan;
          fields = fields;
          read = read;
          selects = selects;
          chooses = chooses;
          has_profile = holds;
        })
        h₇

  probe_checked-IsSettled :
      (session : Option User) (clock ident : ℕ) (body : Option Json) (before : Discovery)
      (checked : Result (User × Candidate × Scan × Platform × Credential))
      → check_verify key is_ios probe meanwhile session ident body before ≡ checked
      → IsSettled clock ident body before
          (probe_checked key is_ios probe meanwhile clock before checked)
  unfolding probe_checked
  probe_checked-IsSettled session clock ident body before (err e) h = inl refl
  probe_checked-IsSettled session clock ident body before
        (ok (actor, candidate, scan, platform, profile)) h =
      conclude-IsSettled clock ident body before actor candidate scan platform profile
        (check_verify-IsAsked session ident body before h) (probe candidate scan platform profile)
        refl

  -- Other requests may change the tables in any way while the device is asked. A request to verify
  -- a candidate that fails has changed nothing, or has only dropped the old verification of the
  -- row. One that succeeds has asked the device of the candidate, with the port of its scan and
  -- with the platform and the credential that the body names, and the answer names that platform.
  -- The row as it stood when the answer came has the time, that platform and that credential for
  -- its verification, and no other column of it was changed.
  pub verify_candidate-IsSettled :
      (session : Option User) (clock ident : ℕ) (body : Option Json) (before : Discovery)
      → IsSettled clock ident body before
          (verify_candidate key is_ios probe meanwhile session clock ident body before)
  unfolding verify_candidate
  verify_candidate-IsSettled session clock ident body before =
      probe_checked-IsSettled session clock ident body before
        (check_verify key is_ios probe meanwhile session ident body before) refl
