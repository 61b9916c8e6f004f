-- ===== src/Web/SignIn/Throttle.antt =====
-- How many passwords can be tried for one name.
use mathlib.Core.Path.{subst}
use narsika.Base.{
  Returns-ok, fail_if-Returns, ℕ, suc, ◌+◌, ◌-◌, ◌≤◌, ◌<◌, String, Bool, true, false, not, ◌&&◌,
  Option, none, some, List, [], ◌∷◌, ltb, ◌==◌, nat_eq, text_eq, Result, ApiError, ok, err, ◌>>◌,
  fail_if, bind-eq-ok, ◌≡◌, ◌≢◌, inl, inr, refl, sym, ◌∙◌, arith, Bool-cases, if◌then◌else◌,
}
use narsika.Base.Json.{Fields}
use narsika.Models.{User, Db}
use narsika.Models.Passwords.{Hashing}
use narsika.Web.SignIn.{
  Attempt, Tables, window_seconds, ip_limit, user_limit, live, reserve, release, throttled,
  Reserved, reserve_both, release_both, SignedIn, read_credentials, ip_key, user_key, admit,
  attempt, compare_password, accept, refuse, is_valid, login,
}

-- The row of a key.
unfoldable pub find : String → List Attempt → Option Attempt
find key [] = none
find key (a ∷ attempts) = if a.key == key then some a else find key attempts

-- The count of a key is `n`, and its row, if there is one, ends at `last` or later.
abbrev Stands : ℕ → Option Attempt → ℕ → Type 0
Stands last none n = n ≡ 0
Stands last (some a) n = (a.count ≡ n) × (last ≤ a.reset_at)

module _ (key : String) (last : ℕ) where
  live-Stands :
      (moment n : ℕ) (attempts : List Attempt)
      → moment < last
      → Stands last (find key attempts) n
      → Stands last (find key (live moment attempts)) n
  unfolding live find
  live-Stands moment n [] early h = h
  live-Stands moment n (a ∷ attempts) early h = ground (arith, live-Stands moment n attempts early)

  reserve-Stands :
      (moment n : ℕ) (attempts : List Attempt)
      → last ≤ moment + window_seconds
      → Stands last (find key attempts) n
      → ((reserve key moment attempts).0.count ≡ suc n)
        × ((reserve key moment attempts).0.key ≡ key)
        × Stands last (find key (reserve key moment attempts).1) (suc n)
  unfolding reserve find
  reserve-Stands moment n [] late h = ground (arith, text_eq.same_iff key key)
  reserve-Stands moment n (a ∷ attempts) late h = ground (
    arith,
    text_eq.same_iff a.key key,
    text_eq.same_iff key key,
    reserve-Stands moment n attempts late,
  )

  reserve_other :
      (other : String) (moment : ℕ) (attempts : List Attempt)
      → other ≢ key
      → (find key (reserve other moment attempts).1 ≡ find key attempts)
        × ((reserve other moment attempts).0.key ≡ other)
  unfolding reserve find
  reserve_other other moment [] ne = ground (arith, text_eq.same_iff other key)
  reserve_other other moment (a ∷ attempts) ne = ground (
    arith,
    text_eq.same_iff a.key key,
    text_eq.same_iff a.key other,
    reserve_other other moment attempts ne,
  )

  release_other :
      (f : ℕ → ℕ) (other : String) (reset : ℕ) (attempts : List Attempt)
      → other ≢ key
      → find key (release f other reset attempts) ≡ find key attempts
  unfolding release find
  release_other f other reset [] ne = refl
  release_other f other reset (a ∷ attempts) ne = ground (
    arith,
    text_eq.same_iff a.key key,
    text_eq.same_iff a.key other,
    release_other f other reset attempts ne,
  )

  -- The reservations of a request that is let through, and what stands in the table after them.
  abbrev IsAdmitted : String → String → ℕ → Reserved → Type 0
  IsAdmitted ip user n r =
      (r.ip.key ≡ ip)
      × (user ≡ key → (suc n ≤ user_limit) × Stands last (find key r.attempts) (suc n))
      × (user ≢ key → (r.user.key ≡ user) × Stands last (find key r.attempts) n)

  reserve_both-Stands :
      (ip user : String) (moment n : ℕ) (attempts : List Attempt) {r : Reserved}
      → moment < last
      → last ≤ moment + window_seconds
      → ip ≢ key
      → reserve_both ip user moment attempts ≡ ok r
      → Stands last (find key attempts) n
      → IsAdmitted ip user n r
  unfolding reserve_both
  reserve_both-Stands ip user moment n attempts early late ne h stands =
      let first = reserve ip moment (live moment attempts) in
      let second = reserve user moment first.1 in
      let (_, _, h₁) = bind-eq-ok (fail_if (ltb ip_limit first.0.count) throttled) _ h in
      let (_, few, h₂) = bind-eq-ok (fail_if (ltb user_limit second.0.count) throttled) _ h₁ in
      let kept = live-Stands moment n attempts early stands in
      let (same, named) = reserve_other ip moment (live moment attempts) ne in
      let before = subst (λ (o : Option Attempt). Stands last o n) (sym same) kept in
      let over = ltb user_limit second.0.count in
      let fits =
        Returns-ok (λ _. over ≡ false) (fail_if over throttled) (fail_if-Returns over throttled)
          few in
      let (counted, _, grown) = reserve-Stands moment n first.1 late before in
      Returns-ok (IsAdmitted ip user n) (ok _)
        (
          named,
          (λ e. own user n moment first.1 e counted grown fits),
          λ other.
              let (kept', named') = reserve_other user moment first.1 other in
              (named', subst (λ (o : Option Attempt). Stands last o n) (sym kept') before),
        )
        h₂
    where
      own :
          (user : String) (n moment : ℕ) (attempts : List Attempt)
          → user ≡ key
          → (reserve key moment attempts).0.count ≡ suc n
          → Stands last (find key (reserve key moment attempts).1) (suc n)
          → ltb user_limit (reserve user moment attempts).0.count ≡ false
          → (suc n ≤ user_limit) × Stands last (find key (reserve user moment attempts).1) (suc n)
      own user n moment attempts e counted grown fits = (
        subst
            (λ (u : String).
              ltb user_limit (reserve u moment attempts).0.count ≡ false → suc n ≤ user_limit)
            (sym e) (λ fits'. ground (arith, counted)) fits,
        subst (λ (u : String). Stands last (find key (reserve u moment attempts).1) (suc n)) (sym e)
            grown,
      )

refused_case :
    (key : String) (last n : ℕ) (user ip : String) (r : Reserved)
    → IsAdmitted key last ip user n r
    → (user == key && true ≡ true
        → Stands last (find key r.attempts) (suc n) × (suc n ≤ user_limit))
      × (user == key && true ≡ false → Stands last (find key r.attempts) n)
refused_case key last n user ip r (_, own, other) = elim (Bool-cases (user == key)) [
  | inl e ↦
      let (few, stands) = own ((text_eq.same_iff user key).0 e) in
      (λ _. (stands, few), λ no'. absurd (cc (e, no')))
  | inr e ↦ (
    λ yes'. absurd (cc (e, yes')),
    λ _. (other (λ same. absurd (cc ((text_eq.same_iff user key).1 same, e)))).1,
  )
]

accepted_case :
    (key : String) (last n : ℕ) (user ip : String) (r : Reserved)
    → ip ≢ key
    → IsAdmitted key last ip user n r
    → user == key ≡ false
    → Stands last (find key (release_both r)) n
unfolding release_both
accepted_case key last n user ip r ne (named, _, other) e =
    let differs = λ (same : user ≡ key). absurd (cc ((text_eq.same_iff user key).1 same, e)) in
    let (named', stands) = other differs in
    let kept =
      release_other key last (λ n. n - 1) r.ip.key r.ip.reset_at r.attempts
        (λ same. ne (sym named ∙ same)) in
    let kept' =
      release_other key last (λ _. 0) r.user.key r.user.reset_at
        (release (λ n. n - 1) r.ip.key r.ip.reset_at r.attempts)
        (λ same. differs (sym named' ∙ same)) in
    subst (λ (o : Option Attempt). Stands last o n) (sym (kept' ∙ kept)) stands

abbrev pub is_signed_in : Result SignedIn → Bool
is_signed_in (ok s) = true
is_signed_in (err e) = false

abbrev pub is_throttled : Result SignedIn → Bool
is_throttled (ok s) = false
is_throttled (err e) = e.code == "RATE_LIMITED"

module _ (sha256 lower : String → String) (hashing : Hashing) (token key : String) where
  -- The request is for the name with this key.
  abbrev pub is_named : Result (String × String) → Bool
  is_named (err e) = false
  is_named (ok (username, password)) = user_key sha256 lower hashing token username == key

  -- One where the password of the request was compared for this name.
  abbrev pub compared : Option Fields → Result SignedIn → ℕ
  compared body reply =
      if is_named (read_credentials body) && not (is_throttled reply) then 1 else 0

  -- Sign-ins within 900 seconds from `start` on, none of which succeeds for the name, with the
  -- number of passwords that were compared for it.
  pub data Tried (start : ℕ) : Tables → ℕ → Tables → Type 0 where
    none_yet : {tables : Tables} → Tried start tables 0 tables
    tried :
        {tables last : Tables} {n : ℕ} (viewer : Option User) (remote : String) (moment : ℕ)
        (body : Option Fields)
        → start ≤ moment
        → moment < start + window_seconds
        → ip_key sha256 lower hashing token remote ≢ key
        → (is_named (read_credentials body) ≡ true
            → is_signed_in (login sha256 lower hashing token viewer remote moment body tables).0
              ≡ false)
        → Tried start (login sha256 lower hashing token viewer remote moment body tables).1 n last
        → Tried start tables
            (compared body (login sha256 lower hashing token viewer remote moment body tables).0
              + n)
            last

  -- What one request does to the count of the name: a compared password adds one, within the limit.
  abbrev Advances : ℕ → ℕ → Bool → List Attempt → Type 0
  Advances last n counts attempts =
      (counts ≡ true → Stands last (find key attempts) (suc n) × (suc n ≤ user_limit))
      × (counts ≡ false → Stands last (find key attempts) n)

  choose-Advances :
      (last n : ℕ) (valid : Bool) (viewer : Option User) (user : User) (named ip : String)
      (r : Reserved) (db : Db)
      → ip ≢ key
      → IsAdmitted key last ip named n r
      → let answer =
          if valid
          then accept sha256 lower hashing token user r db
          else refuse sha256 lower hashing token viewer r.attempts db in
        (named == key ≡ true → is_signed_in answer.0 ≡ false)
        → Advances last n (named == key && not (is_throttled answer.0)) answer.1.attempts
  unfolding accept refuse
  choose-Advances last n false viewer user named ip r db ne admitted failed =
      refused_case key last n named ip r admitted
  choose-Advances last n true viewer user named ip r db ne admitted failed =
      elim (Bool-cases (named == key)) [
        | inl e ↦ absurd (cc (failed e))
        | inr e ↦
            (λ yes'. absurd (cc (e, yes')), λ _. accepted_case key last n named ip r ne admitted e)
      ]

  compare_password-Advances :
      (last n : ℕ) (viewer found : Option User) (username password ip : String) (r : Reserved)
      (db : Db)
      → ip ≢ key
      → IsAdmitted key last ip (user_key sha256 lower hashing token username) n r
      → let answer = compare_password sha256 lower hashing token viewer found password r db in
        (user_key sha256 lower hashing token username == key ≡ true → is_signed_in answer.0 ≡ false)
        → Advances last n
            (user_key sha256 lower hashing token username == key && not (is_throttled answer.0))
            answer.1.attempts
  unfolding compare_password refuse
  compare_password-Advances last n viewer none username password ip r db ne admitted failed =
      refused_case key last n (user_key sha256 lower hashing token username) ip r admitted
  compare_password-Advances last n viewer (some user) username password ip r db ne admitted failed =
      choose-Advances last n (is_valid sha256 lower hashing token (some user) password) viewer user
        (user_key sha256 lower hashing token username) ip r db ne admitted failed

  -- Only a full window refuses to reserve.
  reserve_both-throttled :
      (ip user : String) (moment : ℕ) (attempts : List Attempt) {e : ApiError}
      → reserve_both ip user moment attempts ≡ err e
      → e ≡ throttled
  unfolding reserve_both
  reserve_both-throttled ip user moment attempts h =
      let a = ltb ip_limit (reserve ip moment (live moment attempts)).0.count in
      let b =
        ltb user_limit (reserve user moment (reserve ip moment (live moment attempts)).1).0.count in
      either_limit a b _ h
    where
      either_limit :
          (a b : Bool) (r : Reserved) {e : ApiError}
          → (fail_if a throttled >> (fail_if b throttled >> ok r)) ≡ err e
          → e ≡ throttled
      either_limit true b r h = cc
      either_limit false true r h = cc
      either_limit false false r h = absurd cc

  admit-Advances :
      (last n : ℕ) (viewer : Option User) (username password ip : String) (moment : ℕ)
      (tables : Tables) (answer : Result Reserved)
      → moment < last
      → last ≤ moment + window_seconds
      → ip ≢ key
      → Stands last (find key tables.attempts) n
      → reserve_both ip (user_key sha256 lower hashing token username) moment tables.attempts
        ≡ answer
      → let reply = admit sha256 lower hashing token viewer username password tables answer in
        (user_key sha256 lower hashing token username == key ≡ true → is_signed_in reply.0 ≡ false)
        → Advances last n
            (user_key sha256 lower hashing token username == key && not (is_throttled reply.0))
            reply.1.attempts
  unfolding admit
  admit-Advances last n viewer username password ip moment tables (err e) early late ne h made
        failed =
      let why = reserve_both-throttled ip _ moment tables.attempts made in
      rw why (λ counts. absurd (ground (arith, counts)), λ _. h)
  admit-Advances last n viewer username password ip moment tables (ok r) early late ne h made
        failed =
      compare_password-Advances last n viewer _ username password ip r tables.db ne
        (reserve_both-Stands key last ip _ moment n tables.attempts early late ne made h) failed

  attempt-Advances :
      (last n : ℕ) (viewer : Option User) (remote : String) (moment : ℕ) (tables : Tables)
      (credentials : Result (String × String))
      → moment < last
      → last ≤ moment + window_seconds
      → ip_key sha256 lower hashing token remote ≢ key
      → Stands last (find key tables.attempts) n
      → let reply = attempt sha256 lower hashing token viewer remote moment tables credentials in
        (is_named credentials ≡ true → is_signed_in reply.0 ≡ false)
        → Advances last n (is_named credentials && not (is_throttled reply.0)) reply.1.attempts
  unfolding attempt
  attempt-Advances last n viewer remote moment tables (err e) early late ne h failed =
      (λ counts. absurd cc, λ _. h)
  attempt-Advances last n viewer remote moment tables (ok (username, password)) early late ne h
        failed =
      admit-Advances last n viewer username password (ip_key sha256 lower hashing token remote)
        moment tables _ early late ne h refl failed

  Tried-le :
      (start n k : ℕ) {tables last : Tables}
      → n ≤ user_limit
      → Stands (start + window_seconds) (find key tables.attempts) n
      → Tried start tables k last
      → k + n ≤ user_limit
  unfolding login
  Tried-le start n k few h none_yet = omega (arith, few)
  Tried-le start n k {tables} few h
        (tried {n = m} viewer remote moment body from early ne failed rest) =
      let (counted, kept) =
        attempt-Advances (start + window_seconds) n viewer remote moment tables
          (read_credentials body) early (omega (arith, from)) ne h failed in
      let reply =
        attempt sha256 lower hashing token viewer remote moment tables (read_credentials body) in
      elim (Bool-cases (is_named (read_credentials body) && not (is_throttled reply.0))) [
        | inl e ↦
            let (stands, limit) = counted e in
            rw e (omega (arith, Tried-le start (suc n) m limit stands rest))
        | inr e ↦ rw e (omega (arith, Tried-le start n m few (kept e) rest))
      ]

  -- For each name, at most ten requests to sign in get past the throttle (so that their password
  -- is compared) within 900 seconds from a start, whoever else signs in meanwhile. The conditions
  -- are that the key of the name has no row at the start, that no address of a client has its key,
  -- and that none of the requests for the name succeeds.
  pub login_throttled :
      (start n : ℕ) (tables last : Tables)
      → find key tables.attempts ≡ none
      → Tried start tables n last
      → n ≤ user_limit
  login_throttled start n tables last new history =
      omega (arith, Tried-le start 0 n (omega arith) (rw new refl) history)
