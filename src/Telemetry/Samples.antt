-- ===== src/Telemetry/Samples.antt =====
-- `coalesced_sample` of app/services/telemetry.py: concurrent readers of a device share one sample,
-- and reuse it for four seconds. Times are milliseconds of the monotonic clock.
pub mod Freshness
use narsika.Base.{
  ℕ, ◌-◌, Bool, true, false, not, Option, none, some, List, [], ◌∷◌, ◌++◌, filter, contains, length,
  ltb, leb, ◌==◌, ◌!=◌, HasEq, Result, ok, err, fail, if◌then◌else◌,
}

module _ (K V : Type 0) where
  -- A sample, with the time when it was stored.
  pub record Entry : Type 0 where
    pub key : K
    pub time : ℕ
    pub value : V

  -- `telemetry_samples` in the order of insertion, and the keys of `telemetry_pending`.
  pub record Shared : Type 0 where
    pub cache : List Entry
    pub pending : List K

  -- What a reader does next: it returns a value, takes the sample itself, or waits for another.
  pub data Turn : Type 0 where
    reuse : V → Turn
    own : Turn
    wait : Turn

abbrev pub lifetime : ℕ
lifetime = 4000

abbrev pub cache_limit : ℕ
cache_limit = 256

-- `pending.pop(key, None)`
unfoldable pub drop_key {ℓ} : {K : Type ℓ} ⦃e : HasEq K⦄ → K → List K → List K
drop_key key keys = filter (λ k. k != key) keys

answer {ℓ} : {V : Type ℓ} → Option V → Result V
answer (some value) = ok value
answer none =
    fail "The concurrent device sample failed. Retry to obtain a fresh result." "SAMPLE_FAILED" 502

module _ {K V : Type 0} ⦃e : HasEq K⦄ where
  unfoldable pub find_entry : K → List (Entry K V) → Option (Entry K V)
  find_entry key [] = none
  find_entry key (entry ∷ rest) = if entry.key == key then some entry else find_entry key rest

  -- `entry and time.monotonic()-entry[0]<4`
  unfoldable pub usable : ℕ → Option (Entry K V) → Option V
  usable now none = none
  usable now (some entry) = if ltb (now - entry.time) lifetime then some entry.value else none

  -- `cache.pop(key, None)`
  unfoldable pub drop_entry : K → List (Entry K V) → List (Entry K V)
  drop_entry key cache = filter (λ (entry : Entry K V). entry.key != key) cache

  -- The first critical section.
  take_turn : K → Shared K V → Option V → Turn K V × Shared K V
  unfolding drop_entry
  take_turn key s (some value) = (reuse value, s)
  take_turn key s none =
      if contains key s.pending
      then (wait, s)
      else (own, record { cache = drop_entry key s.cache; pending = key ∷ s.pending })

  unfoldable pub arrive : K → ℕ → Shared K V → Turn K V × Shared K V
  unfolding take_turn usable find_entry
  arrive key now s = take_turn key s (usable now (find_entry key s.cache))

  -- `if len(cache)>=256:cache.pop(next(iter(cache)))`
  unfoldable pub make_room : List (Entry K V) → List (Entry K V)
  make_room [] = []
  make_room (oldest ∷ rest) =
      if leb cache_limit (length (oldest ∷ rest)) then rest else oldest ∷ rest

  -- `cache[key]=…`: a key that is there keeps its place.
  unfoldable pub put_entry : Entry K V → List (Entry K V) → List (Entry K V)
  put_entry new [] = new ∷ []
  put_entry new (entry ∷ rest) =
      let later = put_entry new rest in if entry.key == new.key then new ∷ rest else entry ∷ later

  -- The owner has its sample, and the `finally` that wakes the waiters.
  unfoldable pub finish : K → ℕ → V → Shared K V → Shared K V
  unfolding put_entry make_room drop_key
  finish key now value s = record {
    cache = put_entry (record { key = key; time = now; value = value }) (make_room s.cache);
    pending = drop_key key s.pending;
  }

  -- The sample of the owner has failed.
  unfoldable pub abandon : K → Shared K V → Shared K V
  unfolding drop_key
  abandon key s = record s { pending = drop_key key s.pending }

  -- A waiter wakes in time, or `signalled` is false after 30 seconds.
  unfoldable pub wake : Bool → K → ℕ → Shared K V → Result V
  unfolding answer usable find_entry
  wake false key now s = fail "A device sample is still in progress. Retry shortly." "BUSY" 429
  wake true key now s = answer (usable now (find_entry key s.cache))
