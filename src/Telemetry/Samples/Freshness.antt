-- ===== src/Telemetry/Samples/Freshness.antt =====
-- Readers get samples that were really taken, at most four seconds before, and one at a time.
use mathlib.Core.Path.{subst}
use narsika.Base.{
  some_inj, ℕ, suc, ◌+◌, ◌≤◌, ◌<◌, Bool, true, false, Option, none, some, List, [], ◌∷◌, filter,
  contains, length, leb, IsDistinct, All, ◌==◌, ◌!=◌, HasEq, ok, ◌≡◌, ◌⊎◌, inl, inr, refl, arith,
  if_ind, if◌then◌else◌,
}
use narsika.Telemetry.Samples.{
  Entry, Shared, Turn, reuse, lifetime, cache_limit, find_entry, usable, drop_entry, drop_key,
  take_turn, arrive, make_room, put_entry, finish, abandon, answer, wake,
}

module _ {K : Type 0} ⦃e : HasEq K⦄ where
  drop_key-absent :
      (key k : K) (keys : List K) → contains k keys ≡ false → contains k (drop_key key keys) ≡ false
  unfolding drop_key
  drop_key-absent key k [] h = refl
  drop_key-absent key k (first ∷ rest) h = ground (arith, drop_key-absent key k rest)

  drop_key-IsDistinct : (key : K) (keys : List K) → IsDistinct keys → IsDistinct (drop_key key keys)
  unfolding drop_key
  drop_key-IsDistinct key [] h = tt
  drop_key-IsDistinct key (first ∷ rest) h =
      ground (arith, drop_key-absent key first rest, drop_key-IsDistinct key rest)

module _ {K V : Type 0} ⦃e : HasEq K⦄ where
  -- One of the samples that were taken.
  abbrev pub Taken : Entry K V → List (Entry K V) → Type 0
  Taken entry [] = ⊥
  Taken entry (other ∷ log) = (entry ≡ other) ⊎ Taken entry log

  pub record IsSound (log : List (Entry K V)) (s : Shared K V) : Type 0 where
    pub taken : All (λ entry. Taken entry log) s.cache
    pub bounded : length s.cache ≤ cache_limit
    pub single : IsDistinct s.pending

  find_entry-Taken :
      (key : K) (log cache : List (Entry K V)) {entry : Entry K V}
      → All (λ entry. Taken entry log) cache
      → find_entry key cache ≡ some entry
      → Taken entry log × (entry.key ≡ key)
  unfolding find_entry
  find_entry-Taken key log [] all h = absurd cc
  find_entry-Taken key log (first ∷ rest) {entry} all h =
      go (first.key == key) refl (find_entry-Taken key log rest all.1) h
    where
      go :
          (b : Bool)
          → first.key == key ≡ b
          → (find_entry key rest ≡ some entry → Taken entry log × (entry.key ≡ key))
          → (if b then some first else find_entry key rest) ≡ some entry
          → Taken entry log × (entry.key ≡ key)
      go true same later h =
          let eq : first ≡ entry = some_inj h in
          subst (λ (x : Entry K V). Taken x log × (x.key ≡ key)) eq
            (all.0, (e.same_iff first.key key).0 same)
      go false other later h = later h

  -- More samples were taken since.
  Taken-later :
      (new : Entry K V) (log cache : List (Entry K V))
      → All (λ entry. Taken entry log) cache
      → All (λ entry. Taken entry (new ∷ log)) cache
  Taken-later new log [] all = tt
  Taken-later new log (entry ∷ rest) all = (inr all.0, Taken-later new log rest all.1)

  drop_entry-All :
      (P : Entry K V → Type 0) (key : K) (cache : List (Entry K V))
      → All P cache
      → All P (drop_entry key cache)
  unfolding drop_entry
  drop_entry-All P key [] all = tt
  drop_entry-All P key (entry ∷ rest) all = go (entry.key != key) (drop_entry-All P key rest all.1)
    where
      go :
          (b : Bool)
          → All P (filter (λ (x : Entry K V). x.key != key) rest)
          → All P (elim b [
            | true ↦ entry ∷ filter (λ (x : Entry K V). x.key != key) rest
            | false ↦ filter (λ (x : Entry K V). x.key != key) rest
          ])
      go true later = (all.0, later)
      go false later = later

  length-drop_entry :
      (key : K) (cache : List (Entry K V)) → length (drop_entry key cache) ≤ length cache
  unfolding drop_entry
  length-drop_entry key [] = omega arith
  length-drop_entry key (entry ∷ rest) = ground (arith, length-drop_entry key rest)

  make_room-All :
      (P : Entry K V → Type 0) (cache : List (Entry K V)) → All P cache → All P (make_room cache)
  unfolding make_room
  make_room-All P [] all = tt
  make_room-All P (oldest ∷ rest) all =
      if_ind (All P) (leb cache_limit (length (oldest ∷ rest))) (λ _. all.1) (λ _. all)

  length-make_room :
      (cache : List (Entry K V))
      → length cache ≤ cache_limit
      → length (make_room cache) < cache_limit
  unfolding make_room
  length-make_room [] h = omega arith
  length-make_room (oldest ∷ rest) h = ground arith

  put_entry-All :
      (P : Entry K V → Type 0) (new : Entry K V) (cache : List (Entry K V))
      → P new
      → All P cache
      → All P (put_entry new cache)
  unfolding put_entry
  put_entry-All P new [] p all = (p, tt)
  put_entry-All P new (entry ∷ rest) p all =
      if_ind (All P) (entry.key == new.key) (λ _. (p, all.1))
        (λ _. (all.0, put_entry-All P new rest p all.1))

  length-put_entry :
      (new : Entry K V) (cache : List (Entry K V))
      → length (put_entry new cache) ≤ suc (length cache)
  unfolding put_entry
  length-put_entry new [] = omega arith
  length-put_entry new (entry ∷ rest) = ground (arith, length-put_entry new rest)

  take_turn-IsSound :
      (log : List (Entry K V)) (key : K) (s : Shared K V) (found : Option V)
      → IsSound log s
      → IsSound log (take_turn key s found).1
  unfolding take_turn
  take_turn-IsSound log key s (some value) sound = sound
  take_turn-IsSound log key s none sound =
      if_ind (λ (r : Turn K V × Shared K V). IsSound log r.1) (contains key s.pending) (λ _. sound)
        (λ free. record {
          taken = drop_entry-All (λ entry. Taken entry log) key s.cache sound.taken;
          bounded = omega (arith, length-drop_entry key s.cache, sound.bounded);
          single = (free, sound.single);
        })

  finish-IsSound :
      (log : List (Entry K V)) (key : K) (now : ℕ) (value : V) (s : Shared K V)
      → IsSound log s
      → IsSound (record { key = key; time = now; value = value } ∷ log) (finish key now value s)
  unfolding finish
  finish-IsSound log key now value s sound =
      let new : Entry K V = record { key = key; time = now; value = value } in
      record {
        taken =
            put_entry-All (λ entry. Taken entry (new ∷ log)) new (make_room s.cache) (inl refl)
              (make_room-All (λ entry. Taken entry (new ∷ log)) s.cache
                (Taken-later new log s.cache sound.taken));
        bounded = omega (
          arith,
          length-put_entry new (make_room s.cache),
          length-make_room s.cache sound.bounded,
        );
        single = drop_key-IsDistinct key s.pending sound.single;
      }

  -- What the readers' threads do, in any order; `log` has the samples that were taken. Only an owner
  -- finishes or fails.
  pub data Reach : List (Entry K V) → Shared K V → Type 0 where
    idle : Reach [] (record { cache = []; pending = [] })
    arrived :
        {log : List (Entry K V)} {s : Shared K V} (key : K) (now : ℕ)
        → Reach log s
        → Reach log (arrive key now s).1
    finished :
        {log : List (Entry K V)} {s : Shared K V} (key : K) (now : ℕ) (value : V)
        → contains key s.pending ≡ true
        → Reach log s
        → Reach (record { key = key; time = now; value = value } ∷ log) (finish key now value s)
    failed :
        {log : List (Entry K V)} {s : Shared K V} (key : K)
        → contains key s.pending ≡ true
        → Reach log s
        → Reach log (abandon key s)

  Reach-IsSound : {log : List (Entry K V)} {s : Shared K V} → Reach log s → IsSound log s
  unfolding arrive abandon
  Reach-IsSound idle = record { taken = tt; bounded = omega arith; single = tt }
  Reach-IsSound {log} (arrived {s = s} key now before) =
      take_turn-IsSound log key s (usable now (find_entry key s.cache)) (Reach-IsSound before)
  Reach-IsSound (finished {log = log} {s = s} key now value owner before) =
      finish-IsSound log key now value s (Reach-IsSound before)
  Reach-IsSound (failed {s = s} key owner before) =
      let sound = Reach-IsSound before in
      record {
        taken = sound.taken;
        bounded = sound.bounded;
        single = drop_key-IsDistinct key s.pending sound.single;
      }

  usable-fresh :
      (now : ℕ) (found : Option (Entry K V)) {value : V}
      → usable now found ≡ some value
      → (entry : Entry K V) × (found ≡ some entry)
        × (entry.value ≡ value)
        × (now < entry.time + lifetime)
  unfolding usable
  usable-fresh now none h = absurd cc
  usable-fresh now (some entry) h = (entry, refl, ground arith, ground arith)

  read-usable :
      (key : K) (now : ℕ) (s : Shared K V) (signalled : Bool) {value : V}
      → ((arrive key now s).0 ≡ reuse value) ⊎ (wake signalled key now s ≡ ok value)
      → usable now (find_entry key s.cache) ≡ some value
  unfolding arrive wake take_turn answer
  read-usable key now s signalled (inl h) = ground arith
  read-usable key now s true (inr h) = ground arith
  read-usable key now s false (inr h) = absurd cc

  -- In every state that readers reach in any order, a sample that a reader reuses, at once or
  -- after it has waited, was really taken for its key less than four seconds before; the cache has
  -- at most 256 samples, and no key has two owners.
  pub reader-Fresh :
      (log : List (Entry K V)) (s : Shared K V) (key : K) (now : ℕ) (signalled : Bool) (value : V)
      → Reach log s
      → ((arrive key now s).0 ≡ reuse value) ⊎ (wake signalled key now s ≡ ok value)
      → ((entry : Entry K V) × Taken entry log
          × (entry.key ≡ key)
          × (entry.value ≡ value)
          × (now < entry.time + lifetime))
        × (length s.cache ≤ cache_limit)
        × IsDistinct s.pending
  reader-Fresh log s key now signalled value reach read =
      let sound = Reach-IsSound reach in
      let (entry, found, same, fresh) =
        usable-fresh now (find_entry key s.cache) (read-usable key now s signalled read) in
      let (taken, named) = find_entry-Taken key log s.cache sound.taken found in
      ((entry, taken, named, same, fresh), sound.bounded, sound.single)
