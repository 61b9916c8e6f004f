-- ===== src/Network/Lock/Exclusion.antt =====
-- The lock as a client sees it: sessions on devices, one on each and eight in all.
use mathlib.Core.Path.{subst}
use narsika.Base.{
  if_ind, sym, ◌∙◌, err, ℕ, suc, ◌+◌, ◌≤◌, ◌<◌, Bool, true, false, ◌||◌, List, [], ◌∷◌, any, count,
  ◌==◌, nat_eq, HasEq, ok, ◌≡◌, refl, arith, Bool-cases, inl, inr, if◌then◌else◌,
}
use narsika.Network.Lock.{
  connection_busy, Phase, waiting, inside, is_inside, Locks, slots, holds, is_user, try_mutex,
  set_inside, take_slot, drop_holder, give_up, leave, Step, entered, began, refused, left,
}

-- Who has a session, and how many sessions there are.
pub record Sessions (A : Type 0) : Type 0 where
  pub has : A → Bool
  pub total : ℕ

module _ {A : Type 0} ⦃e : HasEq A⦄ where
  -- What a client may see happen.
  pub data Spec (a b : Sessions A) : Type 0 where
    nothing : ((k : A) → b.has k ≡ a.has k) → b.total ≡ a.total → Spec a b
    begins :
        (key : A)
        → a.has key ≡ false
        → a.total < slots
        → ((k : A) → b.has k ≡ (key == k || a.has k))
        → b.total ≡ suc a.total
        → Spec a b
    ends :
        (key : A)
        → a.has key ≡ true
        → b.has key ≡ false
        → ((k : A) → key == k ≡ false → b.has k ≡ a.has k)
        → suc b.total ≡ a.total
        → Spec a b

  abbrev pub uses : A × Phase → Bool
  uses (key, phase) = is_inside phase

  abbrev pub sessions : Locks A → Sessions A
  sessions s = record { has = λ k. any (is_user k) s.holders; total = count uses s.holders }

  -- No device is held twice, and the slots add up.
  abbrev pub Once : List (A × Phase) → Type 0
  Once [] = Unit
  Once ((key, phase) ∷ rest) = (any (holds key) rest ≡ false) × Once rest

  pub record IsSound (s : Locks A) : Type 0 where
    pub once : Once s.holders
    pub slots_add : s.free + count uses s.holders ≡ slots

  not_user :
      (k : A) (rest : List (A × Phase)) → any (holds k) rest ≡ false → any (is_user k) rest ≡ false
  not_user k [] h = refl
  not_user k ((other, phase) ∷ rest) h = ground (arith, not_user k rest)

  -- A holder that waits takes a slot.
  set_inside-uses :
      (key : A) (l : List (A × Phase))
      → any (holds key) l ≡ true
      → any (is_user key) l ≡ false
      → count uses (set_inside key l) ≡ suc (count uses l)
  unfolding set_inside
  set_inside-uses key [] held idle = absurd cc
  set_inside-uses key ((other, waiting) ∷ rest) held idle = ground (arith, set_inside-uses key rest)
  set_inside-uses key ((other, inside) ∷ rest) held idle = ground (arith, set_inside-uses key rest)

  set_inside-has :
      (key k : A) (l : List (A × Phase))
      → any (holds key) l ≡ true
      → any (is_user k) (set_inside key l) ≡ (key == k || any (is_user k) l)
  unfolding set_inside
  set_inside-has key k [] held = absurd cc
  set_inside-has key k ((other, waiting) ∷ rest) held =
      ground (
        arith,
        e.same_iff other key,
        e.same_iff key k,
        e.same_iff other k,
        set_inside-has key k rest,
      )
  set_inside-has key k ((other, inside) ∷ rest) held =
      ground (
        arith,
        e.same_iff other key,
        e.same_iff key k,
        e.same_iff other k,
        set_inside-has key k rest,
      )

  set_inside-holds :
      (key k : A) (l : List (A × Phase)) → any (holds k) (set_inside key l) ≡ any (holds k) l
  unfolding set_inside
  set_inside-holds key k [] = refl
  set_inside-holds key k ((other, phase) ∷ rest) = ground (arith, set_inside-holds key k rest)

  set_inside-Once : (key : A) (l : List (A × Phase)) → Once l → Once (set_inside key l)
  unfolding set_inside
  set_inside-Once key [] once = tt
  set_inside-Once key ((other, phase) ∷ rest) once =
      if_ind Once (other == key) (λ _. once)
        λ _. (set_inside-holds key other rest ∙ once.0, set_inside-Once key rest once.1)

  -- A holder leaves.
  drop_holder-absent :
      (key k : A) (l : List (A × Phase))
      → any (holds k) l ≡ false
      → any (holds k) (drop_holder key l) ≡ false
  unfolding drop_holder
  drop_holder-absent key k [] h = refl
  drop_holder-absent key k ((other, phase) ∷ rest) h = ground (arith, drop_holder-absent key k rest)

  drop_holder-Once : (key : A) (l : List (A × Phase)) → Once l → Once (drop_holder key l)
  unfolding drop_holder
  drop_holder-Once key [] once = tt
  drop_holder-Once key ((other, phase) ∷ rest) once =
      if_ind Once (other == key) (λ _. once.1)
        λ _. (drop_holder-absent key other rest once.0, drop_holder-Once key rest once.1)

  drop_holder-gone :
      (key : A) (l : List (A × Phase)) → Once l → any (holds key) (drop_holder key l) ≡ false
  unfolding drop_holder
  drop_holder-gone key [] once = refl
  drop_holder-gone key ((other, phase) ∷ rest) once =
      ground (arith, e.same_iff other key, drop_holder-gone key rest)

  drop_holder-other :
      (key k : A) (l : List (A × Phase))
      → key == k ≡ false
      → any (is_user k) (drop_holder key l) ≡ any (is_user k) l
  unfolding drop_holder
  drop_holder-other key k [] ne = refl
  drop_holder-other key k ((other, phase) ∷ rest) ne = ground (
    arith,
    e.same_iff other key,
    e.same_iff key k,
    e.same_iff other k,
    drop_holder-other key k rest,
  )

  drop_holder-uses :
      (key : A) (l : List (A × Phase))
      → Once l
      → any (is_user key) l ≡ true
      → suc (count uses (drop_holder key l)) ≡ count uses l
  unfolding drop_holder
  drop_holder-uses key [] once user = absurd cc
  drop_holder-uses key ((other, waiting) ∷ rest) once user =
      ground (arith, e.same_iff other key, not_user key rest, drop_holder-uses key rest)
  drop_holder-uses key ((other, inside) ∷ rest) once user =
      ground (arith, e.same_iff other key, not_user key rest, drop_holder-uses key rest)

  drop_waiter-uses :
      (key : A) (l : List (A × Phase))
      → any (is_user key) l ≡ false
      → count uses (drop_holder key l) ≡ count uses l
  unfolding drop_holder
  drop_waiter-uses key [] idle = refl
  drop_waiter-uses key ((other, waiting) ∷ rest) idle = ground (arith, drop_waiter-uses key rest)
  drop_waiter-uses key ((other, inside) ∷ rest) idle = ground (arith, drop_waiter-uses key rest)

  drop_waiter-has :
      (key k : A) (l : List (A × Phase))
      → Once l
      → any (is_user key) l ≡ false
      → any (is_user k) (drop_holder key l) ≡ any (is_user k) l
  drop_waiter-has key k l once idle = elim (Bool-cases (key == k)) [
    | inl same ↦
        let eq = (e.same_iff key k).0 same in
        subst (λ (x : A). any (is_user x) (drop_holder key l) ≡ any (is_user x) l) eq
          (not_user key (drop_holder key l) (drop_holder-gone key l once) ∙ sym idle)
    | inr ne ↦ drop_holder-other key k l ne
  ]

  -- Entering only waits.
  try_mutex-new :
      (key : A) (s : Locks A) {t : Locks A}
      → try_mutex key s ≡ ok t
      → (any (holds key) s.holders ≡ false)
        × (t ≡ record s { holders = (key, waiting) ∷ s.holders })
  unfolding try_mutex
  try_mutex-new key s {t} h = go (any (holds key) s.holders) h
    where
      go :
          (held : Bool)
          → (if held
              then err (connection_busy "This device already has an active operation." 409)
              else ok (record s { holders = (key, waiting) ∷ s.holders }))
            ≡ ok t
          → (held ≡ false) × (t ≡ record s { holders = (key, waiting) ∷ s.holders })
      go true h = absurd cc
      go false h = (refl, cc)

  step-refines : (s t : Locks A) → Step s t → IsSound s → IsSound t × Spec (sessions s) (sessions t)
  unfolding take_slot give_up leave
  step-refines s t (entered key h) sound =
      let (new, after) = try_mutex-new key s h in
      rw after (
        record { once = (new, sound.once); slots_add = sound.slots_add },
        nothing (λ k. ground arith) refl,
      )
  step-refines s t (began key held idle some_free after) sound =
      let grown = set_inside-uses key s.holders held idle in
      rw after (
        record {
          once = set_inside-Once key s.holders sound.once;
          slots_add = ground (arith, grown);
        },
        begins key idle (ground arith) (λ k. set_inside-has key k s.holders held) grown,
      )
  step-refines s t (refused key held idle after) sound =
      let same = drop_waiter-uses key s.holders idle in
      rw after (
        record {
          once = drop_holder-Once key s.holders sound.once;
          slots_add = omega (arith, same);
        },
        nothing (λ k. drop_waiter-has key k s.holders sound.once idle) same,
      )
  step-refines s t (left key user after) sound =
      let fewer = drop_holder-uses key s.holders sound.once user in
      rw after (
        record {
          once = drop_holder-Once key s.holders sound.once;
          slots_add = omega (arith, fewer);
        },
        ends key user
            (not_user key (drop_holder key s.holders) (drop_holder-gone key s.holders sound.once))
            (λ k. drop_holder-other key k s.holders) fewer,
      )

  -- Any sequence of steps, the latest last.
  pub data Steps (first : Locks A) : Locks A → Type 0 where
    no_step : Steps first first
    then_step : {now after : Locks A} → Steps first now → Step now after → Steps first after

  abbrev pub unlocked : Locks A
  unlocked = record { holders = []; free = slots }

  Steps-IsSound : {s t : Locks A} → Steps s t → IsSound s → IsSound t
  Steps-IsSound no_step sound = sound
  Steps-IsSound (then_step {now = now} {after = after} before step) sound =
      (step-refines now after step (Steps-IsSound before sound)).0

  -- Each step of the threads from the unlocked state is, for a client of device_lock, no change of
  -- the sessions, the begin of a session on a device that has none while fewer than eight are
  -- open, or the end of one; and at most eight are open after it.
  pub device_lock-refines :
      (s t : Locks A)
      → Steps unlocked s
      → Step s t
      → Spec (sessions s) (sessions t) × (count uses t.holders ≤ slots)
  device_lock-refines s t before step =
      let start : IsSound unlocked = record { once = tt; slots_add = refl } in
      let (sound, spec) = step-refines s t step (Steps-IsSound before start) in
      (spec, omega (arith, sound.slots_add))
