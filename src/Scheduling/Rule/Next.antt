-- ===== src/Scheduling/Rule/Next.antt =====
-- `next_time` finds the first instant of the rule after a given one.
use Prim.Native.Nat.{max}
use mathlib.Core.Path.{subst}
use narsika.Base.{
  ℕ, zero, suc, ◌+◌, ◌-◌, ◌*◌, ◌/◌, ◌≤◌, ◌<◌, true, Option, none, some, ltb, leb, eqb_iff, ◌==◌,
  nat_eq, ok, ◌≡◌, ◌≢◌, inl, inr, refl, sym, ap, ◌∙◌, arith, Option-cases, Bool-cases,
  if◌then◌else◌,
}
use narsika.Scheduling.Rule.{
  Local, Zone, Frequency, once, daily, interval, weekly, Rule, wall_time, is_day, is_due, candidate,
  search_days, next_interval, next_from, day_result, next_time, day_limit,
}

-- The instants of a rule, apart from the order in which the code looks for them.
abbrev pub Slot : Zone → Rule → ℕ → Frequency → ℕ → Type 0
Slot zone rule anchor once t = t ≡ anchor
Slot zone rule anchor (interval hours) t = (k : ℕ) × (t ≡ anchor + k * (hours * 3600))
Slot zone rule anchor frequency t =
    (date : ℕ) × (rule.start.date ≤ date)
    × (is_day frequency date ≡ true)
    × (wall_time zone (record { date = date; time = rule.start.time }) ≡ some t)

-- The local date does not go back.
pub record IsZone (zone : Zone) : Type 0 where
  pub forward : (a b : ℕ) → a ≤ b → (zone.to_local a).date ≤ (zone.to_local b).date

-- `t` is the first instant of a rule of this frequency after `after`.
pub record IsFirst (zone : Zone) (rule : Rule) (frequency : Frequency) (anchor after t : ℕ)
    : Type 0 where
  pub later : after < t
  pub begun : anchor ≤ t
  pub slot : Slot zone rule anchor frequency t
  pub least : (u : ℕ) → Slot zone rule anchor frequency u → after < u → anchor ≤ u → t ≤ u

-- An interval has at least one hour.
abbrev pub HasHours : Frequency → Type 0
HasHours (interval hours) = 1 ≤ hours
HasHours frequency = Unit

wall_time-date :
    (zone : Zone) (value : Local) {t : ℕ}
    → wall_time zone value ≡ some t
    → (zone.to_local t).date ≡ value.date
unfolding wall_time
wall_time-date zone value h =
    ground (arith, eqb_iff (zone.to_local (zone.to_instant value)).date value.date)

module _ (zone : Zone) (rule : Rule) (anchor after : ℕ) where
  search_days-some :
      (left date : ℕ) {t : ℕ}
      → search_days zone rule anchor after left date ≡ some t
      → (d : ℕ) × (date ≤ d)
        × (candidate zone rule anchor after d ≡ some t)
        × ((e : ℕ) → date ≤ e → e < d → candidate zone rule anchor after e ≡ none)
  unfolding search_days
  search_days-some zero date h = absurd cc
  search_days-some (suc left) date {t} h =
      elim (Option-cases (candidate zone rule anchor after date)) [
        | inl e ↦
            let (d, low, found, before) = search_days-some left (suc date) (go e h) in
            (
              d,
              omega (arith, low),
              found,
              λ x least most. elim (Bool-cases (x == date)) [
                | inl same ↦ ap (candidate zone rule anchor after) ((eqb_iff x date).0 same) ∙ e
                | inr other ↦ before x (ground (arith, eqb_iff x date)) most
              ],
            )
        | inr (u, e) ↦
            (date, omega arith, here e h, λ x least most. absurd (omega (arith, least, most)))
      ]
    where
      go :
          candidate zone rule anchor after date ≡ none
          → search_days zone rule anchor after (suc left) date ≡ some t
          → search_days zone rule anchor after left (suc date) ≡ some t
      go e h = ground arith

      here :
          {u : ℕ}
          → candidate zone rule anchor after date ≡ some u
          → search_days zone rule anchor after (suc left) date ≡ some t
          → candidate zone rule anchor after date ≡ some t
      here e h = ground arith

  candidate-some :
      (date : ℕ) {t : ℕ}
      → candidate zone rule anchor after date ≡ some t
      → (is_day rule.frequency date ≡ true)
        × (wall_time zone (record { date = date; time = rule.start.time }) ≡ some t)
        × (anchor ≤ t)
        × (after < t)
  unfolding candidate is_due
  candidate-some date h = ground arith

  some-candidate :
      (date : ℕ) {t : ℕ}
      → is_day rule.frequency date ≡ true
      → wall_time zone (record { date = date; time = rule.start.time }) ≡ some t
      → anchor ≤ t
      → after < t
      → candidate zone rule anchor after date ≡ some t
  unfolding candidate is_due
  some-candidate date day wall begun later = ground arith

next_multiple : (n s : ℕ) → 0 < s → n < (n / s + 1) * s
next_multiple n s h = grind arith

next_multiple-le : (n s k : ℕ) → 0 < s → n < k * s → (n / s + 1) * s ≤ k * s
next_multiple-le n s k h less = grind arith

-- The first multiple that lies behind.
next_interval-IsFirst :
    (hours anchor after : ℕ)
    → 1 ≤ hours
    → (after < next_interval hours anchor after)
      × (anchor ≤ next_interval hours anchor after)
      × ((k : ℕ) × (next_interval hours anchor after ≡ anchor + k * (hours * 3600)))
      × ((k : ℕ)
          → after < anchor + k * (hours * 3600)
          → next_interval hours anchor after ≤ anchor + k * (hours * 3600))
unfolding next_interval
next_interval-IsFirst hours anchor after positive = elim (Bool-cases (ltb after anchor)) [
  | inl e ↦ rw e (ground (arith, e), omega arith, (0, omega arith), λ k h. omega arith)
  | inr e ↦ rw e (
    ground (arith, e, next_multiple (after - anchor) (hours * 3600) (omega arith)),
    omega arith,
    ((after - anchor) / (hours * 3600) + 1, refl),
    λ k h. ground (arith, e, h, next_multiple-le (after - anchor) (hours * 3600) k (omega arith)),
  )
]

module _ (zone : Zone) (rule : Rule) (anchor after : ℕ) (clock : IsZone zone) where
  abbrev first_day : ℕ
  first_day = max rule.start.date (zone.to_local after).date

  -- A slot on a day: what `Slot` says for the rules that go by days.
  abbrev DaySlot : ℕ → Type 0
  DaySlot t =
      (date : ℕ) × (rule.start.date ≤ date)
      × (is_day rule.frequency date ≡ true)
      × (wall_time zone (record { date = date; time = rule.start.time }) ≡ some t)

  search_days-least :
      (d : ℕ) {t : ℕ}
      → wall_time zone (record { date = d; time = rule.start.time }) ≡ some t
      → ((e : ℕ) → first_day ≤ e → e < d → candidate zone rule anchor after e ≡ none)
      → (u : ℕ) → DaySlot u
      → after < u
      → anchor ≤ u
      → t ≤ u
  search_days-least d {t} wall before u (e, started, day, at) later begun =
      let chosen = some-candidate zone rule anchor after e day at begun later in
      let here = wall_time-date zone (record { date = e; time = rule.start.time }) at in
      let there = wall_time-date zone (record { date = d; time = rule.start.time }) wall in
      let reached = clock.forward after u (omega (arith, later)) in
      elim (Bool-cases (leb t u)) [
        | inl le ↦ ground (arith, le)
        | inr gt ↦
            let back = clock.forward u t (ground (arith, gt)) in
            elim (Bool-cases (ltb e d)) [
              | inl less ↦ absurd (
                  some-none (
                    sym chosen
                    ∙ before e (omega (arith, started, reached, here)) (ground (arith, less))))
              | inr more ↦
                  let same =
                    omega_eq e d (ground (arith, more)) (omega (arith, back, here, there)) in
                  absurd (
                    differ t u (ground (arith, gt)) (
                      some_inj (
                        sym wall
                        ∙ ap (λ x. wall_time zone (record { date = x; time = rule.start.time }))
                            (sym same)
                        ∙ at)))
            ]
      ]
    where
      some-none : {x : ℕ} → some x ≢ none
      some-none h = cc

      some_inj : {x y : ℕ} → some x ≡ some y → x ≡ y
      some_inj h = cc

      omega_eq : (x y : ℕ) → y ≤ x → x ≤ y → x ≡ y
      omega_eq x y h k = omega (arith, h, k)

      differ : (x y : ℕ) → y < x → x ≢ y
      differ x y h same = omega (arith, h, same)

  search_days-IsFirst :
      (left : ℕ) {t : ℕ}
      → search_days zone rule anchor after left first_day ≡ some t
      → (after < t)
        × (anchor ≤ t)
        × DaySlot t
        × ((u : ℕ) → DaySlot u → after < u → anchor ≤ u → t ≤ u)
  search_days-IsFirst left {t} h =
      let (d, low, found, before) = search_days-some zone rule anchor after left first_day h in
      let (day, wall, begun, later) = candidate-some zone rule anchor after d found in
      (later, begun, (d, omega (arith, low), day, wall), search_days-least d wall before)

  -- The same, where the frequency is known to be `f`.
  days-IsFirst :
      (f : Frequency)
      → rule.frequency ≡ f
      → {t : ℕ} → day_result (search_days zone rule anchor after day_limit first_day) ≡ ok (some t)
      → (after < t)
        × (anchor ≤ t)
        × ((date : ℕ) × (rule.start.date ≤ date)
            × (is_day f date ≡ true)
            × (wall_time zone (record { date = date; time = rule.start.time }) ≡ some t))
        × ((u : ℕ)
            → ((date : ℕ) × (rule.start.date ≤ date)
                × (is_day f date ≡ true)
                × (wall_time zone (record { date = date; time = rule.start.time }) ≡ some u))
            → after < u
            → anchor ≤ u
            → t ≤ u)
  days-IsFirst f e {t} h =
      let (later, begun, (date, started, day, wall), least) =
        search_days-IsFirst day_limit
          (found (search_days zone rule anchor after day_limit first_day) h) in
      (
        later,
        begun,
        (date, started, ap (λ g. is_day g date) (sym e) ∙ day, wall),
        λ u (d, s, i, w). least u (d, s, ap (λ g. is_day g d) e ∙ i, w),
      )
    where
      found : (o : Option ℕ) → day_result o ≡ ok (some t) → o ≡ some t
      found o h = unfold day_result in ground arith

  next_from-IsFirst :
      (f : Frequency)
      → rule.frequency ≡ f
      → HasHours f
      → {t : ℕ} → next_from zone rule anchor after f ≡ ok (some t)
      → IsFirst zone rule f anchor after t
  unfolding next_from
  next_from-IsFirst once e hours {t} h =
      let (same, later) = go h in
      record {
        later = omega (arith, same, later);
        begun = omega (arith, same);
        slot = same;
        least = λ u is after' from. omega (arith, same, is);
      }
    where
      go :
          ok (if ltb after anchor then some anchor else none) ≡ ok (some t)
          → (t ≡ anchor) × (after < anchor)
      go h = ground arith
  next_from-IsFirst (interval hours) e positive {t} h =
      let (later, begun, slot, least) = next_interval-IsFirst hours anchor after positive in
      subst (λ x. IsFirst zone rule (interval hours) anchor after x) (go h)
        (record {
          later = later;
          begun = begun;
          slot = slot;
          least = λ u (k, is) behind from. rw is (least k (rw (sym is) behind));
        })
    where
      go :
          ok (some (next_interval hours anchor after)) ≡ ok (some t)
          → next_interval hours anchor after ≡ t
      go h = cc
  next_from-IsFirst daily e hours h =
      let (later, begun, slot, least) = days-IsFirst daily e h in
      record { later = later; begun = begun; slot = slot; least = least }
  next_from-IsFirst (weekly weekdays) e hours h =
      let (later, begun, slot, least) = days-IsFirst (weekly weekdays) e h in
      record { later = later; begun = begun; slot = slot; least = least }

-- The instant that next_time returns is one of the rule's, behind the given instant and not before
-- the start, and no other such instant is earlier: the start itself, a whole number of intervals
-- after it, or a day of the rule at the local time of the start, where that local time exists. The
-- conditions are that the start has an instant, that an interval has at least one hour, and that
-- local dates do not go back.
pub next_time-IsFirst :
    (zone : Zone) (rule : Rule) (after anchor : ℕ) {t : ℕ}
    → IsZone zone
    → HasHours rule.frequency
    → wall_time zone rule.start ≡ some anchor
    → next_time zone rule after ≡ ok (some t)
    → IsFirst zone rule rule.frequency anchor after t
unfolding next_time
next_time-IsFirst zone rule after anchor {t} clock hours at h =
    next_from-IsFirst zone rule anchor after clock rule.frequency refl hours (go h)
  where
    go :
        next_time zone rule after ≡ ok (some t)
        → next_from zone rule anchor after rule.frequency ≡ ok (some t)
    go h = ground (arith, at)

days-later :
    (zone : Zone) (rule : Rule) (anchor after date : ℕ) {t : ℕ}
    → day_result (search_days zone rule anchor after day_limit date) ≡ ok (some t)
    → after < t
unfolding day_result
days-later zone rule anchor after date {t} h =
    let (d, _, found, _) =
      search_days-some zone rule anchor after day_limit date
        (go (search_days zone rule anchor after day_limit date) h) in
    (candidate-some zone rule anchor after d found).3
  where
    go : (o : Option ℕ) → day_result o ≡ ok (some t) → o ≡ some t
    go o h = ground arith

-- The next instant lies behind the given one, whatever the zone does.
next_from-later :
    (zone : Zone) (rule : Rule) (anchor after : ℕ) (f : Frequency) {t : ℕ}
    → HasHours f
    → next_from zone rule anchor after f ≡ ok (some t)
    → after < t
unfolding next_from day_result
next_from-later zone rule anchor after once hours h = ground arith
next_from-later zone rule anchor after (interval hours) positive h =
    ground (arith, h, (next_interval-IsFirst hours anchor after positive).0)
next_from-later zone rule anchor after daily {t} hours h = days-later zone rule anchor after _ h
next_from-later zone rule anchor after (weekly weekdays) hours h =
    days-later zone rule anchor after _ h

pub next_time-later :
    (zone : Zone) (rule : Rule) (after : ℕ) {t : ℕ}
    → HasHours rule.frequency
    → next_time zone rule after ≡ ok (some t)
    → after < t
unfolding next_time
next_time-later zone rule after {t} hours h = elim (Option-cases (wall_time zone rule.start)) [
  | inl e ↦ absurd (raises e h)
  | inr (anchor, e) ↦ next_from-later zone rule anchor after rule.frequency hours (goes anchor e h)
]
  where
    raises : wall_time zone rule.start ≡ none → next_time zone rule after ≢ ok (some t)
    raises e h = ground (arith, e)

    goes :
        (anchor : ℕ)
        → wall_time zone rule.start ≡ some anchor
        → next_time zone rule after ≡ ok (some t)
        → next_from zone rule anchor after rule.frequency ≡ ok (some t)
    goes anchor e h = ground (arith, e)
