-- ===== src/Scheduling/Rule.antt =====
-- `wall_time`, `next_time` and `upcoming` of app/services/scheduling.py. Instants are whole seconds;
-- `floor` of the quotient that the code takes does not depend on the fraction. The time zone
-- (`zoneinfo`) is a parameter.
pub mod Next
use Prim.Native.Nat.{max}
use narsika.Base.{
  ℕ, zero, suc, ◌+◌, ◌-◌, ◌*◌, ◌/◌, ◌%◌, String, Bool, true, false, not, ◌&&◌, ◌||◌, Option, none,
  some, List, [], ◌∷◌, ltb, leb, contains, ◌==◌, nat_eq, Result, ok, err, fail, invalid,
  if◌then◌else◌, ◌>>=◌,
}

-- A local date and time: the day by its ordinal, the time of day in seconds.
pub record Local : Type 0 where
  pub date : ℕ
  pub time : ℕ

-- `aware.timestamp()` of the first occurrence, and `datetime.fromtimestamp`
pub record Zone : Type 0 where
  pub to_instant : Local → ℕ
  pub to_local : ℕ → Local

pub data Frequency : Type 0 where
  once daily : Frequency
  interval : (hours : ℕ) → Frequency
  weekly : (weekdays : List ℕ) → Frequency

pub record Rule : Type 0 where
  pub frequency : Frequency
  pub start : Local

abbrev same_local : Local → Local → Bool
same_local a b = a.date == b.date && a.time == b.time

-- A local time that a change of the clock leaves out has no instant.
unfoldable pub wall_time : Zone → Local → Option ℕ
wall_time zone value =
    if same_local (zone.to_local (zone.to_instant value)) value
    then some (zone.to_instant value)
    else none

-- `date.weekday()`, Monday is 0
abbrev pub weekday : ℕ → ℕ
weekday date = (date + 6) % 7

-- Whether the rule runs on this day.
unfoldable pub is_day : Frequency → ℕ → Bool
is_day (weekly weekdays) date = contains (weekday date) weekdays
is_day _ date = true

-- `candidate is not None and candidate >= anchor and candidate > after`
unfoldable pub is_due : ℕ → ℕ → Option ℕ → Bool
is_due anchor after none = false
is_due anchor after (some t) = leb anchor t && ltb after t

module _ (zone : Zone) (rule : Rule) (anchor after : ℕ) where
  -- The instant of the rule on a day, if it is one that counts.
  unfoldable pub candidate : ℕ → Option ℕ
  unfolding is_day is_due wall_time
  candidate date =
      let t = wall_time zone (record { date = date; time = rule.start.time }) in
      if is_day rule.frequency date && is_due anchor after t then t else none

  -- The loop over the days from `date` on, `left` of them.
  unfoldable pub search_days : (left date : ℕ) → Option ℕ
  unfolding candidate
  search_days zero date = none
  search_days (suc left) date =
      let later = search_days left (suc date) in
      elim (candidate date) [ none ↦ later | some t ↦ some t ]

-- `anchor + max(0, floor((after - anchor) / seconds) + 1) * seconds`
unfoldable pub next_interval : (hours anchor after : ℕ) → ℕ
next_interval hours anchor after =
    if ltb after anchor
    then anchor
    else anchor + ((after - anchor) / (hours * 3600) + 1) * (hours * 3600)

abbrev pub day_limit : ℕ
day_limit = 370

unfoldable pub day_result : Option ℕ → Result (Option ℕ)
day_result none = invalid "No valid next execution time was found."
day_result (some t) = ok (some t)

unfoldable pub next_from : Zone → Rule → ℕ → ℕ → Frequency → Result (Option ℕ)
unfolding next_interval search_days day_result
next_from zone rule anchor after once = ok (if ltb after anchor then some anchor else none)
next_from zone rule anchor after (interval hours) = ok (some (next_interval hours anchor after))
next_from zone rule anchor after _ =
    day_result (
      search_days zone rule anchor after day_limit (max rule.start.date (zone.to_local after).date))

-- `rule_data` lets no start pass that has no instant; comparing None with a number would raise.
unfoldable pub next_time : Zone → Rule → ℕ → Result (Option ℕ)
unfolding wall_time next_from
next_time zone rule after = elim (wall_time zone rule.start) [
  | none ↦ fail "The operation could not be completed." "INTERNAL_ERROR" 500
  | some anchor ↦ next_from zone rule anchor after rule.frequency
]

-- `upcoming`: the next instants, `count` of them or as many as there are
unfoldable pub upcoming : Zone → Rule → ℕ → ℕ → Result (List ℕ)
unfolding next_time
upcoming zone rule zero cursor = ok []
upcoming zone rule (suc count) cursor = do
  next ← next_time zone rule cursor
  elim next [ none ↦ ok [] | some t ↦ upcoming zone rule count t >>= λ rest. ok (t ∷ rest) ]
