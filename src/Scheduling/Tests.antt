-- ===== src/Scheduling/Tests.antt =====
-- Rules on a calendar of plain days, without a change of the clock.
use narsika.Base.{◌+◌, ◌*◌, ◌/◌, ◌%◌, some, [], ◌∷◌, ok, ◌≡◌, refl, arith}
use narsika.Scheduling.Rule.{Zone, weekly, daily, Rule, wall_time, next_time, upcoming}
use narsika.Scheduling.Rule.Next.{IsZone, IsFirst, next_time-IsFirst}

-- A day has 86400 seconds.
abbrev pub utc : Zone
utc = record {
  to_instant = λ l. l.date * 86400 + l.time;
  to_local = λ t. record { date = t / 86400; time = t % 86400 };
}

utc-IsZone : IsZone utc
utc-IsZone = record { forward = λ a b h. omega arith }

-- Day 3 is a Wednesday; the rule runs on Mondays and Fridays at 06:00.
abbrev office : Rule
office = record { frequency = weekly (0 ∷ 4 ∷ []); start = record { date = 3; time = 21600 } }

office_next : next_time utc office 300000 ≡ ok (some 453600)
unfolding next_time
office_next = refl

office_start : wall_time utc office.start ≡ some 280800
unfolding wall_time
office_start = refl

next_time-IsFirst_example : IsFirst utc office (weekly (0 ∷ 4 ∷ [])) 280800 300000 453600
next_time-IsFirst_example =
    next_time-IsFirst utc office 300000 280800 utc-IsZone tt office_start office_next

daily_upcoming :
    upcoming utc (record { frequency = daily; start = record { date = 3; time = 21600 } }) 3 300000
    ≡ ok (367200 ∷ 453600 ∷ 540000 ∷ [])
unfolding upcoming
daily_upcoming = refl
