-- ===== src/Telemetry/Tests.antt =====
-- Shared samples and counters on small inputs.
use narsika.Base.{
  ℕ, ◌+◌, ◌≤◌, ◌<◌, String, true, none, some, List, [], ◌∷◌, length, IsDistinct, All, ◌⊎◌, nat_eq,
  text_eq, ◌≡◌, refl, inl,
}
use narsika.Telemetry.Samples.{Entry, Shared, lifetime, cache_limit, arrive, finish}
use narsika.Telemetry.Samples.Freshness.{Taken, Reach, idle, arrived, finished, reader-Fresh}
use narsika.Telemetry.Rates.{Interface, Reading, online, count_interfaces}
use narsika.Telemetry.Rates.Baseline.{IsUnrated, HasBaseline, count_interfaces-HasBaseline}

abbrev sample : Entry ℕ String
sample = record { key = 7; time = 1000; value = "up" }

-- The first reader of device 7 owns the sample and stores it.
abbrev stored : Shared ℕ String
stored = record { cache = sample ∷ []; pending = [] }

reached : Reach (sample ∷ []) stored
unfolding arrive finish
reached = finished 7 1000 "up" refl (arrived 7 900 idle)

reader-Fresh_example :
    ((entry : Entry ℕ String) × Taken entry (sample ∷ [])
      × (entry.key ≡ 7)
      × (entry.value ≡ "up")
      × (4999 < entry.time + lifetime))
    × (length stored.cache ≤ cache_limit)
    × IsDistinct stored.pending
unfolding arrive
reader-Fresh_example = reader-Fresh (sample ∷ []) stored 7 4999 true "up" reached (inl refl)

abbrev port : ℕ → Interface ℕ
port bytes = record {
  index = 1;
  discontinuity = none;
  oper_status = some 1;
  rx_bytes = some bytes;
  tx_bytes = none;
  rx_bps = none;
  tx_bps = none;
  status = online;
}

-- The snapshot of device 7 two seconds before.
abbrev counters : List (Entry ℕ (Reading ℕ String))
counters =
    record {
      key = 7;
      time = 1000;
      value = record { rows = port 50 ∷ []; uptime = 400; identity = "v3" };
    }
    ∷ []

abbrev scaled : ℕ → ℕ → ℕ
scaled bits elapsed = bits

rates :
    (count_interfaces scaled 7 3000 600 "v3" (port 150 ∷ []) counters).0
    ≡ record (port 150) { rx_bps = some 800 } ∷ []
unfolding count_interfaces
rates = refl

count_interfaces-HasBaseline_example :
    All (IsUnrated scaled) (count_interfaces scaled 7 3000 600 "v3" (port 150 ∷ []) counters).0
    ⊎ HasBaseline scaled 7 3000 600 "v3" counters
        (count_interfaces scaled 7 3000 600 "v3" (port 150 ∷ []) counters).0
count_interfaces-HasBaseline_example =
    count_interfaces-HasBaseline scaled 7 3000 600 "v3" (port 150 ∷ []) counters
