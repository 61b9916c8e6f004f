-- ===== src/Telemetry/Rates.antt =====
-- `calculate_rates` of app/services/telemetry.py, and the counter samples COUNTERS of `interfaces` with
-- the SNMP transport. Times are milliseconds of the monotonic clock; the counters of a snapshot are
-- natural numbers. `per_second` is the division and the rounding of floats.
pub mod Baseline
use narsika.Base.{
  ℕ, ◌+◌, ◌-◌, ◌*◌, ◌≤◌, ◌<◌, Bool, true, false, not, ◌&&◌, ◌||◌, Option, none, some, List, [], ◌∷◌,
  map, All, length, ltb, leb, ◌==◌, ◌!=◌, nat_eq, option_eq, HasEq, ◌≡◌, refl, sym, arith, if_ind,
  if◌then◌else◌,
}
use narsika.Telemetry.Samples.{Entry, find_entry, put_entry}

pub data State : Type 0 where
  online offline unknown : State

module _ (Q : Type 0) where
  -- An interface of a snapshot; a column that the device does not report is `none`.
  pub record Interface : Type 0 where
    pub index : ℕ
    pub discontinuity : Option ℕ
    pub oper_status : Option ℕ
    pub rx_bytes : Option ℕ
    pub tx_bytes : Option ℕ
    pub rx_bps : Option Q
    pub tx_bps : Option Q
    pub status : State

  -- What COUNTERS keeps beside the time.
  pub record Reading (I : Type 0) : Type 0 where
    pub rows : List Interface
    pub uptime : ℕ
    pub identity : I

abbrev pub longest : ℕ
longest = 120000

abbrev pub counter_limit : ℕ
counter_limit = 512

-- `oper_status` of the IF-MIB.
unfoldable pub state_of : Option ℕ → State
state_of none = unknown
state_of (some status) = if status == 1 then online else if status == 2 then offline else unknown

module _ {Q : Type 0} where
  -- `previous.get(index)`: of two rows with one index, the later
  unfoldable pub find_interface : ℕ → List (Interface Q) → Option (Interface Q)
  find_interface index [] = none
  find_interface index (row ∷ rows) = elim (find_interface index rows) [
    | some later ↦ some later
    | none ↦ if row.index == index then some row else none
  ]

  -- Whether the two samples of a row can be compared.
  unfoldable pub is_comparable : ℕ → ℕ → ℕ → Interface Q → Interface Q → Bool
  is_comparable elapsed uptime old_uptime row before =
      ltb 0 elapsed
      && leb elapsed longest
      && not (ltb uptime old_uptime)
      && row.discontinuity == before.discontinuity
      && row.oper_status == some 1

  abbrev pub unrated : Interface Q → Interface Q
  unrated row = record row { rx_bps = none; tx_bps = none }

  unfoldable pub with_states : List (Interface Q) → List (Interface Q)
  unfolding state_of
  with_states [] = []
  with_states (row ∷ rows) = record row { status = state_of row.oper_status } ∷ with_states rows

  module _ {I : Type 0} ⦃e : HasEq I⦄ where
    -- The sample to compare with: none of this device, or one of another identity, has no rows and
    -- the times of this one.
    unfoldable pub previous_of :
        ℕ → ℕ → ℕ → I → Option (Entry ℕ (Reading Q I)) → Entry ℕ (Reading Q I)
    previous_of key tick uptime identity none = record {
      key = key;
      time = tick;
      value = record { rows = []; uptime = uptime; identity = identity };
    }
    previous_of key tick uptime identity (some old) =
        if old.value.identity != identity
        then record {
          key = key;
          time = tick;
          value = record { rows = []; uptime = uptime; identity = identity };
        }
        else old

    -- `if len(COUNTERS)>=512: COUNTERS.pop(next(iter(COUNTERS)))`
    unfoldable pub drop_oldest : List (Entry ℕ (Reading Q I)) → List (Entry ℕ (Reading Q I))
    drop_oldest [] = []
    drop_oldest (oldest ∷ rest) =
        if leb counter_limit (length (oldest ∷ rest)) then rest else oldest ∷ rest

module _ {Q : Type 0} (per_second : ℕ → ℕ → Q) where
  -- `round((a-b)*8/elapsed,1)`, where neither counter is missing and the counter has not fallen
  unfoldable pub rate_of : ℕ → Option ℕ → Option ℕ → Option Q
  rate_of elapsed (some a) (some b) =
      if leb b a then some (per_second ((a - b) * 8) elapsed) else none
  rate_of elapsed a b = none

  unfoldable pub rate_row : ℕ → ℕ → ℕ → Interface Q → Option (Interface Q) → Interface Q
  unfolding is_comparable rate_of
  rate_row elapsed uptime old_uptime row none = unrated row
  rate_row elapsed uptime old_uptime row (some before) =
      if is_comparable elapsed uptime old_uptime row before
      then record row {
        rx_bps = rate_of elapsed row.rx_bytes before.rx_bytes;
        tx_bps = rate_of elapsed row.tx_bytes before.tx_bytes;
      }
      else unrated row

  -- `calculate_rates(rows, old, elapsed, uptime, old_uptime)`
  unfoldable pub calculate_rates :
      List (Interface Q) → List (Interface Q) → ℕ → ℕ → ℕ → List (Interface Q)
  unfolding rate_row find_interface
  calculate_rates [] old elapsed uptime old_uptime = []
  calculate_rates (row ∷ rows) old elapsed uptime old_uptime =
      rate_row elapsed uptime old_uptime row (find_interface row.index old)
      ∷ calculate_rates rows old elapsed uptime old_uptime

  module _ {I : Type 0} ⦃e : HasEq I⦄ where
    -- `interfaces(device)` from the snapshot on: the rows of the answer, and COUNTERS
    unfoldable pub count_interfaces :
        ℕ
        → ℕ
        → ℕ
        → I
        → List (Interface Q)
        → List (Entry ℕ (Reading Q I))
        → List (Interface Q) × List (Entry ℕ (Reading Q I))
    unfolding previous_of find_entry calculate_rates with_states put_entry drop_oldest
    count_interfaces key tick uptime identity rows counters =
        let old = previous_of key tick uptime identity (find_entry key counters) in
        let rated = calculate_rates rows old.value.rows (tick - old.time) uptime old.value.uptime in
        let shown = with_states rated in
        (
          shown,
          put_entry
              (record {
                key = key;
                time = tick;
                value = record { rows = shown; uptime = uptime; identity = identity };
              })
              (drop_oldest counters),
        )
