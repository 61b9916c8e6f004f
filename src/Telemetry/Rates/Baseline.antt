-- ===== src/Telemetry/Rates/Baseline.antt =====
-- A rate stands on two snapshots that may be compared.
use narsika.Base.{
  ℕ, ◌-◌, ◌*◌, ◌≤◌, ◌<◌, Option, none, some, List, [], ◌∷◌, All, leb, ◌!=◌, nat_eq, option_eq,
  HasEq, ◌≡◌, ◌⊎◌, inl, inr, refl, arith, if_ind,
}
use narsika.Telemetry.Samples.{Entry, find_entry}
use narsika.Telemetry.Rates.{
  Interface, Reading, longest, find_interface, is_comparable, rate_of, rate_row, calculate_rates,
  with_states, previous_of, count_interfaces,
}

module _ {Q : Type 0} (per_second : ℕ → ℕ → Q) where
  -- No rate, or that of two counters of which the later is not below the earlier.
  abbrev pub IsRate : ℕ → Option ℕ → Option ℕ → Option Q → Type 0
  IsRate elapsed new old rate =
      (rate ≡ none)
      ⊎ ((a : ℕ) × (b : ℕ) × (new ≡ some a)
          × (old ≡ some b)
          × (b ≤ a)
          × (rate ≡ some (per_second ((a - b) * 8) elapsed)))

  abbrev pub IsUnrated : Interface Q → Type 0
  IsUnrated row = (row.rx_bps ≡ none) × (row.tx_bps ≡ none)

  -- The row has its rates from the row of the same interface in an earlier snapshot.
  abbrev pub IsEarned : List (Interface Q) → ℕ → ℕ → ℕ → Interface Q → Type 0
  IsEarned old elapsed uptime old_uptime row =
      IsUnrated row
      ⊎ ((before : Interface Q) × (find_interface row.index old ≡ some before)
          × (0 < elapsed)
          × (elapsed ≤ longest)
          × (old_uptime ≤ uptime)
          × (row.discontinuity ≡ before.discontinuity)
          × (row.oper_status ≡ some 1)
          × IsRate elapsed row.rx_bytes before.rx_bytes row.rx_bps
          × IsRate elapsed row.tx_bytes before.tx_bytes row.tx_bps)

  rate_of-IsRate :
      (elapsed : ℕ) (new old : Option ℕ)
      → IsRate elapsed new old (rate_of per_second elapsed new old)
  unfolding rate_of
  rate_of-IsRate elapsed (some a) (some b) =
      if_ind (IsRate elapsed (some a) (some b)) (leb b a)
        (λ h. inr (a, b, refl, refl, ground arith, refl)) (λ _. inl refl)
  rate_of-IsRate elapsed (some a) none = inl refl
  rate_of-IsRate elapsed none old = inl refl

  rate_row-IsEarned :
      (old : List (Interface Q)) (elapsed uptime old_uptime : ℕ) (row : Interface Q)
      (before : Option (Interface Q))
      → find_interface row.index old ≡ before
      → IsEarned old elapsed uptime old_uptime
          (rate_row per_second elapsed uptime old_uptime row before)
  unfolding rate_row is_comparable
  rate_row-IsEarned old elapsed uptime old_uptime row none found = inl (refl, refl)
  rate_row-IsEarned old elapsed uptime old_uptime row (some before) found =
      if_ind (IsEarned old elapsed uptime old_uptime)
        (is_comparable elapsed uptime old_uptime row before)
        (λ h. inr (
          before,
          found,
          ground arith,
          ground arith,
          ground arith,
          ground arith,
          ground arith,
          rate_of-IsRate elapsed row.rx_bytes before.rx_bytes,
          rate_of-IsRate elapsed row.tx_bytes before.tx_bytes,
        ))
        (λ _. inl (refl, refl))

  calculate_rates-IsEarned :
      (rows old : List (Interface Q)) (elapsed uptime old_uptime : ℕ)
      → All
          (IsEarned old elapsed uptime old_uptime)
          (with_states (calculate_rates per_second rows old elapsed uptime old_uptime))
  unfolding calculate_rates with_states
  calculate_rates-IsEarned [] old elapsed uptime old_uptime = tt
  calculate_rates-IsEarned (row ∷ rows) old elapsed uptime old_uptime = (
    rate_row-IsEarned old elapsed uptime old_uptime row (find_interface row.index old) refl,
    calculate_rates-IsEarned rows old elapsed uptime old_uptime,
  )

  -- Without an earlier snapshot no row has a rate.
  IsEarned-nothing :
      (elapsed uptime old_uptime : ℕ) (rows : List (Interface Q))
      → All (IsEarned [] elapsed uptime old_uptime) rows
      → All IsUnrated rows
  unfolding find_interface
  IsEarned-nothing elapsed uptime old_uptime [] all = tt
  IsEarned-nothing elapsed uptime old_uptime (row ∷ rows) all = (
    elim all.0 [ inl none_yet ↦ none_yet | inr (before, found, _, _, _, _, _, _, _) ↦ absurd cc ],
    IsEarned-nothing elapsed uptime old_uptime rows all.1,
  )

  module _ {I : Type 0} ⦃e : HasEq I⦄ where
    -- COUNTERS has a snapshot of this device, with the same address, port and credential.
    abbrev pub HasBaseline :
        ℕ → ℕ → ℕ → I → List (Entry ℕ (Reading Q I)) → List (Interface Q) → Type 0
    HasBaseline key tick uptime identity counters rows =
        (old : Entry ℕ (Reading Q I)) × (find_entry key counters ≡ some old)
        × (old.value.identity ≡ identity)
        × All (IsEarned old.value.rows (tick - old.time) uptime old.value.uptime) rows

    -- The rows of the answer, compared with this sample.
    compared : ℕ → ℕ → List (Interface Q) → Entry ℕ (Reading Q I) → List (Interface Q)
    unfolding with_states calculate_rates
    compared tick uptime rows old =
        with_states
          (calculate_rates per_second rows old.value.rows (tick - old.time) uptime old.value.uptime)

    abbrev IsJust : ℕ → ℕ → ℕ → I → List (Entry ℕ (Reading Q I)) → List (Interface Q) → Type 0
    IsJust key tick uptime identity counters rows =
        All IsUnrated rows ⊎ HasBaseline key tick uptime identity counters rows

    compared-IsJust :
        (key tick uptime : ℕ) (identity : I) (rows : List (Interface Q))
        (counters : List (Entry ℕ (Reading Q I))) (found : Option (Entry ℕ (Reading Q I)))
        → find_entry key counters ≡ found
        → IsJust key tick uptime identity counters
            (compared tick uptime rows (previous_of key tick uptime identity found))
    unfolding previous_of compared
    compared-IsJust key tick uptime identity rows counters none found = inl (
        IsEarned-nothing (tick - tick) uptime uptime _
          (calculate_rates-IsEarned rows [] (tick - tick) uptime uptime))
    compared-IsJust key tick uptime identity rows counters (some old) found =
        if_ind
          (λ (o : Entry ℕ (Reading Q I)).
            IsJust key tick uptime identity counters (compared tick uptime rows o))
          (old.value.identity != identity)
          (λ _. inl (
            IsEarned-nothing (tick - tick) uptime uptime _
              (calculate_rates-IsEarned rows [] (tick - tick) uptime uptime)))
          (λ same. inr (
            old,
            found,
            (e.same_iff old.value.identity identity).0 (ground arith),
            calculate_rates-IsEarned rows old.value.rows (tick - old.time) uptime old.value.uptime,
          ))

    -- Either no row of a snapshot gets a rate, or COUNTERS has an earlier snapshot of the device
    -- with the same identity. In the second case each row either has no rate, or is compared with
    -- the row of its interface there: that snapshot is between 0 and 120 seconds old, the uptime
    -- has not fallen, the discontinuity time is the same, the interface is up, and each rate that
    -- is given is that of two counters of which the later is not below the earlier.
    pub count_interfaces-HasBaseline :
        (key tick uptime : ℕ) (identity : I) (rows : List (Interface Q))
        (counters : List (Entry ℕ (Reading Q I)))
        → All IsUnrated (count_interfaces per_second key tick uptime identity rows counters).0
          ⊎ HasBaseline key tick uptime identity counters
              (count_interfaces per_second key tick uptime identity rows counters).0
    unfolding count_interfaces compared
    count_interfaces-HasBaseline key tick uptime identity rows counters =
        compared-IsJust key tick uptime identity rows counters (find_entry key counters) refl
