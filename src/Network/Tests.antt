-- ===== src/Network/Tests.antt =====
-- The lock of a device on small inputs.
use narsika.Base.{ℕ, ◌≤◌, [], ◌∷◌, count, nat_eq, refl}
use narsika.Network.Lock.{waiting, Locks, slots, try_mutex, take_slot, entered, began}
use narsika.Network.Lock.Exclusion.{Spec, sessions, uses, no_step, then_step, device_lock-refines}

-- A thread holds the mutex of device 7.
abbrev one_waits : Locks ℕ
one_waits = record { holders = (7, waiting) ∷ []; free = 8 }

device_lock-refines_example :
    Spec (sessions one_waits) (sessions (take_slot 7 one_waits))
    × (count uses (take_slot 7 one_waits).holders ≤ slots)
unfolding try_mutex
device_lock-refines_example =
    device_lock-refines one_waits (take_slot 7 one_waits) (then_step no_step (entered 7 refl))
      (began 7 refl refl refl refl)
