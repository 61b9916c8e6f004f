-- ===== src/Network/Lock.antt =====
-- `device_lock` of app/services/network.py with its mutexes and the semaphore of connections, as the
-- steps of the threads that enter and leave it.
pub mod Exclusion
use narsika.Base.{
  ℕ, suc, ◌+◌, ◌-◌, String, nat_eq, Bool, true, false, ◌&&◌, List, [], ◌∷◌, filter, any, count,
  ◌==◌, ◌!=◌, HasEq, Result, ApiError, ok, err, ◌≡◌, if◌then◌else◌,
}

-- A thread holds the mutex of a device, and waits for a slot or has one.
pub data Phase : Type 0 where
  waiting inside : Phase

abbrev pub is_inside : Phase → Bool
is_inside waiting = false
is_inside inside = true

pub record Locks (A : Type 0) : Type 0 where
  pub holders : List (A × Phase)
  pub free : ℕ

-- `SLOTS=threading.BoundedSemaphore(8)`
abbrev pub slots : ℕ
slots = 8

abbrev pub connection_busy : String → ℕ → ApiError
connection_busy message status = record {
  message = message;
  code = "BUSY";
  status = status;
  retryable_before_network = true;
}

module _ {A : Type 0} ⦃e : HasEq A⦄ where
  abbrev pub holds : A → A × Phase → Bool
  holds key (other, phase) = other == key

  abbrev pub is_user : A → A × Phase → Bool
  is_user key (other, phase) = other == key && is_inside phase

  -- `mutex.acquire(blocking=False)`
  unfoldable pub try_mutex : A → Locks A → Result (Locks A)
  try_mutex key s =
      if any (holds key) s.holders
      then err (connection_busy "This device already has an active operation." 409)
      else ok (record s { holders = (key, waiting) ∷ s.holders })

  set_inside : A → List (A × Phase) → List (A × Phase)
  set_inside key [] = []
  set_inside key ((other, phase) ∷ rest) =
      let later = set_inside key rest in
      if other == key then (other, inside) ∷ rest else (other, phase) ∷ later

  -- A slot is free.
  unfoldable pub take_slot : A → Locks A → Locks A
  unfolding set_inside
  take_slot key s = record { holders = set_inside key s.holders; free = s.free - 1 }

  unfoldable pub drop_holder : A → List (A × Phase) → List (A × Phase)
  drop_holder key [] = []
  drop_holder key ((other, phase) ∷ rest) =
      let later = drop_holder key rest in if other == key then rest else (other, phase) ∷ later

  -- `SLOTS.acquire(timeout=1)` has run out: the mutex is released, and the caller gets the error.
  unfoldable pub give_up : A → Locks A → Locks A × ApiError
  unfolding drop_holder
  give_up key s = (
    record s { holders = drop_holder key s.holders },
    connection_busy "Network connection limit reached. Retry shortly." 429,
  )

  -- The `finally` of the block.
  unfoldable pub leave : A → Locks A → Locks A
  unfolding drop_holder
  leave key s = record { holders = drop_holder key s.holders; free = suc s.free }

  -- One step of a thread. Only a thread that waits takes a slot or gives up, and only one inside
  -- leaves.
  pub data Step (s t : Locks A) : Type 0 where
    entered : (key : A) → try_mutex key s ≡ ok t → Step s t
    began :
        (key : A)
        → any (holds key) s.holders ≡ true
        → any (is_user key) s.holders ≡ false
        → (s.free == 0) ≡ false
        → t ≡ take_slot key s
        → Step s t
    refused :
        (key : A)
        → any (holds key) s.holders ≡ true
        → any (is_user key) s.holders ≡ false
        → t ≡ (give_up key s).0
        → Step s t
    left : (key : A) → any (is_user key) s.holders ≡ true → t ≡ leave key s → Step s t
