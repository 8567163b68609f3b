-- ===== src/SharedCounter.antt =====
-- labs/0104-go-atomics-vs-mutex-contention/counter.go and
-- labs/0105-go-locking-vs-channels/counter.go: ways for goroutines to increment one counter.
mod Exclusion
pub mod Refinement
mod Tests
use Prim.Native.String.{String}
use text.Mathlib.Text.{◌==◌ as str_eq}
use performance_handbook.Base.{
  ℕ, ◌+◌, ◌%◌, ◌<◌, ◌≡◌, ◌⊎◌, Bool, true, false, List, [], ◌∷◌, ◌++◌, Option, none, some, replicate,
  if◌then◌else◌,
}
use performance_handbook.Base.Int.{ℤ, pos, pos_part}

-- 2^64; the counter is an `int64`, given by its bits.
abbrev pub modulus : ℕ
modulus = 18446744073709551616

-- `envInt`, for the variable's value, which is empty when it is not set; `atoi` is `strconv.Atoi`.
pub env_int : (String → Option ℤ) → String → ℤ → ℤ
env_int atoi v def = if str_eq v "" then def else elim (atoi v) [ none ↦ def | some n ↦ n ]

-- What a goroutine does in its loop: `AddInt64`; `counter++` under the mutex, which is a read and a
-- write; or `AddInt64` under the mutex.
pub data Mode : Type 0 where
  atomic_add mutex_increment mutex_add : Mode

-- The test of lab 0104, for its variable MODE
pub mode_of : String → Mode
mode_of mode =
    let chosen = if str_eq mode "" then "atomic" else mode in
    if str_eq chosen "mutex" then mutex_increment else atomic_add

-- Where a goroutine stands: before `Lock`, or before `AddInt64` if there is no mutex; before the
-- increment; between the read and the write, with what it has read; before `Unlock`.
pub data Worker : Type 0 where
  outside : Worker
  entered : Worker
  loaded : ℕ → Worker
  stored : Worker

-- `finished` is the number of increments that have been made.
pub record Shared : Type 0 where
  pub workers : List Worker
  pub locked : Bool
  pub counter : ℕ
  pub finished : ℕ

pub start : ℕ → Shared
start workers = record {
  workers = replicate workers outside;
  locked = false;
  counter = 0;
  finished = 0;
}

abbrev pub add_one : ℕ → ℕ
add_one c = (c + 1) % modulus

-- One step of one goroutine; the workers in the new state are set by `Step`.
pub data Move (mode : Mode) (s : Shared) : Worker → Shared → Worker → Type 0 where
  add_alone :
      mode ≡ atomic_add
      → Move mode s outside
          (record s { counter = add_one s.counter; finished = s.finished + 1 })
          outside
  lock :
      (mode ≡ mutex_increment) ⊎ (mode ≡ mutex_add)
      → s.locked ≡ false
      → Move mode s outside (record s { locked = true }) entered
  load : mode ≡ mutex_increment → Move mode s entered s (loaded s.counter)
  store :
      {v : ℕ}
      → Move mode s (loaded v) (record s { counter = add_one v; finished = s.finished + 1 }) stored
  add_inside :
      mode ≡ mutex_add
      → Move mode s entered
          (record s { counter = add_one s.counter; finished = s.finished + 1 })
          stored
  unlock : Move mode s stored (record s { locked = false }) outside

pub data Step (mode : Mode) (s : Shared) : Shared → Type 0 where
  step :
      (us vs : List Worker) {w w' : Worker} {t : Shared}
      → s.workers ≡ us ++ w ∷ vs
      → Move mode s w t w'
      → Step mode s (record t { workers = us ++ w' ∷ vs })

pub data Reach (mode : Mode) (workers : ℕ) : Shared → Type 0 where
  begin : Reach mode workers (start workers)
  later : {s t : Shared} → Reach mode workers s → Step mode s t → Reach mode workers t

-- The channel of lab 0105: the goroutine that owns the counter is at its receive, or has a request.
-- All others stand at their send. `requests` counts the sends that were completed.
pub record Owned : Type 0 where
  pub has_request : Bool
  pub counter : ℕ
  pub requests : ℕ

pub first_owned : Owned
first_owned = record { has_request = false; counter = 0; requests = 0 }

pub data OwnedStep (workers : ℕ) (s : Owned) : Owned → Type 0 where
  hand :
      0 < workers
      → s.has_request ≡ false
      → OwnedStep workers s (record s { has_request = true; requests = s.requests + 1 })
  add :
      s.has_request ≡ true
      → OwnedStep workers s (record s { has_request = false; counter = add_one s.counter })

pub data OwnedReach (workers : ℕ) : Owned → Type 0 where
  begin_owned : OwnedReach workers first_owned
  later_owned : {s t : Owned} → OwnedReach workers s → OwnedStep workers s t → OwnedReach workers t

-- A way to share the counter, with a number of goroutines.
pub data Mechanism : Type 0 where
  shared : Mode → ℕ → Mechanism
  owned : ℕ → Mechanism

-- The switch of lab 0105, for its variable MECH
pub mechanism_of : String → ℤ → Mechanism
mechanism_of mech workers =
    let chosen = if str_eq mech "" then "mutex" else mech in
    if str_eq chosen "channel"
    then owned (pos_part workers)
    else shared mutex_add (pos_part workers)
