-- ===== src/CpuWorkers.antt =====
-- labs/0101-go-gomaxprocs-cgroups/main.go: the workers that hash and count, and the report of their
-- rate, as a transition system.
pub mod Rates
mod Tests
use performance_handbook.Base.{
  Bool, true, false, ℕ, ◌+◌, ◌-◌, ◌%◌, ◌^◌, ◌≡◌, List, [], ◌∷◌, ◌++◌, replicate,
}

-- The counter has 64 bits.
abbrev pub modulus : ℕ
modulus = 2 ^ 64

-- A worker: before its `select`; before `AddUint64`; or returned, when `stop` is closed. `byte` is
-- `data[0]`; the other 63 stay 0.
pub data Worker : Type 0 where
  selecting : (byte : ℕ) → Worker
  counting : (byte : ℕ) → Worker
  returned : Worker

-- `ops` counts the hashes that were counted, without a bound; `printed` are the rates.
pub record Counting : Type 0 where
  pub workers : List Worker
  pub counter : ℕ
  pub last : ℕ
  pub printed : List ℕ
  pub stopped : Bool
  pub ops : ℕ

-- `main` has started `num_workers` goroutines.
abbrev pub started : ℕ → Counting
started num_workers = record {
  workers = replicate num_workers (selecting 0);
  counter = 0;
  last = 0;
  printed = [];
  stopped = false;
  ops = 0;
}

-- `first_of_sum` is the first byte of `sha256.Sum256` of the 64 bytes.
module _ (first_of_sum : ℕ → ℕ) where
  pub data Move (s : Counting) : Worker → Counting → Worker → Type 0 where
    stop : {byte : ℕ} → s.stopped ≡ true → Move s (selecting byte) s returned
    hash : {byte : ℕ} → s.stopped ≡ false → Move s (selecting byte) s (counting (first_of_sum byte))
    add_one :
        {byte : ℕ}
        → Move s
            (counting byte)
            (record s { counter = (s.counter + 1) % modulus; ops = s.ops + 1 })
            (selecting byte)

  pub data Step (s : Counting) : Counting → Type 0 where
    worker :
        (us vs : List Worker) {a b : Worker} {t : Counting}
        → s.workers ≡ us ++ a ∷ vs
        → Move s a t b
        → Step s (record t { workers = us ++ b ∷ vs })
    -- the report: `cur-last`
    report : Step s (record s {
      printed = s.printed ++ ((s.counter + modulus - s.last) % modulus) ∷ [];
      last = s.counter;
    })

  pub data Reach (num_workers : ℕ) : Counting → Type 0 where
    begin : Reach num_workers (started num_workers)
    later : {s t : Counting} → Reach num_workers s → Step s t → Reach num_workers t
