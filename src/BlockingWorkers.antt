-- ===== src/BlockingWorkers.antt =====
-- labs/0103-go-blocking-syscalls-vs-network-io/worker.go: the goroutines that it starts, in batches.
pub mod Started
pub mod Delay
pub mod Sleeping
use Prim.Native.String.{String}
use text.Mathlib.Text.{◌==◌ as str_eq}
use performance_handbook.Base.{
  ℕ, zero, suc, ◌+◌, ◌-◌, ◌≤◌, Bool, true, false, List, [], ◌∷◌, Option, none, some, ltb, replicate,
  if◌then◌else◌,
}
use performance_handbook.Base.Int.{ℤ, pos_part}

-- `envInt`, for the variable's value, which is empty when it is not set; `atoi` is `strconv.Atoi`.
pub env_int : (String → Option ℤ) → String → ℤ → ℤ
env_int atoi v def = if str_eq v "" then def else elim (atoi v) [ none ↦ def | some n ↦ n ]

-- What a goroutine runs
pub data Worker : Type 0 where
  timer_worker : Worker
  syscall_worker : Worker
  netpoll_worker : Worker

-- The switch, for the value of MODE
pub worker_of : String → Worker
worker_of v =
    let mode = if str_eq v "" then "timer" else v in
    if str_eq mode "syscall"
    then syscall_worker
    else if str_eq mode "netpoll"
    then netpoll_worker
    else timer_worker

abbrev pub batch : ℕ
batch = 200

abbrev pub end_of : ℕ → ℕ → ℕ
end_of workers start = if ltb workers (start + batch) then workers else start + batch

-- The loop, on fuel: what is started in each round, between two sleeps
unfoldable pub start_from : String → ℕ → ℕ → ℕ → List (List Worker)
start_from mode zero workers start = []
start_from mode (suc fuel) workers start =
    let rest = start_from mode fuel workers (start + batch) in
    if ltb start workers
    then replicate (end_of workers start - start) (worker_of mode) ∷ rest
    else []

-- The rounds for `workers`: none if it is negative. The fuel is that number.
pub start_workers : String → ℤ → List (List Worker)
start_workers mode workers = start_from mode (pos_part workers) (pos_part workers) 0
