-- ===== src/BlockingWorkers/Sleeping.antt =====
-- labs/0103-go-blocking-syscalls-vs-network-io/worker.go, `timerWorker` and `syscallWorker`: how long
-- they block.
pub mod Durations
use performance_handbook.Base.{ℕ, zero, suc, ◌+◌, ◌-◌, ◌*◌, ◌%◌, ◌^◌, ltb, if◌then◌else◌}
use performance_handbook.Base.Int.{ℤ, pos, negsuc}

-- An integer, wrapped around to 64 bits with a sign
unfoldable pub to_int64 : ℤ → ℤ
to_int64 (pos n) =
    let low = n % 2 ^ 64 in if ltb low (2 ^ 63) then pos low else negsuc (2 ^ 64 - 1 - low)
to_int64 (negsuc n) =
    let low = n % 2 ^ 64 in if ltb low (2 ^ 63) then negsuc low else pos (2 ^ 64 - 1 - low)

-- `time.Millisecond`, in nanoseconds
abbrev pub millisecond : ℕ
millisecond = 1000000

abbrev pub milliseconds : ℤ → ℤ
milliseconds (pos n) = pos (n * millisecond)
milliseconds (negsuc n) = negsuc (n * millisecond + (millisecond - 1))

-- `time.Duration(workMS) * time.Millisecond`
abbrev pub duration : ℤ → ℤ
duration work_ms = to_int64 (milliseconds work_ms)

-- `syscall.Timespec`
pub record Timespec : Type 0 where
  pub sec : ℤ
  pub nsec : ℕ

-- For `rounds` rounds of the loop, the nanoseconds in which the goroutine blocks. `sleep` is what
-- `time.Sleep` takes for a duration.
unfoldable pub timer_worker : (ℤ → ℕ) → ℤ → ℕ → ℕ
timer_worker sleep work_ms zero = 0
timer_worker sleep work_ms (suc rounds) =
    sleep (duration work_ms) + timer_worker sleep work_ms rounds

-- The loop of `syscallWorker`, which copies `ts` before each call; `nanosleep` is what the system
-- call takes.
unfoldable pub sleep_loop : (Timespec → ℕ) → Timespec → ℕ → ℕ
sleep_loop nanosleep ts zero = 0
sleep_loop nanosleep ts (suc rounds) =
    let req = ts in nanosleep req + sleep_loop nanosleep ts rounds

unfoldable pub syscall_worker : (ℤ → Timespec) → (Timespec → ℕ) → ℤ → ℕ → ℕ
syscall_worker nsec_to_timespec nanosleep work_ms rounds =
    sleep_loop nanosleep (nsec_to_timespec (duration work_ms)) rounds
