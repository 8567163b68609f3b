-- ===== src/BlockingWorkers/Sleeping/Durations.antt =====
-- Both workers block for the same time.
use performance_handbook.Base.{ℕ, zero, suc, ◌+◌, ◌*◌, ◌^◌, ◌<◌, ◌≡◌, refl, ap, sym, ◌∙◌, arith}
use performance_handbook.Base.Int.{ℤ, pos, negsuc, pos_part, neg_part}
use performance_handbook.BlockingWorkers.Sleeping.{
  to_int64, millisecond, duration, Timespec, timer_worker, sleep_loop, syscall_worker,
}

-- The duration that a `Timespec` stands for
pub record Means (d : ℤ) (ts : Timespec) : Type 0 where
  pub whole :
      pos_part ts.sec * 1000000000 + ts.nsec + neg_part d
      ≡ pos_part d + neg_part ts.sec * 1000000000
  pub below_second : ts.nsec < 1000000000

-- The nanoseconds of an interval, where a negative one, which `nanosleep` refuses, has none.
abbrev pub interval : ℤ → ℕ → ℕ
interval (pos s) k = s * 1000000000 + k
interval (negsuc s) k = 0

interval_lem :
    (d sec : ℤ) (k : ℕ)
    → pos_part sec * 1000000000 + k + neg_part d ≡ pos_part d + neg_part sec * 1000000000
    → k < 1000000000
    → interval sec k ≡ pos_part d
interval_lem (pos n) (pos s) k whole small = omega (arith, whole, small)
interval_lem (negsuc n) (pos s) k whole small = omega (arith, whole, small)
interval_lem (pos n) (negsuc s) k whole small = omega (arith, whole, small)
interval_lem (negsuc n) (negsuc s) k whole small = refl

-- Without overflow
duration_exact : (n : ℕ) → n * millisecond < 2 ^ 63 → duration (pos n) ≡ pos (n * millisecond)
unfolding to_int64
duration_exact n h = ground arith

timer_total :
    (sleep : ℤ → ℕ)
    → ((d : ℤ) → sleep d ≡ pos_part d)
    → (work_ms : ℤ) (rounds : ℕ)
    → timer_worker sleep work_ms rounds ≡ rounds * pos_part (duration work_ms)
unfolding timer_worker
timer_total sleep sleeps work_ms zero = omega arith
timer_total sleep sleeps work_ms (suc rounds) =
    omega (arith, timer_total sleep sleeps work_ms rounds, sleeps (duration work_ms))

loop_total :
    (nanosleep : Timespec → ℕ) (ts : Timespec) (rounds : ℕ)
    → sleep_loop nanosleep ts rounds ≡ rounds * nanosleep ts
unfolding sleep_loop
loop_total nanosleep ts zero = omega arith
loop_total nanosleep ts (suc rounds) = omega (arith, loop_total nanosleep ts rounds)

module _ (sleep : ℤ → ℕ) (nsec_to_timespec : ℤ → Timespec) (nanosleep : Timespec → ℕ)
    (sleeps : (d : ℤ) → sleep d ≡ pos_part d) (means : (d : ℤ) → Means d (nsec_to_timespec d))
    (refuses : (ts : Timespec) → nanosleep ts ≡ interval ts.sec ts.nsec) where
  syscall_total :
      (work_ms : ℤ) (rounds : ℕ)
      → syscall_worker nsec_to_timespec nanosleep work_ms rounds
        ≡ rounds * pos_part (duration work_ms)
  unfolding syscall_worker
  syscall_total work_ms rounds =
      let d = duration work_ms in
      let ts = nsec_to_timespec d in
      let m = means d in
      let once = refuses ts ∙ interval_lem d ts.sec ts.nsec m.whole m.below_second in
      loop_total nanosleep ts rounds ∙ ap (λ t. rounds * t) once

  -- For every WORK_MS, also where the product overflows: in any number of rounds, `timerWorker` and
  -- `syscallWorker` block for the same time, when no signal comes. `time.Sleep` and `nanosleep`
  -- return at once for a negative duration.
  pub modes_agree :
      (work_ms : ℤ) (rounds : ℕ)
      → syscall_worker nsec_to_timespec nanosleep work_ms rounds ≡ timer_worker sleep work_ms rounds
  modes_agree work_ms rounds =
      syscall_total work_ms rounds ∙ sym (timer_total sleep sleeps work_ms rounds)

  -- If WORK_MS milliseconds are less than 2 ^ 63 nanoseconds, both block for just that time in each
  -- round.
  pub block_as_asked :
      (work_ms rounds : ℕ)
      → work_ms * millisecond < 2 ^ 63
      → (timer_worker sleep (pos work_ms) rounds ≡ rounds * (work_ms * millisecond))
        × (syscall_worker nsec_to_timespec nanosleep (pos work_ms) rounds
            ≡ rounds * (work_ms * millisecond))
  block_as_asked work_ms rounds h =
      let exact = ap (λ d. rounds * pos_part d) (duration_exact work_ms h) in
      (
        timer_total sleep sleeps (pos work_ms) rounds ∙ exact,
        syscall_total (pos work_ms) rounds ∙ exact,
      )
