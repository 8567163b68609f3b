-- ===== src/BlockingWorkers/Started.antt =====
-- How many goroutines are started, and which.
use Prim.Native.String.{String}
use performance_handbook.Base.{
  ℕ, zero, suc, ◌+◌, ◌-◌, ◌≤◌, ◌≡◌, inl, inr, refl, ap, ◌∙◌, ◌∷◌, ◌++◌, concat, ltb, replicate,
  length, arith, All, Bool-cases,
}
use performance_handbook.Base.Int.{ℤ, pos_part}
use performance_handbook.BlockingWorkers.{
  Worker, worker_of, batch, end_of, start_from, start_workers,
}

replicate-append : (a b : ℕ) (w : Worker) → replicate a w ++ replicate b w ≡ replicate (a + b) w
replicate-append zero b w = ap (λ k. replicate k w) (omega arith)
replicate-append (suc a) b w = ap (◌∷◌ w) (replicate-append a b w) ∙ ap (λ k. replicate k w) shifted
  where
    shifted : suc (a + b) ≡ suc a + b
    shifted = omega arith

length-replicate : (n : ℕ) (w : Worker) → length (replicate n w) ≡ n
length-replicate zero w = refl
length-replicate (suc n) w = ap (λ k. suc k) (length-replicate n w)

-- With enough fuel
started_from :
    (mode : String) (fuel workers start : ℕ)
    → workers - start ≤ fuel
    → (concat (start_from mode fuel workers start) ≡ replicate (workers - start) (worker_of mode))
      × All (λ ws. length ws ≤ batch) (start_from mode fuel workers start)
unfolding start_from
started_from mode zero workers start h =
    let none_left : workers - start ≡ 0 = omega (arith, h) in (rw none_left refl, tt)
started_from mode (suc fuel) workers start h = elim (Bool-cases (ltb start workers)) [
  | inl more ↦
      let (joined, short) = started_from mode fuel workers (start + batch) (omega (arith, h)) in
      let now = end_of workers start - start in
      let sum : now + (workers - (start + batch)) ≡ workers - start = ground arith in
      let few : now ≤ batch = ground arith in
      rw more (
        ap (λ rest. replicate now (worker_of mode) ++ rest) joined
            ∙ (replicate-append now (workers - (start + batch)) (worker_of mode)
                ∙ ap (λ k. replicate k (worker_of mode)) sum),
        (omega (arith, length-replicate now (worker_of mode), few), short),
      )
  | inr over ↦ let none_left : workers - start ≡ 0 = ground arith in rw (over, none_left) (refl, tt)
]

-- For every value of MODE and WORKERS: just as many goroutines are started as WORKERS says, none if
-- it is negative; all run the worker of the mode; and between two sleeps at most 200 are started.
pub all_started :
    (mode : String) (workers : ℤ)
    → (concat (start_workers mode workers) ≡ replicate (pos_part workers) (worker_of mode))
      × All (λ ws. length ws ≤ batch) (start_workers mode workers)
unfolding start_workers
all_started mode workers =
    let (joined, short) = started_from mode (pos_part workers) (pos_part workers) 0 (omega arith) in
    (joined ∙ ap (λ k. replicate k (worker_of mode)) (omega arith), short)
