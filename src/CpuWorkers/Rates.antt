-- ===== src/CpuWorkers/Rates.antt =====
-- What the reports add up to.
use performance_handbook.Base.{
  ℕ, ◌+◌, ◌-◌, ◌%◌, ◌≡◌, refl, ap, ◌∙◌, zero, suc, replicate, List, [], ◌∷◌, false, arith,
}
use performance_handbook.Base.Totals.{total, total-append, total-swap}
use performance_handbook.CpuWorkers.{
  modulus, Worker, selecting, counting, returned, Counting, stop, hash, add_one, Step, worker,
  report, Reach, begin, later,
}

-- A worker that has not returned
abbrev pub at_work : Worker → ℕ
at_work returned = 0
at_work _ = 1

abbrev pub sum : List ℕ → ℕ
sum = total (λ rate. rate)

record Inv (s : Counting) : Type 0 where
  counted : s.counter ≡ s.ops % modulus
  so_far : sum s.printed % modulus ≡ s.last
  runs : s.stopped ≡ false

module _ (first_of_sum : ℕ → ℕ) where
  Step-Inv : {s t : Counting} → Step first_of_sum s t → Inv s → Inv t
  Step-Inv (worker us vs e (stop stopped)) v = ground arith
  Step-Inv (worker us vs e (hash going)) v = ground arith
  Step-Inv {s} (worker us vs e add_one) v = record {
    counted = omega (arith, v.counted);
    so_far = v.so_far;
    runs = v.runs;
  }
  Step-Inv {s} report v = record {
    counted = v.counted;
    so_far = omega (
      arith,
      v.counted,
      v.so_far,
      total-append (λ rate. rate) s.printed (((s.counter + modulus - s.last) % modulus) ∷ []),
    );
    runs = v.runs;
  }

  Step-at_work :
      {s t : Counting}
      → Step first_of_sum s t
      → s.stopped ≡ false
      → total at_work t.workers ≡ total at_work s.workers
  Step-at_work (worker us vs e (stop stopped)) going = absurd (cc)
  Step-at_work (worker us vs e (hash {byte} runs)) going = omega (
    arith,
    ap (total at_work) e,
    total-swap at_work us vs (selecting byte) (counting (first_of_sum byte)),
  )
  Step-at_work (worker us vs e (add_one {byte})) going =
      omega (arith, ap (total at_work) e, total-swap at_work us vs (counting byte) (selecting byte))
  Step-at_work report going = refl

  all_ready : (n : ℕ) → total at_work (replicate n (selecting 0)) ≡ n
  all_ready zero = refl
  all_ready (suc n) = omega (arith, all_ready n)

  Reach-Inv : {n : ℕ} {s : Counting} → Reach first_of_sum n s → Inv s
  Reach-Inv begin = record { counted = refl; so_far = refl; runs = refl }
  Reach-Inv (later r st) = Step-Inv st (Reach-Inv r)

  all_at_work : {n : ℕ} {s : Counting} → Reach first_of_sum n s → total at_work s.workers ≡ n
  all_at_work {n} begin = all_ready n
  all_at_work (later r st) = Step-at_work st (Reach-Inv r).runs ∙ all_at_work r

  -- In every state that the program reaches: all its workers are at work; and the rates that were
  -- printed, with what the next report would print, add up to the number of hashes that were
  -- counted, modulo 2^64, however the workers and the reports interleave.
  pub rates_add_up :
      {num_workers : ℕ} {s : Counting}
      → Reach first_of_sum num_workers s
      → (total at_work s.workers ≡ num_workers)
        × ((sum s.printed + (s.counter + modulus - s.last) % modulus) % modulus ≡ s.ops % modulus)
  rates_add_up {s = s} r =
      let v = Reach-Inv r in (all_at_work r, omega (arith, v.counted, v.so_far))
