-- ===== src/CpuWorkers/Tests.antt =====
-- Two workers; one counts a hash, which is reported, and then another.
use performance_handbook.Base.{ℕ, ◌+◌, ◌%◌, ◌≡◌, refl, [], ◌∷◌}
use performance_handbook.CpuWorkers.{
  selecting, Counting, hash, add_one, worker, report, Reach, begin, later,
}

abbrev next_byte : ℕ → ℕ
next_byte b = (b + 7) % 256

record Run : Type 0 where
  last : Counting
  reach : Reach next_byte 2 last

two_ops : Run
two_ops = record {
  last = _;
  reach =
      later
        (later
          (later
            (later (later begin (worker [] (selecting 0 ∷ []) refl (hash refl)))
              (worker [] (selecting 0 ∷ []) refl add_one))
            report)
          (worker (selecting 7 ∷ []) [] refl (hash refl)))
        (worker (selecting 7 ∷ []) [] refl add_one);
}

one_printed : two_ops.last.printed ≡ 1 ∷ []
unfolding two_ops
one_printed = refl
