-- ===== src/SharedCounter/Tests.antt =====
-- Two goroutines; the first has written, or the second has read.
use performance_handbook.Base.{inl, refl, true, [], ◌∷◌}
use performance_handbook.SharedCounter.{
  mutex_increment, outside, loaded, stored, Shared, start, lock, load, store, step, Reach, begin,
  later, shared,
}
use performance_handbook.SharedCounter.Refinement.{Atomic, Refines, mechanism-Refines}

abbrev one_read : Shared
one_read = record { workers = loaded 0 ∷ outside ∷ []; locked = true; counter = 0; finished = 0 }

abbrev one_written : Shared
one_written = record { workers = stored ∷ outside ∷ []; locked = true; counter = 1; finished = 1 }

one_read-Reach : Reach mutex_increment 2 one_read
unfolding start
one_read-Reach =
    later (later begin (step [] (outside ∷ []) refl (lock (inl refl) refl)))
      (step [] (outside ∷ []) refl (load refl))

mechanism-Refines_example : Atomic 0 × Refines 0 1
mechanism-Refines_example =
    mechanism-Refines (shared mutex_increment 2) one_read one_written one_read-Reach
      (step [] (outside ∷ []) refl store)
