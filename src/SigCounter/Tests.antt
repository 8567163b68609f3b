-- ===== src/SigCounter/Tests.antt =====
-- Two ticks behind a reset, read once in between.
use performance_handbook.Base.{◌%◌, ◌≡◌, refl, List, [], ◌∷◌, ◌++◌}
use performance_handbook.SigCounter.{
  sigusr1, sigusr2, Event, tick, signal, modulus, new_program, on_event, run_events,
}
use performance_handbook.SigCounter.Counting.{ticks_in, prints_ticks_since_reset}

abbrev two_ticks : List Event
two_ticks = tick ∷ signal sigusr1 ∷ tick ∷ []

prints_ticks_since_reset_example :
    let last = run_events two_ticks (on_event (signal sigusr2) new_program) in
    (on_event (signal sigusr1) last).printed ≡ last.printed ++ (ticks_in two_ticks % modulus) ∷ []
unfolding new_program
prints_ticks_since_reset_example =
    prints_ticks_since_reset new_program two_ticks refl (tt, (tt, (tt, tt)))
