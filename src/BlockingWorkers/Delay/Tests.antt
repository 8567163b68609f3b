-- ===== src/BlockingWorkers/Delay/Tests.antt =====
-- One round, and the next byte on its way.
use performance_handbook.Base.{◌+◌, ◌≤◌, ◌≡◌, ◌⊎◌, refl, true, false}
use performance_handbook.BlockingWorkers.Delay.{
  returned, left, Link, Step, write, read, server_reads, wakes, server_writes, Reach, begin, later,
}
use performance_handbook.BlockingWorkers.Delay.LockStep.{under_way, MovesOn, lock_step}

record Run : Type 0 where
  last : Link
  steps : Reach last

second_round : Run
second_round = record {
  last = _;
  steps =
      later
        (later
          (later (later (later (later begin (write refl)) (server_reads refl refl)) (wakes refl))
            (server_writes refl))
          (read refl refl))
        (write refl);
}

lock_step_example :
    (under_way second_round.last ≤ 1)
    × (second_round.last.rounds ≤ second_round.last.sleeps)
    × (second_round.last.sleeps ≤ second_round.last.rounds + 1)
    × (((second_round.last.broken ≡ false) × MovesOn second_round.last)
        ⊎ ((second_round.last.broken ≡ true)
            × (((t : Link) × Step second_round.last t)
                ⊎ ((second_round.last.worker ≡ returned) × (second_round.last.server ≡ left)))))
lock_step_example = lock_step second_round.steps
