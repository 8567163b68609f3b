-- ===== src/PingPong/Monitor/Tests.antt =====
-- The goroutine 1 sleeps, and 0 has counted.
use performance_handbook.Base.{refl, arith}
use performance_handbook.PingPong.{first_turn, Turning}
use performance_handbook.PingPong.Monitor.{
  Monitor, first_monitor, lock, wait, pass, add_one, Steps, stay, go,
}
use performance_handbook.PingPong.Monitor.Refining.{turn_of, view, monitor-Refines}
use performance_handbook.PingPong.Monitor.Coming.{Comes, turn_comes}

record Run : Type 0 where
  last : Monitor
  steps : Steps 2 first_monitor last

one_counted : Run
unfolding first_monitor first_turn native.Mathlib.Decide.ℕ_discrete
one_counted = record {
  last = _;
  steps =
      go
        (go
          (go (go (go stay (lock 1 (omega arith) refl refl)) (wait refl (λ e. omega (arith, e))))
            (lock 0 (omega arith) refl refl))
          (pass refl refl))
        (add_one refl);
}

monitor-Refines_example : Turning 2 (view 2 one_counted.last)
monitor-Refines_example = monitor-Refines 2 (omega arith) one_counted.steps

turn_comes_example :
    Comes 2 one_counted.last (turn_of 2 one_counted.last.holder one_counted.last.turns.turn)
turn_comes_example = turn_comes 2 (omega arith) one_counted.steps
