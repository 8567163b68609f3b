-- ===== src/PingPong/Tests.antt =====
-- Two goroutines, and one alone.
use performance_handbook.Base.{ℕ, ◌%◌, ◌<◌, ◌≡◌, refl, [], ◌∷◌, arith}
use performance_handbook.PingPong.{
  Turns, hand_over, counted, Ring, receive, add_one, first_turn, first_ring, Turning, Running,
  begin, later,
}
use performance_handbook.PingPong.Order.{InTurn, At, token_in_order}

abbrev one_turn : Turns
one_turn = record { turn = 1; counter = 1; order = 0 ∷ [] }

one_turn-Turning : Turning 2 one_turn
unfolding first_turn
one_turn-Turning = later begin (hand_over 0 (omega arith) refl)

abbrev one_held : Ring
one_held = record { token = counted 0; counter = 1; order = 0 ∷ [] }

one_held-Running : (n : ℕ) → 0 < n → Running n one_held
unfolding first_ring
one_held-Running n h = later (later begin (receive refl h (λ e. ground arith))) (add_one refl)

token_in_order_example :
    ((k : ℕ) × InTurn 2 k 1 (0 ∷ []) × (1 ≡ k % 2))
    × ((k : ℕ) × InTurn 2 k 1 (0 ∷ []) × At 2 k (counted 0))
token_in_order_example = token_in_order 2 one_turn-Turning (one_held-Running 2 (omega arith))
