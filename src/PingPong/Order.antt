-- ===== src/PingPong/Order.antt =====
-- Both mechanisms hand the token to the goroutines 0, 1, ..., n - 1, 0, 1, ...
use native.Mathlib.Nat.{mod-add-mod}
use performance_handbook.Base.{
  ℕ, zero, suc, ◌+◌, ◌%◌, ◌≡◌, refl, sym, ap, subst, ◌∙◌, List, [], ◌∷◌, ◌++◌, arith,
}
use performance_handbook.PingPong.{
  modulus, Turns, hand_over, Token, offered, received, counted, Ring, receive, add_one, send,
  first_turn, first_ring, Turning, Running, begin, later,
}

-- The first `k` holders of the token.
abbrev pub turns : ℕ → ℕ → List ℕ
turns n zero = []
turns n (suc k) = turns n k ++ (k % n) ∷ []

-- The holders so far are those, and as many as the counter says.
abbrev pub InTurn : ℕ → ℕ → ℕ → List ℕ → Type 0
InTurn n k counter order = (order ≡ turns n k) × (counter ≡ k % modulus)

turned :
    (n k turn counter : ℕ) (order : List ℕ)
    → turn ≡ k % n
    → InTurn n k counter order
    → InTurn n (suc k) ((counter + 1) % modulus) (order ++ turn ∷ [])
turned n k turn counter order e (o, c) = (rw (o, e) refl, omega (arith, c))

next_turn : (n k : ℕ) → (k % n + 1) % n ≡ suc k % n
next_turn n k = mod-add-mod k n 1 ∙ ap (λ i. i % n) (omega arith)

module _ (n : ℕ) where
  -- With the mutex, in any state that the goroutines reach in any schedule: for some number `k` of
  -- hand-offs, the token was held by `0 % n`, ..., `(k - 1) % n`, in this order; the counter is `k`,
  -- modulo 2^64; and it is the turn of `k % n`.
  pub turns_in_order :
      {s : Turns} → Turning n s → (k : ℕ) × InTurn n k s.counter s.order × (s.turn ≡ k % n)
  unfolding first_turn
  turns_in_order begin = (0, (refl, omega arith), omega arith)
  turns_in_order (later {s = s} r (hand_over id below mine)) =
      let (k, so_far, whose) = turns_in_order r in
      (
        suc k,
        turned n k id s.counter s.order (sym mine ∙ whose) so_far,
        ap (λ i. (i + 1) % n) whose ∙ next_turn n k,
      )

  -- Whose goroutine has the token, or gets it next, after `k` hand-offs.
  abbrev pub At : ℕ → Token → Type 0
  At k (offered from c) = c ≡ k % n
  At k (received id) = id ≡ k % n
  At k (counted id) = (id + 1) % n ≡ k % n

  -- With the channels, in any state that the goroutines reach in any schedule: for some number `k`
  -- of hand-offs, the token was held by `0 % n`, ..., `(k - 1) % n`, in this order; the counter is
  -- `k`, modulo 2^64; and the token is on its way to `k % n`, or that goroutine has it.
  pub ring_in_order :
      {s : Ring} → Running n s → (k : ℕ) × InTurn n k s.counter s.order × At k s.token
  unfolding first_ring
  ring_in_order begin = (0, (refl, omega arith), omega arith)
  ring_in_order (later r (receive e below other)) =
      let (k, so_far, whose) = ring_in_order r in (k, so_far, subst (At k) e whose)
  ring_in_order (later {s = s} r (add_one {id} e)) =
      let (k, so_far, whose) = ring_in_order r in
      let mine : id ≡ k % n = subst (At k) e whose in
      (
        suc k,
        turned n k id s.counter s.order mine so_far,
        ap (λ i. (i + 1) % n) mine ∙ next_turn n k,
      )
  ring_in_order (later r (send e)) =
      let (k, so_far, whose) = ring_in_order r in (k, so_far, subst (At k) e whose)

  -- Both mechanisms hand the token over in the same way, in any states that the goroutines reach in
  -- any schedule: for some number `k` of hand-offs, the token was held by `0 % n`, ..., `(k - 1) %
  -- n`, in this order; the counter is `k`, modulo 2^64; and with the mutex it is the turn of `k %
  -- n`, with the channels the token is on its way to `k % n`, or that goroutine has it.
  pub token_in_order :
      {s : Turns} {r : Ring}
      → Turning n s
      → Running n r
      → ((k : ℕ) × InTurn n k s.counter s.order × (s.turn ≡ k % n))
        × ((k : ℕ) × InTurn n k r.counter r.order × At k r.token)
  token_in_order turning running = (turns_in_order turning, ring_in_order running)
