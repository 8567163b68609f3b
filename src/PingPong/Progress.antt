-- ===== src/PingPong/Progress.antt =====
-- Whether somebody can always move.
use native.Mathlib.Nat.{mod-eq_of_lt, mod-eq-sub-mod}
use performance_handbook.Base.{
  ℕ, ◌+◌, ◌%◌, ◌≤◌, ◌<◌, ◌≡◌, ◌≢◌, ◌⊎◌, inl, inr, refl, sym, ap, subst, ◌∙◌, List, [], ◌∷◌, none,
  some, arith, length,
}
use performance_handbook.PingPong.{
  Turns, TakeTurn, hand_over, Token, offered, received, counted, Ring, RingStep, receive, add_one,
  send, first_ring, Turning, Running, begin, later,
}
use performance_handbook.PingPong.Order.{turns_in_order}

-- With the mutex and at least one goroutine: in any state that is reached, the goroutine whose turn
-- it is can take it.
pub turns_go_on : (n : ℕ) {s : Turns} → 0 < n → Turning n s → (t : Turns) × TakeTurn n s t
turns_go_on n {s} some_n r =
    let (k, so_far, whose) = turns_in_order n r in (_, hand_over s.turn (omega (arith, whose)) refl)

last_or_not : (n id : ℕ) → id < n → (id + 1 < n) ⊎ (id + 1 ≡ n)
last_or_not n id below = omega arith

next_apart : (n id : ℕ) → 2 ≤ n → id < n → (id + 1) % n ≢ id
next_apart n id two below e = elim (last_or_not n id below) [
  | inl inside ↦ omega (arith, mod-eq_of_lt inside, e)
  | inr last ↦
      let around : (id + 1) % n ≡ 0 % n =
        mod-eq-sub-mod (omega (arith, last)) ∙ ap (λ i. i % n) (omega (arith, last)) in
      omega (arith, around, e, last)
]

-- Goroutines that exist; and an offer is to the neighbor.
abbrev Placed : ℕ → Token → Type 0
Placed n (offered none c) = c < n
Placed n (offered (some id) c) = (id < n) × (c ≡ (id + 1) % n)
Placed n (received id) = id < n
Placed n (counted id) = id < n

Running-Placed : (n : ℕ) {s : Ring} → 0 < n → Running n s → Placed n s.token
unfolding first_ring
Running-Placed n h begin = h
Running-Placed n h (later r (receive e below other)) = below
Running-Placed n h (later r (add_one e)) = subst (Placed n) e (Running-Placed n h r)
Running-Placed n h (later r (send e)) = (subst (Placed n) e (Running-Placed n h r), refl)

can_move :
    (n : ℕ) (s : Ring) (token : Token)
    → 2 ≤ n
    → s.token ≡ token
    → Placed n token
    → (t : Ring) × RingStep n s t
can_move n s (offered none c) two e h = (_, receive e h (λ same. ground arith))
can_move n s (offered (some id) c) two e (h, at) =
    (_, receive e (omega (arith, at)) (λ same. next_apart n id two h (sym at ∙ ground arith)))
can_move n s (received id) two e h = (_, add_one e)
can_move n s (counted id) two e h = (_, send e)

-- With the channels and at least two goroutines: in any state that is reached, the token can move.
pub ring_goes_on : (n : ℕ) {s : Ring} → 2 ≤ n → Running n s → (t : Ring) × RingStep n s t
ring_goes_on n {s} two r = can_move n s s.token two refl (Running-Placed n (omega arith) r)

abbrev Lone : Token → List ℕ → Type 0
Lone (offered none c) order = order ≡ []
Lone (offered (some id) c) order = (order ≡ 0 ∷ []) × (c ≡ id)
Lone (received id) order = (order ≡ []) × (id ≡ 0)
Lone (counted id) order = (order ≡ 0 ∷ []) × (id ≡ 0)

Running-Lone : {s : Ring} → Running 1 s → Lone s.token s.order
unfolding first_ring
Running-Lone begin = refl
Running-Lone (later {s = s} r (receive {from = none} {c = c} e below other)) =
    (subst (λ token. Lone token s.order) e (Running-Lone r), omega arith)
Running-Lone (later {s = s} r (receive {from = some id} {c = c} e below other)) =
    let (one, same) = subst (λ token. Lone token s.order) e (Running-Lone r) in
    absurd (other (ap (λ i. some i) (sym same)))
Running-Lone (later {s = s} r (add_one {id} e)) =
    let (none_yet, first) = subst (λ token. Lone token s.order) e (Running-Lone r) in
    (rw (none_yet, first) refl, first)
Running-Lone (later {s = s} r (send {id} e)) =
    let (one, first) = subst (λ token. Lone token s.order) e (Running-Lone r) in
    (one, omega (arith, first))

held_once : (token : Token) (order : List ℕ) → Lone token order → length order ≤ 1
held_once (offered none c) order h = rw h (omega arith)
held_once (offered (some id) c) order h = rw h.0 (omega arith)
held_once (received id) order h = rw h.0 (omega arith)
held_once (counted id) order h = rw h.0 (omega arith)

-- With the channels and one goroutine, the token is held at most once, in any state that is reached.
pub lone_ring_stops : {s : Ring} → Running 1 s → length s.order ≤ 1
lone_ring_stops {s} r = held_once s.token s.order (Running-Lone r)
