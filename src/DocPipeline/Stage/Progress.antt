-- ===== src/DocPipeline/Stage/Progress.antt =====
-- A stage does not get stuck by itself.
use performance_handbook.Base.{
  ℕ, ◌≤◌, ◌<◌, ◌≡◌, ◌⊎◌, inl, inr, refl, ap, false, List, [], ◌∷◌, ◌++◌, Option, arith, length,
  Bool-cases, Option-cases,
}
use native.Mathlib.Decide.{dec_lt}
use performance_handbook.Base.Int.{pos_part}
use performance_handbook.Base.Totals.{total}
use performance_handbook.DocPipeline.Stage.{
  Stage, Worker, ready, received, counted, failing, measured, sending, returned, State, Move,
  see_cancelled, see_closed, receive, count_item, call_ok, call_error, count_error, record_latency,
  send, give_up, Reach,
}
use performance_handbook.DocPipeline.Stage.Invariant.{active}
use performance_handbook.DocPipeline.Stage.Safety.{Reach-Inv}

module _ {ℓ κ} {I : Type ℓ} {O : Type κ} (fn : I → Option O) (capacity : ℕ) where
  -- A step of the stage itself: of a worker, or of the goroutine that closes `out`.
  pub data Advance (s : State I O) : Type (ℓ ⊔ κ) where
    by_worker :
        (ws vs : List (Worker I O)) (a b : Worker I O) (t : State I O)
        → s.workers ≡ ws ++ a ∷ vs
        → Move fn capacity s a t b
        → Advance s
    by_closing : s.wait_group ≡ 0 → s.out_closed ≡ false → Advance s

  -- The stage waits for others: for its reader, or for the next item.
  abbrev pub Waiting : State I O → Type ℓ
  Waiting s =
      (s.cancelled ≡ false) × ((capacity ≤ length s.out) ⊎ ((s.input ≡ []) × (s.in_closed ≡ false)))

  abbrev Moves : State I O → Worker I O → Type (ℓ ⊔ κ)
  Moves s a = (t : State I O) × (b : Worker I O) × Move fn capacity s a t b

  send_or_wait :
      (s : State I O) (x : I) (y : O)
      → Moves s (sending x y) ⊎ ((s.cancelled ≡ false) × (capacity ≤ length s.out))
  send_or_wait s x y = elim (dec_lt (length s.out) capacity) [
    | yes room ↦ inl (_, _, send room)
    | no full ↦ elim (Bool-cases s.cancelled) [
      | inl c ↦ inl (_, _, give_up c)
      | inr c ↦ inr (c, omega arith)
    ]
  ]

  receive_or_wait :
      (s : State I O) (input : List I)
      → s.input ≡ input
      → Moves s ready ⊎ ((s.cancelled ≡ false) × (s.input ≡ []) × (s.in_closed ≡ false))
  receive_or_wait s (x ∷ xs) e = inl (_, _, receive e)
  receive_or_wait s [] e = elim (Bool-cases s.in_closed) [
    | inl shut ↦ inl (_, _, see_closed shut e)
    | inr open_yet ↦ elim (Bool-cases s.cancelled) [
      | inl c ↦ inl (_, _, see_cancelled c)
      | inr c ↦ inr (c, e, open_yet)
    ]
  ]

  move_or_wait : (s : State I O) (a : Worker I O) → active a ≡ 1 → Moves s a ⊎ Waiting s
  move_or_wait s ready e = elim (receive_or_wait s s.input refl) [
    | inl m ↦ inl m
    | inr (c, empty, open_yet) ↦ inr (c, inr (empty, open_yet))
  ]
  move_or_wait s (received x) e = inl (_, _, count_item)
  move_or_wait s (counted x) e = elim (Option-cases (fn x)) [
    | inl fails ↦ inl (_, _, call_error fails)
    | inr (y, works) ↦ inl (_, _, call_ok works)
  ]
  move_or_wait s (failing x) e = inl (_, _, count_error)
  move_or_wait s (measured x y) e = inl (_, _, record_latency)
  move_or_wait s (sending x y) e = elim (send_or_wait s x y) [
    | inl m ↦ inl m
    | inr (c, full) ↦ inr (c, inl full)
  ]
  move_or_wait s returned e = absurd (omega (arith, e))

  pub find_active :
      (ws : List (Worker I O))
      → 0 < total active ws
      → (us : List (Worker I O)) × (a : Worker I O) × (vs : List (Worker I O)) × (ws ≡ us ++ a ∷ vs)
        × (active a ≡ 1)
  find_active [] h = absurd (omega arith)
  find_active (returned ∷ ws) h =
      let (us, a, vs, e, f) = find_active ws (omega (arith, h)) in
      (returned ∷ us, a, vs, ap (◌∷◌ returned) e, f)
  find_active (ready ∷ ws) h = ([], ready, ws, refl, refl)
  find_active (a ∷ ws) h = ([], a, ws, refl, refl)

module _ {ℓ κ} {I : Type ℓ} {O : Type κ} (fn : I → Option O) (stage : Stage) where
  -- While `out` is open, in any reachable state, a worker can move or `out` can be closed, unless
  -- the context is not cancelled and either `out` is full or the input is empty and not closed.
  pub no_deadlock :
      {s : State I O}
      → Reach fn stage s
      → s.out_closed ≡ false
      → Advance fn (pos_part stage.buffer_size) s ⊎ Waiting fn (pos_part stage.buffer_size) s
  no_deadlock {s} r o = elim (dec_lt 0 s.wait_group) [
    | no none_left ↦ inl (by_closing (omega arith) o)
    | yes some_left ↦
        let (us, a, vs, e, f) =
          find_active fn (pos_part stage.buffer_size) s.workers
            (omega (arith, (Reach-Inv fn stage r).closing.waits)) in
        elim (move_or_wait fn (pos_part stage.buffer_size) s a f) [
          | inl (t, b, m) ↦ inl (by_worker us vs a b t e m)
          | inr w ↦ inr w
        ]
  ]
