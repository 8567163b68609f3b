-- ===== src/DocPipeline/Stage/Safety.antt =====
-- What a stage promises, in every state that it can reach.
use performance_handbook.Base.{
  ℕ, zero, suc, ◌+◌, ◌*◌, ◌<◌, ◌≡◌, refl, ap, ◌∙◌, true, false, List, [], ◌∷◌, ◌++◌, Option, none,
  arith, length, replicate, append-nil, All, Bool-cases, inl, inr,
}
use performance_handbook.Base.Int.{ℤ, pos, pos_part, ◌≤ℤ◌}
use performance_handbook.Base.Totals.{
  total, SameItems, total-one, filter_map, weight_of, total-filter_map,
}
use performance_handbook.DocPipeline.Stage.{
  Stage, new_stage, Worker, ready, sending, returned, State, start, Reach, begin, later,
}
use performance_handbook.DocPipeline.Stage.Invariant.{
  held, active, gone, past_count, past_latency, Placed, Told, Tells, Step-Placed, Step-Told,
}
use performance_handbook.DocPipeline.Stage.Closing.{
  Closing, Counted, Step-Closing, Step-Counted, Step-crew, total-member,
}

-- Whatever numbers it is given, `NewStage` makes a stage with at least one worker and room for at
-- least one result; and given the numbers of such a stage it keeps them.
pub new_stage_positive :
    (workers buffer_size : ℤ)
    → (pos 1 ≤ℤ (new_stage workers buffer_size).workers)
      × (pos 1 ≤ℤ (new_stage workers buffer_size).buffer_size)
      × (new_stage
            (new_stage workers buffer_size).workers
            (new_stage workers buffer_size).buffer_size
          ≡ new_stage workers buffer_size)
unfolding new_stage
new_stage_positive workers buffer_size = (ground arith, ground arith, ground arith)

module _ {ℓ κ} {I : Type ℓ} {O : Type κ} where
  total_ready : (f : Worker I O → ℕ) (n : ℕ) → total f (replicate n ready) ≡ n * f ready
  total_ready f zero = omega arith
  total_ready f (suc n) = omega (arith, total_ready f n)

  All-ready : (fn : I → Option O) (n : ℕ) → All (Tells fn) (replicate n ready)
  All-ready fn zero = tt
  All-ready fn (suc n) = (tt, All-ready fn n)

module _ {ℓ κ} {I : Type ℓ} {O : Type κ} (fn : I → Option O) (stage : Stage) where
  abbrev capacity : ℕ
  capacity = pos_part stage.buffer_size

  pub record Inv (s : State I O) : Type (ℓ ⊔ κ) where
    pub placed : Placed s
    pub told : Told fn capacity s
    pub closing : Closing s
    pub counted : Counted s
    pub crew : total active s.workers + total gone s.workers ≡ pos_part stage.workers

  start-Inv : Inv (start stage)
  unfolding start
  start-Inv = record {
    placed = record { places = λ w. omega (arith, total_ready {O = O} (held w) n) };
    told = record {
      coherent = All-ready fn n;
      results = refl;
      sized = refl;
      failures = tt;
      bounded = omega arith;
    };
    closing = record {
      waits = omega (arith, total_ready (active {I = I} {O = O}) n);
      closed = λ h. cc;
      kept = λ f. refl;
      ended = λ f g. absurd (omega (arith, g, total_ready (gone {I = I} {O = O}) n));
    };
    counted = record {
      items = omega (arith, total_ready (past_count {I = I} {O = O}) n);
      errors = refl;
      latencies = omega (arith, total_ready (past_latency {I = I} {O = O}) n);
    };
    crew =
        omega (arith, total_ready (active {I = I} {O = O}) n, total_ready (gone {I = I} {O = O}) n);
  }
    where
      n : ℕ
      n = pos_part stage.workers

  pub Reach-Inv : {s : State I O} → Reach fn stage s → Inv s
  Reach-Inv begin = start-Inv
  Reach-Inv (later r st) =
      let v = Reach-Inv r in
      record {
        placed = Step-Placed fn capacity st v.placed;
        told = Step-Told fn capacity st v.told;
        closing = Step-Closing fn capacity st v.closing;
        counted = Step-Counted fn capacity st v.closing v.counted;
        crew = Step-crew fn capacity st ∙ v.crew;
      }

  pub failures_weigh :
      (w : O → ℕ) (xs : List I) → All (λ x. fn x ≡ none) xs → total (λ x. weight_of w (fn x)) xs ≡ 0
  failures_weigh w [] h = refl
  failures_weigh w (x ∷ xs) h = omega (arith, ap (weight_of w) h.0, failures_weigh w xs h.1)

  pub not_active :
      (ws : List (Worker I O))
      → total active ws ≡ 0
      → (w : I → ℕ)
      → (total (held w) ws ≡ 0) × (total past_count ws ≡ 0) × (total past_latency ws ≡ 0)
  not_active [] e w = (refl, refl, refl)
  not_active (returned ∷ ws) e w = omega (arith, not_active ws (omega (arith, e)) w)
  not_active (ready ∷ ws) e w = absurd (omega arith)
  not_active (_ ∷ ws) e w = absurd (omega arith)

  -- No worker ever sends on `out` after it has been closed, which would be a panic: while a worker
  -- stands at its send, in any reachable state, `out` is open.
  pub out_open_for_send :
      {s : State I O}
      → Reach fn stage s
      → (x : I) (y : O) (ws vs : List (Worker I O)) → s.workers ≡ ws ++ sending x y ∷ vs
      → s.out_closed ≡ false
  out_open_for_send {s} r x y ws vs e = elim (Bool-cases s.out_closed) [
    | inl shut ↦ absurd (
        omega (
          arith,
          closing.closed shut,
          closing.waits,
          ap (total active) e,
          total-member active ws vs (sending x y),
        ))
    | inr still_open ↦ still_open
  ]
    where
      open (Reach-Inv r) use {closing}

  -- Once `out` is closed and empty, and the context was never cancelled, the results that were
  -- received are those of the items that were sent to the stage, each as often: for every item
  -- exactly one if `fn` succeeds on it and none if it fails, whatever the order in which the
  -- workers ran. And the metrics say so: every item was counted once, and the errors and latencies
  -- add up to that.
  pub complete :
      {s : State I O}
      → Reach fn stage s
      → 0 < pos_part stage.workers
      → s.cancelled ≡ false
      → s.out_closed ≡ true
      → s.out ≡ []
      → SameItems s.consumed (filter_map fn s.offered)
        × (s.processed ≡ length s.offered)
        × (s.latencies ≡ length s.consumed)
        × (s.errors + s.latencies ≡ s.processed)
  complete {s} r some_worker c o empty = (
    λ w.
        let u : I → ℕ = λ x. weight_of w (fn x) in
        omega (
          arith,
          placed.places u,
          ap (total u) nothing_left,
          ap (total u) (closing.kept c),
          (idle u).0,
          failures_weigh w s.failed told.failures,
          total-filter_map w fn s.sent,
          total-filter_map w fn s.offered,
          ap (total w) results,
        ),
    omega (arith, counted.items, (idle (λ x. 1)).1, ap length (closing.kept c), all_offered),
    omega (arith, latencies, ap length results, told.sized, ap length empty),
    omega (
      arith,
      counted.items,
      (idle (λ x. 1)).1,
      counted.errors,
      latencies,
      ap length (closing.kept c),
    ),
  )
    where
      open (Reach-Inv r) use {placed, told, closing, counted, crew}

      none_active : total active s.workers ≡ 0
      none_active = omega (arith, closing.closed o, closing.waits)

      idle :
          (w : I → ℕ)
          → (total (held w) s.workers ≡ 0)
            × (total past_count s.workers ≡ 0)
            × (total past_latency s.workers ≡ 0)
      idle w = not_active s.workers none_active w

      nothing_left : s.input ≡ []
      nothing_left = (closing.ended c (omega (arith, none_active, crew))).1

      results : s.consumed ≡ filter_map fn s.sent
      results = cc (told.results, append-nil s.consumed)

      latencies : s.latencies ≡ length s.sent
      latencies = omega (arith, counted.latencies, (idle (λ x. 1)).2, ap length (closing.kept c))

      all_offered : length s.offered ≡ length s.sent + length s.failed
      all_offered = omega (
        arith,
        placed.places (λ x. 1),
        (idle (λ x. 1)).0,
        ap length nothing_left,
        ap length (closing.kept c),
        total-one s.offered,
        total-one s.input,
        total-one s.sent,
        total-one s.failed,
        total-one s.dropped,
      )
