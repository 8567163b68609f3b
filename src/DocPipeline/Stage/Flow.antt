-- ===== src/DocPipeline/Stage/Flow.antt =====
-- What a stage passes on to the one behind it.
use performance_handbook.Base.{ℕ, ◌+◌, ◌<◌, ◌≡◌, ap, true, false, Option, arith}
use performance_handbook.Base.Int.{pos_part}
use performance_handbook.Base.Totals.{total, total-append, weight_of, total-filter_map}
use performance_handbook.DocPipeline.Stage.{Stage, State, Reach}
use performance_handbook.DocPipeline.Stage.Invariant.{held, active}
use performance_handbook.DocPipeline.Stage.Safety.{Reach-Inv, failures_weigh, not_active}

-- The weight of an item, when `w` weighs its result: none if it has no result.
abbrev pub through {ℓ κ} : {I : Type ℓ} {O : Type κ} → (I → Option O) → (O → ℕ) → I → ℕ
through fn w x = weight_of w (fn x)

module _ {ℓ κ} {I : Type ℓ} {O : Type κ} (fn : I → Option O) where
  -- What is still in the stage: items that were sent to it and have neither failed nor left it.
  abbrev pub backlog : (O → ℕ) → State I O → ℕ
  backlog w s = total (through fn w) s.input + total (held (through fn w)) s.workers + total w s.out

  -- In any state that a stage reaches without a cancellation: however its results are weighed,
  -- those of the items sent to it are those that have left it and those that are still in it.
  pub flow :
      (stage : Stage) {s : State I O}
      → Reach fn stage s
      → s.cancelled ≡ false
      → (w : O → ℕ) → total (through fn w) s.offered ≡ total w s.consumed + backlog w s
  flow stage {s} r c w = omega (
    arith,
    placed.places (through fn w),
    ap (total (through fn w)) (closing.kept c),
    failures_weigh fn stage w s.failed told.failures,
    total-filter_map w fn s.sent,
    ap (total w) told.results,
    total-append w s.consumed s.out,
  )
    where
      open (Reach-Inv fn stage r) use {placed, told, closing}

  -- A stage that has closed its channel without a cancellation has seen the end of its input, and
  -- only what is in that channel is still in it.
  pub shut_down :
      (stage : Stage) {s : State I O}
      → Reach fn stage s
      → 0 < pos_part stage.workers
      → s.cancelled ≡ false
      → s.out_closed ≡ true
      → (s.in_closed ≡ true) × ((w : O → ℕ) → backlog w s ≡ total w s.out)
  shut_down stage {s} r some_worker c o =
      let ended = closing.ended c (omega (arith, none_active, crew)) in
      (
        ended.0,
        λ w. omega (
          arith,
          ap (total (through fn w)) ended.1,
          (not_active fn stage s.workers none_active (through fn w)).0,
        ),
      )
    where
      open (Reach-Inv fn stage r) use {closing, crew}

      none_active : total active s.workers ≡ 0
      none_active = omega (arith, closing.closed o, closing.waits)
