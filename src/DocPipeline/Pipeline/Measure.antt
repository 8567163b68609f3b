-- ===== src/DocPipeline/Pipeline/Measure.antt =====
-- A number that bounds the steps that are left to the line.
use performance_handbook.Base.{
  ℕ, ◌+◌, ◌<◌, ◌≡◌, ap, Bool, true, false, List, [], ◌∷◌, ◌++◌, Option, arith,
}
use performance_handbook.Base.Totals.{total, total-append}
use performance_handbook.DocPipeline.Stage.{
  Worker, ready, received, counted, failing, measured, sending, returned, State, Move,
  see_cancelled, see_closed, receive, count_item, call_ok, call_error, count_error, record_latency,
  send, give_up,
}
use performance_handbook.DocPipeline.Pipeline.{Line, Inner, work, close, gives, takes}

abbrev pub open_cost : Bool → ℕ
open_cost true = 0
open_cost false = 1

module _ {ℓ κ} {I : Type ℓ} {O : Type κ} (base : ℕ) where
  -- The steps that are left to a worker, when those behind the stage take `base` for each result.
  abbrev pub worker_cost : Worker I O → ℕ
  worker_cost ready = 1
  worker_cost (received x) = base + 5
  worker_cost (counted x) = base + 4
  worker_cost (failing x) = base + 3
  worker_cost (measured x y) = base + 3
  worker_cost (sending x y) = base + 2
  worker_cost returned = 0

  abbrev pub stage_cost : State I O → ℕ
  stage_cost s =
      total (λ x. base + 5) s.input
      + total worker_cost s.workers
      + total (λ y. base) s.out
      + open_cost s.out_closed
      + open_cost s.in_closed

  module _ (fn : I → Option O) where
    move_costs :
        (s : State I O) (ws vs : List (Worker I O)) {a b : Worker I O} {t : State I O}
        → s.workers ≡ ws ++ a ∷ vs
        → Move fn 100 s a t b
        → stage_cost (record t { workers = ws ++ b ∷ vs }) < stage_cost s
    move_costs s ws vs e (see_cancelled c) = omega (
      arith,
      ap (total worker_cost) e,
      total-append worker_cost ws (ready ∷ vs),
      total-append worker_cost ws (returned ∷ vs),
    )
    move_costs s ws vs e (see_closed c empty) = omega (
      arith,
      ap (total worker_cost) e,
      total-append worker_cost ws (ready ∷ vs),
      total-append worker_cost ws (returned ∷ vs),
    )
    move_costs s ws vs e (receive {x} {xs} next) = omega (
      arith,
      ap (total worker_cost) e,
      ap (total (λ z. base + 5)) next,
      total-append worker_cost ws (ready ∷ vs),
      total-append worker_cost ws (received x ∷ vs),
    )
    move_costs s ws vs e (count_item {x}) = omega (
      arith,
      ap (total worker_cost) e,
      total-append worker_cost ws (received x ∷ vs),
      total-append worker_cost ws (counted x ∷ vs),
    )
    move_costs s ws vs e (call_ok {x} {y} works) = omega (
      arith,
      ap (total worker_cost) e,
      total-append worker_cost ws (counted x ∷ vs),
      total-append worker_cost ws (measured x y ∷ vs),
    )
    move_costs s ws vs e (call_error {x} fails) = omega (
      arith,
      ap (total worker_cost) e,
      total-append worker_cost ws (counted x ∷ vs),
      total-append worker_cost ws (failing x ∷ vs),
    )
    move_costs s ws vs e (count_error {x}) = omega (
      arith,
      ap (total worker_cost) e,
      total-append worker_cost ws (failing x ∷ vs),
      total-append worker_cost ws (ready ∷ vs),
    )
    move_costs s ws vs e (record_latency {x} {y}) = omega (
      arith,
      ap (total worker_cost) e,
      total-append worker_cost ws (measured x y ∷ vs),
      total-append worker_cost ws (sending x y ∷ vs),
    )
    move_costs s ws vs e (send {x} {y} room) = omega (
      arith,
      ap (total worker_cost) e,
      total-append (λ z. base) s.out (y ∷ []),
      total-append worker_cost ws (sending x y ∷ vs),
      total-append worker_cost ws (ready ∷ vs),
    )
    move_costs s ws vs e (give_up {x} {y} c) = omega (
      arith,
      ap (total worker_cost) e,
      total-append worker_cost ws (sending x y ∷ vs),
      total-append worker_cost ws (returned ∷ vs),
    )

    pub inner_costs : {s t : State I O} → Inner fn s t → stage_cost t < stage_cost s
    inner_costs {s} (work ws vs e m) = move_costs s ws vs e m
    inner_costs {s} (close e still_open) = omega (arith, ap open_cost still_open)

-- What an item takes that passes from one stage to the next.
pub pass_costs {ℓ κ μ} :
    {I : Type ℓ} {M : Type κ} {O : Type μ} (base : ℕ) (s : State I M) (t : State M O) (y : M)
    (ys : List M) (ws vs : List (Worker M O))
    → s.out ≡ y ∷ ys
    → t.input ≡ []
    → t.workers ≡ ws ++ ready ∷ vs
    → stage_cost (base + 5) (gives s y ys) + stage_cost base (takes t y ws vs)
      < stage_cost (base + 5) s + stage_cost base t
pass_costs base s t y ys ws vs e empty at = omega (
  arith,
  ap (total (λ z. base + 5)) e,
  ap (total (λ z. base + 5)) empty,
  ap (total (worker_cost base)) at,
  total-append (worker_cost base) ws (ready ∷ vs),
  total-append (worker_cost base) ws (received y ∷ vs),
)

abbrev pub line_cost {ℓ} : {A B C : Type 0} {D : Type ℓ} → Line A B C D → ℕ
line_cost s = stage_cost 11 s.loading + stage_cost 6 s.tokenizing + stage_cost 1 s.embedding
