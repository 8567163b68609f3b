-- ===== src/DocPipeline/Program/Backlog.antt =====
-- How much a stage and the line can hold.
use performance_handbook.Base.{
  ℕ, ◌+◌, ◌≤◌, ◌≡◌, refl, ap, List, [], ◌∷◌, Option, some, arith, length, All, none,
}
use performance_handbook.Base.Int.{pos_part}
use performance_handbook.Base.Totals.{total, weight_of}
use performance_handbook.DocPipeline.Stage.{
  Stage, new_stage, Worker, ready, received, counted, failing, measured, sending, returned, State,
  Reach,
}
use performance_handbook.DocPipeline.Stage.Invariant.{held, active}
use performance_handbook.DocPipeline.Stage.Safety.{Reach-Inv}
use performance_handbook.DocPipeline.Stage.Flow.{through, backlog}
use performance_handbook.DocPipeline.Pipeline.{
  load_stage, tokenize_stage, embed_stage, Line, LineReach,
}
use performance_handbook.DocPipeline.Pipeline.Invariant.{LineInv, LineReach-LineInv}

abbrev AtMostOne {ℓ} : {A : Type ℓ} → (A → ℕ) → Type ℓ
AtMostOne {A} w = (x : A) → w x ≤ 1

total-le-length {ℓ} :
    {A : Type ℓ} (w : A → ℕ) → AtMostOne w → (xs : List A) → total w xs ≤ length xs
total-le-length w one [] = omega arith
total-le-length w one (x ∷ xs) = omega (arith, one x, total-le-length w one xs)

through_one {ℓ κ} :
    {I : Type ℓ} {O : Type κ} (fn : I → Option O) (w : O → ℕ)
    → AtMostOne w
    → AtMostOne (through fn w)
through_one fn w one x = weigh (fn x)
  where
    weigh : (o : Option _) → weight_of w o ≤ 1
    weigh none = omega arith
    weigh (some y) = one y

module _ {ℓ κ} {I : Type ℓ} {O : Type κ} (fn : I → Option O) (w : O → ℕ) (one : AtMostOne w) where
  held-le : (a : Worker I O) → held (through fn w) a ≤ active a
  held-le ready = omega arith
  held-le (received x) = through_one fn w one x
  held-le (counted x) = through_one fn w one x
  held-le (failing x) = through_one fn w one x
  held-le (measured x y) = through_one fn w one x
  held-le (sending x y) = through_one fn w one x
  held-le returned = omega arith

  total-held-le : (ws : List (Worker I O)) → total (held (through fn w)) ws ≤ total active ws
  total-held-le [] = omega arith
  total-held-le (a ∷ ws) = omega (arith, held-le a, total-held-le ws)

  -- A stage holds what waits for it, an item for each worker, and what its channel has room for.
  backlog-le :
      (stage : Stage) {s : State I O}
      → Reach fn stage s
      → backlog fn w s ≤ length s.input + pos_part stage.workers + pos_part stage.buffer_size
  backlog-le stage {s} r =
      let v = Reach-Inv fn stage r in
      omega (
        arith,
        total-le-length (through fn w) (through_one fn w one) s.input,
        total-held-le s.workers,
        v.crew,
        total-le-length w one s.out,
        v.told.bounded,
      )

pub each_counts {ℓ κ} :
    {I : Type ℓ} {O : Type κ} (fn : I → Option O) (w : O → ℕ)
    → ((y : O) → w y ≡ 1)
    → (xs : List I) → All (λ x. (y : O) × (fn x ≡ some y)) xs
    → total (through fn w) xs ≡ length xs
each_counts fn w one [] h = refl
each_counts fn w one (x ∷ xs) h =
    let (y, e) = h.0 in omega (arith, ap (weight_of w) e, one y, each_counts fn w one xs h.1)

-- What is on its way in the line, behind the channel of the generator
pub line_holds {ℓ} :
    {A B C : Type 0} {D : Type ℓ} (f : A → Option B) (g : B → Option C) (h : C → Option D)
    {s : Line A B C D}
    → LineReach f g h s
    → let one : D → ℕ = λ x. 1 in
      backlog h one s.embedding
        + backlog g (through h one) s.tokenizing
        + backlog f (through g (through h one)) s.loading
      ≤ length s.loading.input + 305
unfolding new_stage
line_holds {D = D} f g h {s} r = omega (
  arith,
  backlog-le f (through g (through h one))
      (through_one g (through h one) (through_one h one (λ x. omega arith))) load_stage
      v.loading.reach,
  backlog-le g (through h one) (through_one h one (λ x. omega arith)) tokenize_stage
      v.tokenizing.reach,
  backlog-le h one (λ x. omega arith) embed_stage v.embedding.reach,
  ap length v.first_link.1,
  ap length v.second_link.1,
)
  where
    one : D → ℕ
    one x = 1

    v : LineInv f g h s
    v = LineReach-LineInv f g h r
