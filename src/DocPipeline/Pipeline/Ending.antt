-- ===== src/DocPipeline/Pipeline/Ending.antt =====
-- After the last request, the line comes to its end.
use native.Mathlib.Decide.{dec_lt}
use performance_handbook.Base.{
  ◌<◌, ◌≡◌, ◌⊎◌, inl, inr, refl, ap, ◌∙◌, true, false, List, [], ◌∷◌, ◌++◌, Option, arith, length,
  Bool-cases, Option-cases,
}
use performance_handbook.DocPipeline.Stage.{
  Stage, Worker, ready, received, counted, failing, measured, sending, returned, State, see_closed,
  receive, count_item, call_ok, call_error, count_error, record_latency, send,
}
use performance_handbook.DocPipeline.Stage.Invariant.{active}
use performance_handbook.DocPipeline.Stage.Safety.{Reach-Inv}
use performance_handbook.DocPipeline.Stage.Progress.{find_active}
use performance_handbook.DocPipeline.Pipeline.{
  load_stage, Line, Inner, work, close, LineStep, request, last_request, in_loading, in_tokenizing,
  in_embedding, loaded, no_more_loaded, tokenized, no_more_tokenized, embedded, LineReach,
}
use performance_handbook.DocPipeline.Pipeline.Links.{Part, Inner-Kept}
use performance_handbook.DocPipeline.Pipeline.Measure.{
  open_cost, inner_costs, pass_costs, line_cost,
}
use performance_handbook.Base.Totals.{total}
use performance_handbook.DocPipeline.Pipeline.Invariant.{LineInv, LineReach-LineInv}

module _ {ℓ κ} {I : Type ℓ} {O : Type κ} (fn : I → Option O) where
  abbrev CanMove : State I O → Type (ℓ ⊔ κ)
  CanMove s = (t : State I O) × Inner fn s t

  abbrev HasReady : State I O → Type (ℓ ⊔ κ)
  HasReady s = (us : List (Worker I O)) × (vs : List (Worker I O)) × (s.workers ≡ us ++ ready ∷ vs)

  worker_moves :
      (s : State I O) (us vs : List (Worker I O)) (a : Worker I O)
      → s.out ≡ []
      → active a ≡ 1
      → s.workers ≡ us ++ a ∷ vs
      → CanMove s ⊎ HasReady s
  worker_moves s us vs ready empty e at = inr (us, vs, at)
  worker_moves s us vs (received x) empty e at = inl (_, work us vs at count_item)
  worker_moves s us vs (counted x) empty e at = elim (Option-cases (fn x)) [
    | inl fails ↦ inl (_, work us vs at (call_error fails))
    | inr (y, works) ↦ inl (_, work us vs at (call_ok works))
  ]
  worker_moves s us vs (failing x) empty e at = inl (_, work us vs at count_error)
  worker_moves s us vs (measured x y) empty e at = inl (_, work us vs at record_latency)
  worker_moves s us vs (sending x y) empty e at =
      inl (_, work us vs at (send (omega (arith, ap length empty))))
  worker_moves s us vs returned empty e at = absurd (omega (arith, e))

  -- A stage with an empty channel can move by itself, or has a worker that waits for an item.
  stage_moves :
      {stage : Stage} {s : State I O}
      → Part fn stage s
      → s.out ≡ []
      → s.out_closed ≡ false
      → CanMove s ⊎ HasReady s
  stage_moves {stage} {s} part empty still_open = elim (dec_lt 0 s.wait_group) [
    | no none_left ↦ inl (_, close (omega arith) still_open)
    | yes some_left ↦
        let (us, a, vs, at, e) =
          find_active fn 100 s.workers
            (omega (arith, (Reach-Inv fn stage part.reach).closing.waits)) in
        worker_moves s us vs a empty e at
  ]

module _ {ℓ} {A B C : Type 0} {D : Type ℓ} (f : A → Option B) (g : B → Option C)
    (h : C → Option D) where
  abbrev pub Goes : Line A B C D → Type ℓ
  Goes s = (t : Line A B C D) × LineStep f g h s t

  loading-Goes :
      (s : Line A B C D) (input : List A)
      → Part f load_stage s.loading
      → s.loading.in_closed ≡ true
      → s.loading.out ≡ []
      → s.loading.out_closed ≡ false
      → s.loading.input ≡ input
      → Goes s
  loading-Goes s input part last empty still_open e = elim (stage_moves f part empty still_open) [
    | inl (t, i) ↦ (_, in_loading i)
    | inr (us, vs, at) ↦ loading_input us vs at input e
  ]
    where
      loading_input :
          (us vs : List (Worker A B))
          → s.loading.workers ≡ us ++ ready ∷ vs
          → (xs : List A) → s.loading.input ≡ xs
          → Goes s
      loading_input us vs at [] e = (_, in_loading (work us vs at (see_closed last e)))
      loading_input us vs at (x ∷ xs) e = (_, in_loading (work us vs at (receive e)))

  tokenizing-Goes :
      (s : Line A B C D) (before : List B)
      → LineInv f g h s
      → s.loading.in_closed ≡ true
      → s.tokenizing.out ≡ []
      → s.tokenizing.out_closed ≡ false
      → s.loading.out ≡ before
      → Goes s
  tokenizing-Goes s before inv last empty still_open e =
      elim (stage_moves g inv.tokenizing empty still_open) [
        | inl (t, i) ↦ (_, in_tokenizing i)
        | inr (us, vs, at) ↦ from_loading us vs at before e
      ]
    where
      from_loading :
          (us vs : List (Worker B C))
          → s.tokenizing.workers ≡ us ++ ready ∷ vs
          → (ys : List B) → s.loading.out ≡ ys
          → Goes s
      from_loading us vs at (y ∷ ys) e = (_, loaded us vs e at)
      from_loading us vs at [] e = elim (Bool-cases s.loading.out_closed) [
        | inr not_yet ↦ loading-Goes s s.loading.input inv.loading last e not_yet refl
        | inl shut ↦ elim (Bool-cases s.tokenizing.in_closed) [
          | inr unseen ↦ (_, no_more_loaded shut e unseen)
          | inl seen ↦ (_, in_tokenizing (work us vs at (see_closed seen inv.first_link.1)))
        ]
      ]

  embedding-Goes :
      (s : Line A B C D) (before : List C)
      → LineInv f g h s
      → s.loading.in_closed ≡ true
      → s.embedding.out ≡ []
      → s.embedding.out_closed ≡ false
      → s.tokenizing.out ≡ before
      → Goes s
  embedding-Goes s before inv last empty still_open e =
      elim (stage_moves h inv.embedding empty still_open) [
        | inl (t, i) ↦ (_, in_embedding i)
        | inr (us, vs, at) ↦ from_tokenizing us vs at before e
      ]
    where
      from_tokenizing :
          (us vs : List (Worker C D))
          → s.embedding.workers ≡ us ++ ready ∷ vs
          → (ys : List C) → s.tokenizing.out ≡ ys
          → Goes s
      from_tokenizing us vs at (y ∷ ys) e = (_, tokenized us vs e at)
      from_tokenizing us vs at [] e = elim (Bool-cases s.tokenizing.out_closed) [
        | inr not_yet ↦ tokenizing-Goes s s.loading.out inv last e not_yet refl
        | inl shut ↦ elim (Bool-cases s.embedding.in_closed) [
          | inr unseen ↦ (_, no_more_tokenized shut e unseen)
          | inl seen ↦ (_, in_embedding (work us vs at (see_closed seen inv.second_link.1)))
        ]
      ]

  line-Goes :
      (s : Line A B C D) (results : List D)
      → LineInv f g h s
      → s.loading.in_closed ≡ true
      → s.embedding.out ≡ results
      → ((s.embedding.out_closed ≡ true) × (s.embedding.out ≡ [])) ⊎ Goes s
  line-Goes s (y ∷ ys) inv last e = inr (_, embedded e)
  line-Goes s [] inv last e = elim (Bool-cases s.embedding.out_closed) [
    | inl shut ↦ inl (shut, e)
    | inr not_yet ↦ inr (embedding-Goes s s.tokenizing.out inv last e not_yet refl)
  ]

  step_nearer :
      {s t : Line A B C D}
      → LineInv f g h s
      → s.loading.in_closed ≡ true
      → LineStep f g h s t
      → (line_cost t < line_cost s) × (t.loading.in_closed ≡ true)
  step_nearer inv last (request x e) = absurd (ground arith)
  step_nearer inv last (last_request e) = absurd (ground arith)
  step_nearer inv last (in_loading i) =
      (omega (arith, inner_costs 11 f i), (Inner-Kept f i).1 ∙ last)
  step_nearer inv last (in_tokenizing i) = (omega (arith, inner_costs 6 g i), last)
  step_nearer inv last (in_embedding i) = (omega (arith, inner_costs 1 h i), last)
  step_nearer {s} inv last (loaded {y} {ys} us vs e at) =
      (omega (arith, pass_costs 6 s.loading s.tokenizing y ys us vs e inv.first_link.1 at), last)
  step_nearer {s} inv last (tokenized {y} {ys} us vs e at) =
      (omega (arith, pass_costs 1 s.tokenizing s.embedding y ys us vs e inv.second_link.1 at), last)
  step_nearer inv last (no_more_loaded shut empty unseen) =
      (omega (arith, ap open_cost unseen), last)
  step_nearer inv last (no_more_tokenized shut empty unseen) =
      (omega (arith, ap open_cost unseen), last)
  step_nearer inv last (embedded e) = (omega (arith, ap (total (λ z. 1)) e), last)

  -- After the last request, in any state that the line reaches: the last channel is closed and
  -- empty, or some goroutine can make a step; and every step, of whichever goroutine, lessens the
  -- number `line_cost` and keeps the requests ended.
  pub line_ends :
      {s : Line A B C D}
      → LineReach f g h s
      → s.loading.in_closed ≡ true
      → (((s.embedding.out_closed ≡ true) × (s.embedding.out ≡ [])) ⊎ Goes s)
        × ((t : Line A B C D)
            → LineStep f g h s t
            → (line_cost t < line_cost s) × (t.loading.in_closed ≡ true))
  line_ends {s} r last =
      let inv = LineReach-LineInv f g h r in
      (line-Goes s s.embedding.out inv last refl, λ t st. step_nearer inv last st)
