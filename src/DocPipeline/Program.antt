-- ===== src/DocPipeline/Program.antt =====
-- main.go: the generator and the stages as one program. The channel that the generator fills is the
-- one from which the load stage receives, and the one that the embed stage fills is the one from
-- which the index stage receives, so that what one does to it the other sees.
mod Effects
mod Joined
mod Requests
mod Backlog
pub mod Accounts
pub mod Keeping
mod Tests
use Prim.Native.String.{String}
use performance_handbook.Base.{ℕ, ◌≡◌, List, [], ◌∷◌, ◌++◌, Option}
use performance_handbook.Base.Int.{ℤ}
use performance_handbook.DocPipeline.Load.{DataLoadingConfig}
use performance_handbook.DocPipeline.Load.Generator.{
  LoadGenerator, Phase, returned, Loading, idle, Step, stop, tick, push, count, cancel, receive,
}
use performance_handbook.DocPipeline.Stage.{
  Worker, State, Move, see_cancelled, see_closed, receive as worker_receives, count_item, call_ok,
  call_error, count_error, record_latency, send, give_up,
}
use performance_handbook.DocPipeline.Documents.{Floats, EmbeddedDoc}
use performance_handbook.DocPipeline.Index.{Neighbor, EmbeddingIndex}
use performance_handbook.DocPipeline.Indexing.{
  awaiting, Indexing, first_indexing, take_document, IndexStep,
}
use performance_handbook.DocPipeline.Pipeline.{
  Inner, work, close, Line, first_line, LineStep, request, last_request, in_loading, in_tokenizing,
  in_embedding, loaded, no_more_loaded, tokenized, no_more_tokenized, embedded,
}

-- What a step does to the channel between the generator and the load stage, or to that between the
-- embed stage and the index stage
pub data Effect {ℓ} (D : Type ℓ) : Type ℓ where
  nothing : Effect D
  puts : DataLoadingConfig → Effect D
  takes : DataLoadingConfig → Effect D
  ends : Effect D
  passes : D → Effect D

module _ {ℓ κ} {B C : Type 0} {D : Type ℓ} {Rng : Type κ} (intn : ℤ → Rng → Option (ℕ × Rng))
    (format_id : String → ℤ → String) (f : DataLoadingConfig → Option B) (g : B → Option C)
    (h : C → Option D) where
  unfoldable pub generator_effect : {s t : Loading Rng} → Step intn format_id s t → Effect D
  generator_effect (stop e cancelled) = nothing
  generator_effect (tick e made) = nothing
  generator_effect (push {request} e room) = puts request
  generator_effect (count e) = nothing
  generator_effect cancel = nothing
  generator_effect (receive {request} e) = takes request

  unfoldable pub move_effect :
      {s t : State DataLoadingConfig B} {w w' : Worker DataLoadingConfig B}
      → Move f 100 s w t w'
      → Effect D
  move_effect (see_cancelled e) = nothing
  move_effect (see_closed e empty) = nothing
  move_effect (worker_receives {x} e) = takes x
  move_effect count_item = nothing
  move_effect (call_ok e) = nothing
  move_effect (call_error e) = nothing
  move_effect count_error = nothing
  move_effect record_latency = nothing
  move_effect (send room) = nothing
  move_effect (give_up e) = nothing

  unfoldable pub line_effect : {s t : Line DataLoadingConfig B C D} → LineStep f g h s t → Effect D
  unfolding move_effect
  line_effect (request x e) = puts x
  line_effect (last_request e) = ends
  line_effect (in_loading (work ws vs e m)) = move_effect m
  line_effect (in_loading (close e o)) = nothing
  line_effect (in_tokenizing i) = nothing
  line_effect (in_embedding i) = nothing
  line_effect (loaded ws vs e w) = nothing
  line_effect (no_more_loaded o empty e) = nothing
  line_effect (tokenized ws vs e w) = nothing
  line_effect (no_more_tokenized o empty e) = nothing
  line_effect (embedded {y} e) = passes y

-- The results of the embed stage are what the index stage takes.
module _ {ℓ κ μ} {B C : Type 0} {F : Type ℓ} {Rng : Type κ} {G : Type μ}
    (intn : ℤ → Rng → Option (ℕ × Rng)) (format_id : String → ℤ → String)
    (f : DataLoadingConfig → Option B) (g : B → Option C) (h : C → Option (EmbeddedDoc F))
    (floats : Floats F) (new_graph : G) (search : G → List F → List (Neighbor F))
    (add : G → String → List F → G) where
  pub record Program : Type (ℓ ⊔ κ ⊔ μ) where
    pub generator : Loading Rng
    pub line : Line DataLoadingConfig B C (EmbeddedDoc F)
    pub indexing : Indexing F G

  -- A step of one that touches neither channel; a send, or a receive, which both see; or the
  -- deferred `close` of the generator.
  pub data ProgramStep (p : Program) : Program → Type (ℓ ⊔ κ ⊔ μ) where
    generates :
        {t : Loading Rng} (st : Step intn format_id p.generator t)
        → generator_effect intn format_id f g h st ≡ nothing
        → ProgramStep p (record p { generator = t })
    goes_on :
        {t : Line DataLoadingConfig B C (EmbeddedDoc F)} (st : LineStep f g h p.line t)
        → line_effect intn format_id f g h st ≡ nothing
        → ProgramStep p (record p { line = t })
    sends :
        {t : Loading Rng} {u : Line DataLoadingConfig B C (EmbeddedDoc F)} (x : DataLoadingConfig)
        → (st : Step intn format_id p.generator t)
        → generator_effect intn format_id f g h st ≡ puts x
        → (su : LineStep f g h p.line u) → line_effect intn format_id f g h su ≡ puts x
        → ProgramStep p (record p { generator = t; line = u })
    receives :
        {t : Loading Rng} {u : Line DataLoadingConfig B C (EmbeddedDoc F)} (x : DataLoadingConfig)
        → (st : Step intn format_id p.generator t)
        → generator_effect intn format_id f g h st ≡ takes x
        → (su : LineStep f g h p.line u) → line_effect intn format_id f g h su ≡ takes x
        → ProgramStep p (record p { generator = t; line = u })
    closes :
        {u : Line DataLoadingConfig B C (EmbeddedDoc F)}
        → p.generator.phase ≡ returned
        → (su : LineStep f g h p.line u) → line_effect intn format_id f g h su ≡ ends
        → ProgramStep p (record p { line = u })
    -- the worker of the index stage receives
    passes_on :
        {u : Line DataLoadingConfig B C (EmbeddedDoc F)} (doc : EmbeddedDoc F)
        → (su : LineStep f g h p.line u) → line_effect intn format_id f g h su ≡ passes doc
        → p.indexing.worker ≡ awaiting
        → ProgramStep p (record p { line = u; indexing = take_document p.indexing doc })
    indexes :
        {t : Indexing F G}
        → IndexStep floats new_graph search add p.indexing t
        → ProgramStep p (record p { indexing = t })

  pub data ProgramReach (l : LoadGenerator Rng) (idx : EmbeddingIndex F G)
      : Program → Type (ℓ ⊔ κ ⊔ μ) where
    begin :
        ProgramReach l idx
          (record { generator = idle l; line = first_line; indexing = first_indexing idx })
    later : {p q : Program} → ProgramReach l idx p → ProgramStep p q → ProgramReach l idx q
