-- ===== src/DocPipeline/Pipeline.antt =====
-- main.go: the stages in a row. The channel that one `Run` returns is the input of the next stage.
mod Links
pub mod Invariant
pub mod Whole
mod Measure
pub mod Ending
pub mod EndToEnd
pub mod Tests
use Prim.Native.String.{String}
use performance_handbook.Base.{ℕ, ◌≡◌, Bytes, true, false, List, [], ◌∷◌, ◌++◌, Option, none, some}
use performance_handbook.Base.Int.{ℤ, pos, pos_part}
use performance_handbook.DocPipeline.Load.{DataLoadingConfig, Document, LoadGeneratorConfig}
use performance_handbook.DocPipeline.Documents.{TokenizedDoc, EmbeddedDoc, Floats, tokenize, embed}
use performance_handbook.DocPipeline.Stage.{
  Stage, new_stage, Worker, ready, received, State, start, Move, Step, worker, close_out, offer,
  close_in, consume,
}

-- The stages of `main`, without their functions
abbrev pub load_stage : Stage
load_stage = new_stage (pos 1) (pos 100)

abbrev pub tokenize_stage : Stage
tokenize_stage = new_stage (pos 3) (pos 100)

abbrev pub embed_stage : Stage
embed_stage = new_stage (pos 1) (pos 100)

-- The dimension of the embedder of `main`
abbrev pub dimension : ℤ
dimension = pos 1024

-- The functions of the two stages behind the load stage; an error would be none.
abbrev pub tokenize_function :
    (Bytes → Bytes) → (Bytes → List Bytes) → Document → Option TokenizedDoc
tokenize_function to_lower letter_fields doc = some (tokenize to_lower letter_fields doc)

abbrev pub embed_function {ℓ} :
    {F : Type ℓ} → Floats F → (Bytes → ℕ) → TokenizedDoc → Option (EmbeddedDoc F)
embed_function floats hash doc = embed floats hash dimension doc

-- `generatorConfig`
abbrev pub generator_config : LoadGeneratorConfig
generator_config = record {
  min_text_size = pos 1000;
  max_text_size = pos 20000;
  id_prefix = "doc";
  file_path = "data/shakespeare.txt";
  file_size = pos 5436475;
}

-- The stages before the index, with what `main` has started.
pub record Line {ℓ} (A B C : Type 0) (D : Type ℓ) : Type ℓ where
  pub loading : State A B
  pub tokenizing : State B C
  pub embedding : State C D

unfoldable pub first_line {ℓ} : {A B C : Type 0} {D : Type ℓ} → Line A B C D
first_line = record {
  loading = start load_stage;
  tokenizing = start tokenize_stage;
  embedding = start embed_stage;
}

-- A step of a stage that touches none of the other stages' channels: one of its workers that
-- receives nothing from the stage before, or its closing goroutine.
pub data Inner {ℓ κ} {I : Type ℓ} {O : Type κ} (fn : I → Option O) (s : State I O)
    : State I O → Type (ℓ ⊔ κ) where
  work :
      (ws vs : List (Worker I O)) {w w' : Worker I O} {t : State I O}
      → s.workers ≡ ws ++ w ∷ vs
      → Move fn 100 s w t w'
      → Inner fn s (record t { workers = ws ++ w' ∷ vs })
  close : s.wait_group ≡ 0 → s.out_closed ≡ false → Inner fn s (record s { out_closed = true })

-- What a receive takes from the stage before.
abbrev pub gives {ℓ κ} : {I : Type ℓ} {O : Type κ} → State I O → O → List O → State I O
gives s y ys = record s { out = ys; consumed = s.consumed ++ y ∷ [] }

-- What it does to the stage of the worker: the item is never in `input`, which stays empty.
abbrev pub takes {ℓ κ} :
    {I : Type ℓ} {O : Type κ} → State I O → I → List (Worker I O) → List (Worker I O) → State I O
takes s x ws vs = record s {
  input = [];
  offered = s.offered ++ x ∷ [];
  workers = ws ++ received x ∷ vs;
}

module _ {ℓ} {A B C : Type 0} {D : Type ℓ} (f : A → Option B) (g : B → Option C)
    (h : C → Option D) where
  pub data LineStep (s : Line A B C D) : Line A B C D → Type ℓ where
    -- the generator sends a request, or has closed its channel
    request :
        (x : A)
        → s.loading.in_closed ≡ false
        → LineStep s (record s {
          loading = record s.loading {
            input = s.loading.input ++ x ∷ [];
            offered = s.loading.offered ++ x ∷ [];
          };
        })
    last_request :
        s.loading.in_closed ≡ false
        → LineStep s (record s { loading = record s.loading { in_closed = true } })
    in_loading : {t : State A B} → Inner f s.loading t → LineStep s (record s { loading = t })
    in_tokenizing :
        {t : State B C} → Inner g s.tokenizing t → LineStep s (record s { tokenizing = t })
    in_embedding : {t : State C D} → Inner h s.embedding t → LineStep s (record s { embedding = t })
    -- a worker receives from the stage before, or sees that the channel is closed and empty
    loaded :
        {y : B} {ys : List B} (ws vs : List (Worker B C))
        → s.loading.out ≡ y ∷ ys
        → s.tokenizing.workers ≡ ws ++ ready ∷ vs
        → LineStep s
            (record s { loading = gives s.loading y ys; tokenizing = takes s.tokenizing y ws vs })
    no_more_loaded :
        s.loading.out_closed ≡ true
        → s.loading.out ≡ []
        → s.tokenizing.in_closed ≡ false
        → LineStep s (record s { tokenizing = record s.tokenizing { in_closed = true } })
    tokenized :
        {y : C} {ys : List C} (ws vs : List (Worker C D))
        → s.tokenizing.out ≡ y ∷ ys
        → s.embedding.workers ≡ ws ++ ready ∷ vs
        → LineStep s (record s {
          tokenizing = gives s.tokenizing y ys;
          embedding = takes s.embedding y ws vs;
        })
    no_more_tokenized :
        s.tokenizing.out_closed ≡ true
        → s.tokenizing.out ≡ []
        → s.embedding.in_closed ≡ false
        → LineStep s (record s { embedding = record s.embedding { in_closed = true } })
    -- the worker of the index stage receives
    embedded :
        {y : D} {ys : List D}
        → s.embedding.out ≡ y ∷ ys
        → LineStep s (record s { embedding = gives s.embedding y ys })

  pub data LineReach : Line A B C D → Type ℓ where
    begin : LineReach first_line
    later : {s t : Line A B C D} → LineReach s → LineStep s t → LineReach t
