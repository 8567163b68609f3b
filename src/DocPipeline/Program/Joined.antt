-- ===== src/DocPipeline/Program/Joined.antt =====
-- The generator, the line and the index stage of the program, each seen alone, and the channels
-- between them.
use Prim.Native.String.{String}
use performance_handbook.Base.{ℕ, ◌≡◌, refl, sym, ap, subst, ◌∙◌, List, [], ◌∷◌, ◌++◌, Option}
use performance_handbook.Base.Int.{ℤ}
use performance_handbook.DocPipeline.Load.{DataLoadingConfig}
use performance_handbook.DocPipeline.Load.Generator.{LoadGenerator, idle, Steps, here, next}
use performance_handbook.DocPipeline.Stage.{start}
use performance_handbook.DocPipeline.Documents.{Floats, EmbeddedDoc}
use performance_handbook.DocPipeline.Index.{Neighbor, EmbeddingIndex}
use performance_handbook.DocPipeline.Indexing.{Indexing, take_document}
use performance_handbook.DocPipeline.Indexing.Handled.{
  Handles, first-Handles, take_document-Handles, IndexStep-Handles,
}
use performance_handbook.DocPipeline.Pipeline.{
  Line, first_line, LineStep, LineReach, begin as line_begin, later as line_later,
}
use performance_handbook.DocPipeline.Program.{
  Effect, nothing, puts, takes, ends, line_effect, Program, ProgramStep, generates, goes_on, sends,
  receives, closes, passes_on, indexes, ProgramReach, begin, later,
}
use performance_handbook.DocPipeline.Program.Effects.{
  passed, generator_told, line_told, line_passed, keeps_consumed, tail,
}

module _ {ℓ κ μ} {B C : Type 0} {F : Type ℓ} {Rng : Type κ} {G : Type μ}
    (intn : ℤ → Rng → Option (ℕ × Rng)) (format_id : String → ℤ → String)
    (f : DataLoadingConfig → Option B) (g : B → Option C) (h : C → Option (EmbeddedDoc F))
    (floats : Floats F) (new_graph : G) (search : G → List F → List (Neighbor F))
    (add : G → String → List F → G) where
  abbrev The : Type (ℓ ⊔ κ ⊔ μ)
  The = Program intn format_id f g h floats new_graph search add

  pub record Joined (l : LoadGenerator Rng) (idx : EmbeddingIndex F G)
      (p : Program intn format_id f g h floats new_graph search add) : Type (ℓ ⊔ κ ⊔ μ) where
    pub generating : Steps intn format_id (idle l) p.generator
    pub flowing : LineReach f g h p.line
    pub channel : p.generator.out ≡ p.line.loading.input
    pub history : p.generator.sent ≡ p.line.loading.offered
    pub handles : Handles floats new_graph search add idx p.line.embedding.consumed p.indexing

  unchanged-Handles :
      {idx : EmbeddingIndex F G} {s : Indexing F G}
      {u t : Line DataLoadingConfig B C (EmbeddedDoc F)} (x : Effect (EmbeddedDoc F))
      (st : LineStep f g h u t)
      → line_effect intn format_id f g h st ≡ x
      → passed x ≡ []
      → Handles floats new_graph search add idx u.embedding.consumed s
      → Handles floats new_graph search add idx t.embedding.consumed s
  unchanged-Handles {idx} {s} x st e none_passed =
      subst (λ docs. Handles floats new_graph search add idx docs s)
        (keeps_consumed intn format_id f g h x st e none_passed)

  Step-Joined :
      {l : LoadGenerator Rng} {idx : EmbeddingIndex F G} {p q : The}
      → ProgramStep intn format_id f g h floats new_graph search add p q
      → Joined l idx p
      → Joined l idx q
  Step-Joined (generates st e) j =
      let (out, sent) = generator_told intn format_id f g h st e in
      record {
        generating = next j.generating st;
        flowing = j.flowing;
        channel = out ∙ j.channel;
        history = sent ∙ j.history;
        handles = j.handles;
      }
  Step-Joined (goes_on st e) j =
      let (out, sent) = line_told intn format_id f g h st e in
      record {
        generating = j.generating;
        flowing = line_later j.flowing st;
        channel = j.channel ∙ sym out;
        history = j.history ∙ sym sent;
        handles = unchanged-Handles nothing st e refl j.handles;
      }
  Step-Joined (sends x st e su d) j =
      let (out, sent) = generator_told intn format_id f g h st e in
      let (input, offered) = line_told intn format_id f g h su d in
      record {
        generating = next j.generating st;
        flowing = line_later j.flowing su;
        channel = out ∙ (ap (λ xs. xs ++ x ∷ []) j.channel ∙ sym input);
        history = sent ∙ (ap (λ xs. xs ++ x ∷ []) j.history ∙ sym offered);
        handles = unchanged-Handles (puts x) su d refl j.handles;
      }
  Step-Joined (receives x st e su d) j =
      let (out, sent) = generator_told intn format_id f g h st e in
      let (input, offered) = line_told intn format_id f g h su d in
      record {
        generating = next j.generating st;
        flowing = line_later j.flowing su;
        channel = tail intn format_id f g h (sym out ∙ (j.channel ∙ input));
        history = sent ∙ (j.history ∙ sym offered);
        handles = unchanged-Handles (takes x) su d refl j.handles;
      }
  Step-Joined (closes at su d) j =
      let (input, offered) = line_told intn format_id f g h su d in
      record {
        generating = j.generating;
        flowing = line_later j.flowing su;
        channel = j.channel ∙ sym input;
        history = j.history ∙ sym offered;
        handles = unchanged-Handles ends su d refl j.handles;
      }
  Step-Joined {idx = idx} {p = p} (passes_on doc su d idle_worker) j =
      let (input, offered) = line_told intn format_id f g h su d in
      record {
        generating = j.generating;
        flowing = line_later j.flowing su;
        channel = j.channel ∙ sym input;
        history = j.history ∙ sym offered;
        handles =
            subst
              (λ docs. Handles floats new_graph search add idx docs (take_document p.indexing doc))
              (sym (line_passed intn format_id f g h su d))
              (take_document-Handles floats new_graph search add idx p.line.embedding.consumed
                p.indexing doc idle_worker j.handles);
      }
  Step-Joined {idx = idx} {p = p} (indexes st) j = record {
    generating = j.generating;
    flowing = j.flowing;
    channel = j.channel;
    history = j.history;
    handles =
        IndexStep-Handles floats new_graph search add idx p.line.embedding.consumed st j.handles;
  }

  pub Reach-Joined :
      {l : LoadGenerator Rng} {idx : EmbeddingIndex F G} {p : The}
      → ProgramReach intn format_id f g h floats new_graph search add l idx p
      → Joined l idx p
  unfolding first_line start
  Reach-Joined {idx = idx} begin = record {
    generating = here;
    flowing = line_begin;
    channel = refl;
    history = refl;
    handles = first-Handles floats new_graph search add idx;
  }
  Reach-Joined (later r st) = Step-Joined st (Reach-Joined r)
