-- ===== src/DocPipeline/Program/Accounts.antt =====
-- Every request of the program is on its way or indexed.
use Prim.Native.String.{String}
use performance_handbook.Base.{
  ℕ, ◌+◌, ◌≡◌, refl, sym, ap, ◌∙◌, ◌++◌, subst, length-append, Bytes, List, Option, arith, length,
  All,
}
use performance_handbook.Base.Int.{ℤ}
use performance_handbook.Base.Totals.{total-one}
use performance_handbook.DocPipeline.Load.{DataLoadingConfig, load_data}
use performance_handbook.DocPipeline.Load.Generator.{new_load_generator}
use performance_handbook.DocPipeline.Load.Bounds.{IsIntn}
use performance_handbook.DocPipeline.Load.Whole.{Holds}
use performance_handbook.DocPipeline.Documents.{EmbeddedDoc, Floats}
use performance_handbook.DocPipeline.Index.{Neighbor, EmbeddingIndex}
use performance_handbook.DocPipeline.Index.Dedup.{fresh, add_all, indexed_or_duplicate}
use performance_handbook.DocPipeline.Indexing.Handled.{in_hand, unsent}
use performance_handbook.DocPipeline.Program.Backlog.{each_counts}
use performance_handbook.DocPipeline.Stage.Flow.{through, backlog}
use performance_handbook.DocPipeline.Pipeline.{generator_config, tokenize_function, embed_function}
use performance_handbook.DocPipeline.Pipeline.Whole.{line_conserves, one_each}
use performance_handbook.DocPipeline.Pipeline.EndToEnd.{all_succeed, Requested}
use performance_handbook.DocPipeline.Program.{Program, ProgramReach}
use performance_handbook.DocPipeline.Program.Joined.{Reach-Joined}
use performance_handbook.DocPipeline.Program.Requests.{Steps-Sending}

-- The requests that were sent and whose documents the index has not handled: in the channels, with
-- a worker of one of the stages, or with the worker of the index stage.
abbrev pub on_the_way {ℓ κ μ} :
    {B C : Type 0} {F : Type ℓ} {Rng : Type κ} {G : Type μ} {intn : ℤ → Rng → Option (ℕ × Rng)}
    {format_id : String → ℤ → String} (f : DataLoadingConfig → Option B) (g : B → Option C)
    (h : C → Option (EmbeddedDoc F)) {floats : Floats F} {new_graph : G}
    {search : G → List F → List (Neighbor F)} {add : G → String → List F → G}
    → Program intn format_id f g h floats new_graph search add
    → ℕ
on_the_way f g h p =
    length (in_hand p.indexing.worker)
    + backlog h (λ x. 1) p.line.embedding
    + backlog g (through h (λ x. 1)) p.line.tokenizing
    + backlog f (through g (through h (λ x. 1))) p.line.loading

-- The functions of `main`
module _ {ℓ κ μ ν} {File : Type ℓ} {Rng : Type κ} {F : Type μ} {G : Type ν}
    (open_file : String → Option File) (seek : File → ℤ → Option File)
    (read_all : File → ℤ → Option Bytes) (intn : ℤ → Rng → Option (ℕ × Rng))
    (format_id : String → ℤ → String) (to_lower : Bytes → Bytes)
    (letter_fields : Bytes → List Bytes) (floats : Floats F) (hash : Bytes → ℕ) (new_graph : G)
    (search : G → List F → List (Neighbor F)) (add : G → String → List F → G) where
  abbrev pub MainProgram : Type (μ ⊔ κ ⊔ ν)
  MainProgram =
      Program intn format_id (load_data open_file seek read_all)
        (tokenize_function to_lower letter_fields) (embed_function floats hash) floats new_graph
        search add

  abbrev pub MainReach : ℤ → Rng → EmbeddingIndex F G → MainProgram → Type (μ ⊔ κ ⊔ ν)
  MainReach buffer_size rng idx =
      ProgramReach intn format_id (load_data open_file seek read_all)
        (tokenize_function to_lower letter_fields) (embed_function floats hash) floats new_graph
        search add (new_load_generator generator_config buffer_size rng) idx

  -- The requests are those of the generator, and each can be loaded and embedded.
  requests_counted :
      (content : Bytes) (buffer_size : ℤ) (rng : Rng) (idx : EmbeddingIndex F G) {p : MainProgram}
      → IsIntn intn
      → Holds open_file seek read_all generator_config.file_path content
      → length content ≡ 5436475
      → MainReach buffer_size rng idx p
      → length p.indexing.handled
          + on_the_way
              (load_data open_file seek read_all)
              (tokenize_function to_lower letter_fields)
              (embed_function floats hash)
              p
        ≡ length p.generator.sent
  unfolding new_load_generator
  requests_counted content buffer_size rng idx {p} law there size r =
      let joined = Reach-Joined intn format_id _ _ _ floats new_graph search add r in
      let sending =
        Steps-Sending intn format_id {l = new_load_generator generator_config buffer_size rng} refl
          refl joined.generating in
      let offered = p.line.loading.offered in
      let made =
        subst (All (Requested open_file seek read_all intn format_id)) joined.history
          sending.made in
      let loaded =
        all_succeed open_file seek read_all intn format_id content law there size offered made in
      let one : EmbeddedDoc F → ℕ = λ x. 1 in
      let all_of_them =
        each_counts (load_data open_file seek read_all) _
          (one_each open_file seek read_all to_lower letter_fields floats hash new_graph search add)
          offered loaded in
      let conserved =
        line_conserves (load_data open_file seek read_all)
          (tokenize_function to_lower letter_fields) (embed_function floats hash) joined.flowing
          one in
      omega (
        arith,
        all_of_them,
        ap length joined.history,
        conserved,
        total-one p.line.embedding.consumed,
        ap length joined.handles.all,
        length-append p.indexing.handled (in_hand p.indexing.worker),
      )

  pub every_request_indexed :
      (content : Bytes) (buffer_size : ℤ) (rng : Rng) (idx : EmbeddingIndex F G) {p : MainProgram}
      → IsIntn intn
      → Holds open_file seek read_all generator_config.file_path content
      → length content ≡ 5436475
      → MainReach buffer_size rng idx p
      → let coming =
          on_the_way
            (load_data open_file seek read_all)
            (tokenize_function to_lower letter_fields)
            (embed_function floats hash)
            p in
        let results = (p.indexing.printed ++ p.indexing.out) ++ unsent p.indexing.worker in
        let added = fresh floats new_graph search add p.indexing.handled results in
        (p.indexing.index.processed + coming ≡ idx.processed + length p.generator.sent)
        × (p.indexing.index.duplicates + length added + coming
            ≡ idx.duplicates + length p.generator.sent)
        × (p.indexing.index.graph ≡ add_all floats new_graph search add idx.graph added)
        × (length results + coming ≡ length p.generator.sent)
  every_request_indexed content buffer_size rng idx {p} law there size r =
      let joined = Reach-Joined intn format_id _ _ _ floats new_graph search add r in
      let counted = requests_counted content buffer_size rng idx law there size r in
      let (graph, processed, duplicates, results, kept) =
        indexed_or_duplicate floats new_graph search add idx p.indexing.handled in
      let same = joined.handles.indexed in
      let outcome = joined.handles.results in
      let all_fresh = ap (λ rs. fresh floats new_graph search add p.indexing.handled rs) outcome in
      (
        omega (arith, processed, counted, ap (λ i. i.processed) same),
        omega (arith, duplicates, counted, ap (λ i. i.duplicates) same, ap length all_fresh),
        sym (ap (λ i. i.graph) same)
            ∙ (graph ∙ ap (add_all floats new_graph search add idx.graph) all_fresh),
        omega (arith, results, counted, ap length outcome),
      )
