-- ===== src/DocPipeline/Program/Keeping.antt =====
-- How far the index falls behind the generator.
use Prim.Native.String.{String}
use performance_handbook.Base.{ℕ, ◌+◌, ◌≤◌, ◌≡◌, refl, ap, Bytes, List, Option, arith, length}
use performance_handbook.Base.Int.{ℤ}
use performance_handbook.DocPipeline.Load.{load_data}
use performance_handbook.DocPipeline.Load.Generator.{new_load_generator}
use performance_handbook.DocPipeline.Load.Bounds.{IsIntn}
use performance_handbook.DocPipeline.Load.Whole.{Holds}
use performance_handbook.DocPipeline.Documents.{Floats}
use performance_handbook.DocPipeline.Index.{Neighbor, EmbeddingIndex}
use performance_handbook.DocPipeline.Pipeline.{generator_config, tokenize_function, embed_function}
use performance_handbook.DocPipeline.Program.Backlog.{line_holds}
use performance_handbook.DocPipeline.Program.Accounts.{
  MainProgram, MainReach, every_request_indexed,
}
use performance_handbook.DocPipeline.Indexing.Handled.{in_hand-le}
use performance_handbook.DocPipeline.Program.Joined.{Reach-Joined}
use performance_handbook.DocPipeline.Program.Requests.{Steps-Sending, uncounted-le}

-- The functions of `main`
module _ {ℓ κ μ ν} {File : Type ℓ} {Rng : Type κ} {F : Type μ} {G : Type ν}
    (open_file : String → Option File) (seek : File → ℤ → Option File)
    (read_all : File → ℤ → Option Bytes) (intn : ℤ → Rng → Option (ℕ × Rng))
    (format_id : String → ℤ → String) (to_lower : Bytes → Bytes)
    (letter_fields : Bytes → List Bytes) (floats : Floats F) (hash : Bytes → ℕ) (new_graph : G)
    (search : G → List F → List (Neighbor F)) (add : G → String → List F → G) where
  -- In every state that the program of `main` reaches, however its goroutines and the ticker are
  -- scheduled, if the file that it names holds as many bytes as it says: the index has processed no
  -- more documents, since the start, than the generator has sent requests, and at most 406 fewer;
  -- and the counter of the generator counts the requests sent, but at most the last.
  pub index_keeps_up :
      (content : Bytes) (buffer_size : ℤ) (rng : Rng) (idx : EmbeddingIndex F G)
      → {p : MainProgram open_file seek read_all intn format_id to_lower letter_fields floats hash
          new_graph search add}
      → IsIntn intn
      → Holds open_file seek read_all generator_config.file_path content
      → length content ≡ 5436475
      → MainReach open_file seek read_all intn format_id to_lower letter_fields floats hash
          new_graph search add buffer_size rng idx p
      → let sent = length p.generator.sent in
        (p.indexing.index.processed ≤ idx.processed + sent)
        × (idx.processed + sent ≤ p.indexing.index.processed + 406)
        × (p.generator.generator.counter ≤ sent)
        × (sent ≤ p.generator.generator.counter + 1)
  unfolding new_load_generator
  index_keeps_up content buffer_size rng idx {p} law there size r =
      let joined = Reach-Joined intn format_id _ _ _ floats new_graph search add r in
      let sending =
        Steps-Sending intn format_id {l = new_load_generator generator_config buffer_size rng} refl
          refl joined.generating in
      let on_way =
        line_holds (load_data open_file seek read_all) (tokenize_function to_lower letter_fields)
          (embed_function floats hash) joined.flowing in
      let (processed, duplicates, graph, results) =
        every_request_indexed open_file seek read_all intn format_id to_lower letter_fields floats
          hash new_graph search add content buffer_size rng idx law there size r in
      let last = uncounted-le p.generator.phase in
      (
        omega (arith, processed),
        omega (
          arith,
          processed,
          on_way,
          in_hand-le p.indexing.worker,
          sending.short,
          ap length joined.channel,
        ),
        omega (arith, sending.sum),
        omega (arith, sending.sum, last),
      )
