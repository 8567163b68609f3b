-- ===== src/DocPipeline/Index.antt =====
-- internal/index/index.go: finding near duplicates, and indexing what is none.
pub mod Dedup
pub mod Concurrent
pub mod Tests
use Prim.Native.String.{String}
use performance_handbook.Base.{
  ℕ, ◌+◌, Bool, true, false, List, [], ◌∷◌, Option, none, some, if◌then◌else◌, ◌||◌,
}
use performance_handbook.DocPipeline.Documents.{Floats, EmbeddedDoc}

-- A result of `SearchWithDistance`
pub record Neighbor {ℓ} (F : Type ℓ) : Type ℓ where
  pub key : String
  pub distance : F

pub record DedupResult {ℓ} (F : Type ℓ) : Type ℓ where
  pub id : String
  pub is_duplicate : Bool
  pub nearest_id : String
  pub similarity : F

-- `EmbeddingIndex`, with the counters of its metrics.
pub record EmbeddingIndex {ℓ κ} (F : Type ℓ) (G : Type κ) : Type (ℓ ⊔ κ) where
  pub graph : G
  pub dedup_threshold : F
  pub processed : ℕ
  pub duplicates : ℕ

-- `new_graph`, `search` and `add` are `NewGraph`, `SearchWithDistance` for one neighbor, and `Add`
-- of the package hnsw.
module _ {ℓ κ} {F : Type ℓ} {G : Type κ} (floats : Floats F) (new_graph : G)
    (search : G → List F → List (Neighbor F)) (add : G → String → List F → G) where
  -- `NewEmbeddingIndex`; `none` is the error.
  pub new_embedding_index : F → Option (EmbeddingIndex F G)
  new_embedding_index threshold =
      if floats.at_least floats.nought threshold || floats.above threshold floats.one
      then none
      else some
          (record { graph = new_graph; dedup_threshold = threshold; processed = 0; duplicates = 0 })

  -- `DedupAndIndex`, which has no error, by one goroutine
  unfoldable pub dedup_and_index :
      EmbeddingIndex F G → EmbeddedDoc F → EmbeddingIndex F G × DedupResult F
  dedup_and_index idx doc =
      let counted = record idx { processed = idx.processed + 1 } in
      let indexed = record counted { graph = add idx.graph doc.id doc.embedding } in
      elim (search idx.graph doc.embedding) [
        | [] ↦ (
          indexed,
          record { id = doc.id; is_duplicate = false; nearest_id = ""; similarity = floats.nought },
        )
        | nearest ∷ others ↦
            let similarity = floats.minus floats.one nearest.distance in
            let is_dup = floats.at_least similarity idx.dedup_threshold in
            (
              (if is_dup then record counted { duplicates = idx.duplicates + 1 } else indexed),
              record {
                id = doc.id;
                is_duplicate = is_dup;
                nearest_id = nearest.key;
                similarity = similarity;
              },
            )
      ]
