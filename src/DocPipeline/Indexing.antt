-- ===== src/DocPipeline/Indexing.antt =====
-- main.go: the index stage, with its one worker, and the loop that prints what comes out of it.
pub mod Handled
use Prim.Native.String.{String}
use performance_handbook.Base.{ℕ, ◌<◌, ◌≡◌, List, [], ◌∷◌, ◌++◌, length}
use performance_handbook.DocPipeline.Documents.{Floats, EmbeddedDoc}
use performance_handbook.DocPipeline.Index.{Neighbor, DedupResult, EmbeddingIndex, dedup_and_index}

-- Where the worker stands: at its receive; before `DedupAndIndex`; at the send of the result.
pub data Indexer {ℓ} (F : Type ℓ) : Type ℓ where
  awaiting : Indexer F
  holding : EmbeddedDoc F → Indexer F
  handing_on : DedupResult F → Indexer F

-- The channel `out` of the stage, what `main` has printed, and the documents for which
-- `DedupAndIndex` has returned, in order
pub record Indexing {ℓ κ} (F : Type ℓ) (G : Type κ) : Type (ℓ ⊔ κ) where
  pub index : EmbeddingIndex F G
  pub worker : Indexer F
  pub out : List (DedupResult F)
  pub printed : List (DedupResult F)
  pub handled : List (EmbeddedDoc F)

abbrev pub first_indexing {ℓ κ} : {F : Type ℓ} {G : Type κ} → EmbeddingIndex F G → Indexing F G
first_indexing idx = record { index = idx; worker = awaiting; out = []; printed = []; handled = [] }

-- The receive of a document
abbrev pub take_document {ℓ κ} :
    {F : Type ℓ} {G : Type κ} → Indexing F G → EmbeddedDoc F → Indexing F G
take_document s doc = record s { worker = holding doc }

-- The other steps. `DedupAndIndex` is one step, since no other goroutine uses the index.
pub data IndexStep {ℓ κ} {F : Type ℓ} {G : Type κ} (floats : Floats F) (new_graph : G)
    (search : G → List F → List (Neighbor F)) (add : G → String → List F → G) (s : Indexing F G)
    : Indexing F G → Type (ℓ ⊔ κ) where
  index_document :
      {doc : EmbeddedDoc F}
      → s.worker ≡ holding doc
      → IndexStep floats new_graph search add s (record s {
        index = (dedup_and_index floats new_graph search add s.index doc).0;
        worker = handing_on (dedup_and_index floats new_graph search add s.index doc).1;
        handled = s.handled ++ doc ∷ [];
      })
  send_result :
      {result : DedupResult F}
      → s.worker ≡ handing_on result
      → length s.out < 100
      → IndexStep floats new_graph search add s
          (record s { worker = awaiting; out = s.out ++ result ∷ [] })
  print_result :
      {result : DedupResult F} {rest : List (DedupResult F)}
      → s.out ≡ result ∷ rest
      → IndexStep floats new_graph search add s
          (record s { out = rest; printed = s.printed ++ result ∷ [] })
