-- ===== src/DocPipeline/Index/Concurrent.antt =====
-- internal/index/index.go: calls of `DedupAndIndex` by several goroutines, as a transition system. A
-- step is a call of the mutex or of a metric, or an access to the graph.
pub mod Accounting
pub mod Alone
pub mod Race
mod Tests
use Prim.Native.String.{String}
use performance_handbook.Base.{ℕ, zero, suc, ◌+◌, ◌-◌, ◌≡◌, Bool, true, false, List, [], ◌∷◌, ◌++◌}
use performance_handbook.DocPipeline.Documents.{Floats, EmbeddedDoc}
use performance_handbook.DocPipeline.Index.{Neighbor, DedupResult, EmbeddingIndex}

-- Where a call stands: before the metric of processed documents; before `RLock`; before the search;
-- before `RUnlock`; before `Lock`, before `Add` and before `Unlock`, with its result; before the metric
-- of duplicates; or returned.
pub data Call {ℓ} (F : Type ℓ) : Type ℓ where
  entering : EmbeddedDoc F → Call F
  counted : EmbeddedDoc F → Call F
  reading : EmbeddedDoc F → Call F
  searched : EmbeddedDoc F → List (Neighbor F) → Call F
  adding : EmbeddedDoc F → DedupResult F → Call F
  writing : EmbeddedDoc F → DedupResult F → Call F
  written : DedupResult F → Call F
  marking : EmbeddedDoc F → DedupResult F → Call F
  done : DedupResult F → Call F

-- `readers` and `writer` say who holds `mu`. `added` and `marked` are the documents that were added
-- to the graph, and those that were counted as duplicates, in order.
pub record Calls {ℓ κ} (F : Type ℓ) (G : Type κ) : Type (ℓ ⊔ κ) where
  pub index : EmbeddingIndex F G
  pub readers : ℕ
  pub writer : Bool
  pub calls : List (Call F)
  pub added : List (EmbeddedDoc F)
  pub marked : List (EmbeddedDoc F)

abbrev pub enter {ℓ} : {F : Type ℓ} → List (EmbeddedDoc F) → List (Call F)
enter [] = []
enter (doc ∷ docs) = entering doc ∷ enter docs

-- One goroutine for each document
abbrev pub first_calls {ℓ κ} :
    {F : Type ℓ} {G : Type κ} → EmbeddingIndex F G → List (EmbeddedDoc F) → Calls F G
first_calls idx docs = record {
  index = idx;
  readers = 0;
  writer = false;
  calls = enter docs;
  added = [];
  marked = [];
}

module _ {ℓ κ} {F : Type ℓ} {G : Type κ} (floats : Floats F)
    (search : G → List F → List (Neighbor F)) (add : G → String → List F → G) where
  -- The result, from what the search has found
  pub judge : F → EmbeddedDoc F → List (Neighbor F) → DedupResult F
  judge threshold doc [] = record {
    id = doc.id;
    is_duplicate = false;
    nearest_id = "";
    similarity = floats.nought;
  }
  judge threshold doc (nearest ∷ others) =
      let similarity = floats.minus floats.one nearest.distance in
      record {
        id = doc.id;
        is_duplicate = floats.at_least similarity threshold;
        nearest_id = nearest.key;
        similarity = similarity;
      }

  pub data Move (s : Calls F G) : Call F → Calls F G → Call F → Type (ℓ ⊔ κ) where
    count :
        {doc : EmbeddedDoc F}
        → Move s
            (entering doc)
            (record s { index = record s.index { processed = s.index.processed + 1 } })
            (counted doc)
    r_lock :
        {doc : EmbeddedDoc F}
        → s.writer ≡ false
        → Move s (counted doc) (record s { readers = s.readers + 1 }) (reading doc)
    search_graph :
        {doc : EmbeddedDoc F}
        → Move s (reading doc) s (searched doc (search s.index.graph doc.embedding))
    -- `RUnlock`, and the test of the result
    r_unlock_new :
        {doc : EmbeddedDoc F} {found : List (Neighbor F)}
        → (judge s.index.dedup_threshold doc found).is_duplicate ≡ false
        → Move s
            (searched doc found)
            (record s { readers = s.readers - 1 })
            (adding doc (judge s.index.dedup_threshold doc found))
    r_unlock_duplicate :
        {doc : EmbeddedDoc F} {found : List (Neighbor F)}
        → (judge s.index.dedup_threshold doc found).is_duplicate ≡ true
        → Move s
            (searched doc found)
            (record s { readers = s.readers - 1 })
            (marking doc (judge s.index.dedup_threshold doc found))
    lock :
        {doc : EmbeddedDoc F} {result : DedupResult F}
        → s.writer ≡ false
        → s.readers ≡ 0
        → Move s (adding doc result) (record s { writer = true }) (writing doc result)
    add_node :
        {doc : EmbeddedDoc F} {result : DedupResult F}
        → Move s
            (writing doc result)
            (record s {
              index = record s.index { graph = add s.index.graph doc.id doc.embedding };
              added = s.added ++ doc ∷ [];
            })
            (written result)
    unlock :
        {result : DedupResult F}
        → Move s (written result) (record s { writer = false }) (done result)
    mark :
        {doc : EmbeddedDoc F} {result : DedupResult F}
        → Move s
            (marking doc result)
            (record s {
              index = record s.index { duplicates = s.index.duplicates + 1 };
              marked = s.marked ++ doc ∷ [];
            })
            (done result)

  pub data Step (s : Calls F G) : Calls F G → Type (ℓ ⊔ κ) where
    call :
        (us vs : List (Call F)) {a b : Call F} {t : Calls F G}
        → s.calls ≡ us ++ a ∷ vs
        → Move s a t b
        → Step s (record t { calls = us ++ b ∷ vs })

  pub data Reach (idx : EmbeddingIndex F G) (docs : List (EmbeddedDoc F))
      : Calls F G → Type (ℓ ⊔ κ) where
    begin : Reach idx docs (first_calls idx docs)
    later : {s t : Calls F G} → Reach idx docs s → Step s t → Reach idx docs t
