-- ===== src/DocPipeline/Index/Tests.antt =====
-- An index that is the list of the vectors added; any vector that was added is at distance 0.
use Prim.Native.String.{String}
use performance_handbook.Base.{ℕ, ◌+◌, ◌-◌, ◌*◌, ◌/◌, ◌≡◌, List, [], ◌∷◌, leb, ltb, length}
use performance_handbook.DocPipeline.Documents.{Floats, EmbeddedDoc}
use performance_handbook.DocPipeline.Index.{Neighbor, EmbeddingIndex}
use performance_handbook.DocPipeline.Index.Dedup.{index_all, fresh, add_all, indexed_or_duplicate}

abbrev pub whole_numbers : Floats ℕ
whole_numbers = record {
  nought = 0;
  one = 1;
  minus_one = 2;
  plus = λ a b. a + b;
  minus = λ a b. a - b;
  times = λ a b. a * b;
  over = λ a b. a / b;
  root = λ a. a;
  at_least = λ a b. leb b a;
  above = λ a b. ltb b a;
}

abbrev pub nearest : List (List ℕ) → List ℕ → List (Neighbor ℕ)
nearest [] vec = []
nearest (v ∷ vs) vec = record { key = "found"; distance = length v - length vec } ∷ []

abbrev pub with_vector : List (List ℕ) → String → List ℕ → List (List ℕ)
with_vector vs key vec = vec ∷ vs

abbrev pub empty : EmbeddingIndex ℕ (List (List ℕ))
empty = record { graph = []; dedup_threshold = 1; processed = 0; duplicates = 0 }

abbrev pub two_docs : List (EmbeddedDoc ℕ)
two_docs = record { id = "a"; embedding = 5 ∷ [] } ∷ record { id = "b"; embedding = 5 ∷ [] } ∷ []

indexed_or_duplicate_example :
    let (last, results) = index_all whole_numbers [] nearest with_vector empty two_docs in
    (last.graph
      ≡ add_all whole_numbers [] nearest with_vector []
          (fresh whole_numbers [] nearest with_vector two_docs results))
    × (last.processed ≡ 0 + length two_docs)
    × (last.duplicates + length (fresh whole_numbers [] nearest with_vector two_docs results)
        ≡ 0 + length two_docs)
    × (length results ≡ length two_docs)
    × (last.dedup_threshold ≡ 1)
indexed_or_duplicate_example =
    indexed_or_duplicate whole_numbers [] nearest with_vector empty two_docs
