-- ===== src/DocPipeline/Index/Dedup.antt =====
-- Documents one after the other: every one of them is either indexed or counted as a duplicate.
use Prim.Native.String.{String}
use performance_handbook.Base.{
  suc, ◌+◌, ◌≡◌, refl, ap, ◌∙◌, ◌⊎◌, inl, inr, true, false, List, [], ◌∷◌, arith, if◌then◌else◌,
  length,
}
use performance_handbook.DocPipeline.Documents.{Floats, EmbeddedDoc}
use performance_handbook.DocPipeline.Index.{Neighbor, DedupResult, EmbeddingIndex, dedup_and_index}

module _ {ℓ κ} {F : Type ℓ} {G : Type κ} (floats : Floats F) (new_graph : G)
    (search : G → List F → List (Neighbor F)) (add : G → String → List F → G) where
  -- The index behind a sequence of documents, and the results.
  abbrev pub index_all :
      EmbeddingIndex F G → List (EmbeddedDoc F) → EmbeddingIndex F G × List (DedupResult F)
  index_all idx [] = (idx, [])
  index_all idx (doc ∷ docs) =
      let (idx', result) = dedup_and_index floats new_graph search add idx doc in
      let (last, results) = index_all idx' docs in (last, result ∷ results)

  -- The documents whose result says that they are no duplicates.
  abbrev pub fresh : List (EmbeddedDoc F) → List (DedupResult F) → List (EmbeddedDoc F)
  fresh [] results = []
  fresh (doc ∷ docs) [] = []
  fresh (doc ∷ docs) (result ∷ results) =
      if result.is_duplicate then fresh docs results else doc ∷ fresh docs results

  abbrev pub add_all : G → List (EmbeddedDoc F) → G
  add_all g [] = g
  add_all g (doc ∷ docs) = add_all (add g doc.id doc.embedding) docs

  -- What one document does.
  dedup_step :
      (idx : EmbeddingIndex F G) (doc : EmbeddedDoc F)
      → let (idx', result) = dedup_and_index floats new_graph search add idx doc in
        (idx'.processed ≡ idx.processed + 1)
        × (idx'.dedup_threshold ≡ idx.dedup_threshold)
        × (((result.is_duplicate ≡ true)
              × (idx'.graph ≡ idx.graph)
              × (idx'.duplicates ≡ idx.duplicates + 1))
            ⊎ ((result.is_duplicate ≡ false)
                × (idx'.graph ≡ add idx.graph doc.id doc.embedding)
                × (idx'.duplicates ≡ idx.duplicates)))
  unfolding dedup_and_index
  dedup_step idx doc = ground arith

  -- For any sequence of documents: the graph holds, beyond what it held, exactly the documents
  -- whose results say that they are no duplicates, added in order; each document was counted as
  -- processed, and each of the others once as a duplicate; there is a result for each; and the
  -- threshold is kept.
  pub indexed_or_duplicate :
      (idx : EmbeddingIndex F G) (docs : List (EmbeddedDoc F))
      → let (last, results) = index_all idx docs in
        (last.graph ≡ add_all idx.graph (fresh docs results))
        × (last.processed ≡ idx.processed + length docs)
        × (last.duplicates + length (fresh docs results) ≡ idx.duplicates + length docs)
        × (length results ≡ length docs)
        × (last.dedup_threshold ≡ idx.dedup_threshold)
  indexed_or_duplicate idx [] = (refl, omega arith, omega arith, refl, refl)
  indexed_or_duplicate idx (doc ∷ docs) =
      let idx' = (dedup_and_index floats new_graph search add idx doc).0 in
      let rest = fresh docs (index_all idx' docs).1 in
      let (done, kept, outcome) = dedup_step idx doc in
      let (g, p, d, r, t) = indexed_or_duplicate idx' docs in
      elim outcome [
        | inl (dup, same, more) ↦ (
          rw dup (g ∙ ap (λ held. add_all held rest) same),
          omega arith,
          rw dup (omega arith),
          ap (λ k. suc k) r,
          t ∙ kept,
        )
        | inr (new, added, same) ↦ (
          rw new (g ∙ ap (λ held. add_all held rest) added),
          omega arith,
          rw new (omega arith),
          ap (λ k. suc k) r,
          t ∙ kept,
        )
      ]
