-- ===== src/DocPipeline/Index/Concurrent/Alone.antt =====
-- A call that no other disturbs.
use Prim.Native.String.{String}
use performance_handbook.Base.{◌+◌, ◌≡◌, refl, ap, ◌⊎◌, inl, inr, true, false, List, [], ◌∷◌, arith}
use performance_handbook.DocPipeline.Documents.{Floats, EmbeddedDoc}
use performance_handbook.DocPipeline.Index.{Neighbor, EmbeddingIndex, dedup_and_index}
use performance_handbook.DocPipeline.Index.Concurrent.{
  done, Calls, judge, count, r_lock, search_graph, r_unlock_new, r_unlock_duplicate, lock, add_node,
  unlock, mark, call, Reach, begin, later,
}

module _ {ℓ κ} {F : Type ℓ} {G : Type κ} (floats : Floats F) (new_graph : G)
    (search : G → List F → List (Neighbor F)) (add : G → String → List F → G) where
  judged :
      (idx : EmbeddingIndex F G) (doc : EmbeddedDoc F)
      → let (after, result) = dedup_and_index floats new_graph search add idx doc in
        let verdict =
          judge floats search add idx.dedup_threshold doc (search idx.graph doc.embedding) in
        (verdict ≡ result)
        × (((verdict.is_duplicate ≡ false)
              × (record idx {
                processed = idx.processed + 1;
                graph = add idx.graph doc.id doc.embedding;
              }
                  ≡ after))
            ⊎ ((verdict.is_duplicate ≡ true)
                × (record idx { processed = idx.processed + 1; duplicates = idx.duplicates + 1 }
                    ≡ after)))
  unfolding dedup_and_index judge
  judged idx doc = ground arith

  -- A single call of `DedupAndIndex`, made of the steps of the concurrent model, comes to its end,
  -- with the index and the result of the sequential one.
  pub alone_agrees :
      (idx : EmbeddingIndex F G) (doc : EmbeddedDoc F)
      → let (after, result) = dedup_and_index floats new_graph search add idx doc in
        (s : Calls F G) × Reach floats search add idx (doc ∷ []) s
        × (s.index ≡ after)
        × (s.calls ≡ done result ∷ [])
  alone_agrees idx doc =
      let (same, outcome) = judged idx doc in
      let found =
        later (later (later begin (call [] [] refl count)) (call [] [] refl (r_lock refl)))
          (call [] [] refl search_graph) in
      elim outcome [
        | inl (new, after) ↦ (
          _,
          later
              (later
                (later (later found (call [] [] refl (r_unlock_new new)))
                  (call [] [] refl (lock refl refl)))
                (call [] [] refl add_node))
              (call [] [] refl unlock),
          after,
          ap (λ r. done r ∷ []) same,
        )
        | inr (dup, after) ↦ (
          _,
          later (later found (call [] [] refl (r_unlock_duplicate dup))) (call [] [] refl mark),
          after,
          ap (λ r. done r ∷ []) same,
        )
      ]
