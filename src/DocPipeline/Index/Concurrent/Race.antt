-- ===== src/DocPipeline/Index/Concurrent/Race.antt =====
-- Between the search and the addition the mutex is free.
use Prim.Native.String.{String}
use performance_handbook.Base.{◌≡◌, refl, false, List, [], ◌∷◌}
use performance_handbook.DocPipeline.Documents.{Floats, EmbeddedDoc}
use performance_handbook.DocPipeline.Index.{Neighbor, EmbeddingIndex}
use performance_handbook.DocPipeline.Index.Concurrent.{
  entering, searched, adding, done, Calls, judge, count, r_lock, search_graph, r_unlock_new, lock,
  add_node, unlock, call, Reach, begin, later,
}

module _ {ℓ κ} {F : Type ℓ} {G : Type κ} (floats : Floats F)
    (search : G → List F → List (Neighbor F)) (add : G → String → List F → G) where
  -- For a document that is no duplicate of what the index holds: two calls with it reach a state in
  -- which it has been added twice and no duplicate was counted, whatever a search for it would find
  -- after the first addition.
  pub twice_added :
      (idx : EmbeddingIndex F G) (doc : EmbeddedDoc F)
      → (judge floats search add idx.dedup_threshold doc
          (search idx.graph doc.embedding)).is_duplicate
        ≡ false
      → (s : Calls F G) × Reach floats search add idx (doc ∷ doc ∷ []) s
        × (s.added ≡ doc ∷ doc ∷ [])
        × (s.marked ≡ [])
  twice_added idx doc new =
      let found = search idx.graph doc.embedding in
      let result = judge floats search add idx.dedup_threshold doc found in
      let first =
        later
          (later (later begin (call [] (entering doc ∷ []) refl count))
            (call [] (entering doc ∷ []) refl (r_lock refl)))
          (call [] (entering doc ∷ []) refl search_graph) in
      let second =
        later
          (later (later first (call (searched doc found ∷ []) [] refl count))
            (call (searched doc found ∷ []) [] refl (r_lock refl)))
          (call (searched doc found ∷ []) [] refl search_graph) in
      let judged =
        later (later second (call [] (searched doc found ∷ []) refl (r_unlock_new new)))
          (call (adding doc result ∷ []) [] refl (r_unlock_new new)) in
      let one =
        later
          (later (later judged (call [] (adding doc result ∷ []) refl (lock refl refl)))
            (call [] (adding doc result ∷ []) refl add_node))
          (call [] (adding doc result ∷ []) refl unlock) in
      let two =
        later
          (later (later one (call (done result ∷ []) [] refl (lock refl refl)))
            (call (done result ∷ []) [] refl add_node))
          (call (done result ∷ []) [] refl unlock) in
      (_, two, refl, refl)
