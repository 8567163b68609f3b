-- ===== src/DocPipeline/Index/Concurrent/Tests.antt =====
-- Two calls: one has added its document, the other searches.
use performance_handbook.Base.{ℕ, ◌+◌, ◌≡◌, ◌⊎◌, refl, List, [], ◌∷◌, length}
use performance_handbook.Base.Totals.{total}
use performance_handbook.DocPipeline.Documents.{EmbeddedDoc}
use performance_handbook.DocPipeline.Index.Dedup.{add_all}
use performance_handbook.DocPipeline.Index.Tests.{
  whole_numbers, nearest, with_vector, empty, two_docs,
}
use performance_handbook.DocPipeline.Index.Concurrent.{
  entering, done, Calls, judge, count, r_lock, search_graph, r_unlock_new, lock, add_node, unlock,
  call, Reach, begin, later,
}
use performance_handbook.DocPipeline.Index.Concurrent.Accounting.{
  pending, uncounted, reads, writes, calls_accounted,
}

abbrev second_doc : EmbeddedDoc ℕ
second_doc = record { id = "b"; embedding = 5 ∷ [] }

record Run : Type 0 where
  last : Calls ℕ (List (List ℕ))
  reach : Reach whole_numbers nearest with_vector empty two_docs last

one_added : Run
unfolding judge
one_added = record {
  last = _;
  reach =
      later
        (later
          (later
            (later
              (later
                (later
                  (later (later begin (call [] (entering second_doc ∷ []) refl count))
                    (call [] (entering second_doc ∷ []) refl (r_lock refl)))
                  (call [] (entering second_doc ∷ []) refl search_graph))
                (call [] (entering second_doc ∷ []) refl (r_unlock_new refl)))
              (call [] (entering second_doc ∷ []) refl (lock refl refl)))
            (call [] (entering second_doc ∷ []) refl add_node))
          (call [] (entering second_doc ∷ []) refl unlock))
        (call (done _ ∷ []) [] refl count);
}

calls_accounted_example :
    (one_added.last.index.graph
      ≡ add_all whole_numbers [] nearest with_vector [] one_added.last.added)
    × ((w : EmbeddedDoc ℕ → ℕ)
        → total w two_docs
          ≡ total (pending w) one_added.last.calls
            + total w one_added.last.added
            + total w one_added.last.marked)
    × (one_added.last.index.processed + total uncounted one_added.last.calls ≡ 0 + length two_docs)
    × (one_added.last.index.duplicates ≡ 0 + length one_added.last.marked)
    × ((total writes one_added.last.calls ≡ 0)
        ⊎ ((total writes one_added.last.calls ≡ 1) × (total reads one_added.last.calls ≡ 0)))
calls_accounted_example =
    calls_accounted whole_numbers [] nearest with_vector {idx = empty} {docs = two_docs}
      one_added.reach
