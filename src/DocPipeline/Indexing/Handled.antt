-- ===== src/DocPipeline/Indexing/Handled.antt =====
-- The index is that of the documents handled, and their results are printed or on their way.
use Prim.Native.String.{String}
use performance_handbook.Base.{
  ◌≤◌, ◌≡◌, refl, sym, ap, ◌∙◌, List, [], ◌∷◌, ◌++◌, append_assoc, append-nil, length, arith,
}
use performance_handbook.DocPipeline.Documents.{Floats, EmbeddedDoc}
use performance_handbook.DocPipeline.Index.{Neighbor, DedupResult, EmbeddingIndex, dedup_and_index}
use performance_handbook.DocPipeline.Index.Dedup.{index_all}
use performance_handbook.DocPipeline.Indexing.{
  Indexer, awaiting, holding, handing_on, Indexing, first_indexing, take_document, IndexStep,
  index_document, send_result, print_result,
}

-- The document that the worker has received and not handled, and the result that it has not sent
abbrev pub in_hand {ℓ} : {F : Type ℓ} → Indexer F → List (EmbeddedDoc F)
in_hand awaiting = []
in_hand (holding doc) = doc ∷ []
in_hand (handing_on result) = []

pub in_hand-le {ℓ} : {F : Type ℓ} (w : Indexer F) → length (in_hand w) ≤ 1
in_hand-le awaiting = omega arith
in_hand-le (holding doc) = omega arith
in_hand-le (handing_on result) = omega arith

abbrev pub unsent {ℓ} : {F : Type ℓ} → Indexer F → List (DedupResult F)
unsent awaiting = []
unsent (holding doc) = []
unsent (handing_on result) = result ∷ []

module _ {ℓ κ} {F : Type ℓ} {G : Type κ} (floats : Floats F) (new_graph : G)
    (search : G → List F → List (Neighbor F)) (add : G → String → List F → G) where
  index_all-snoc :
      (idx : EmbeddingIndex F G) (docs : List (EmbeddedDoc F)) (doc : EmbeddedDoc F)
      → let (before, results) = index_all floats new_graph search add idx docs in
        let (after, result) = dedup_and_index floats new_graph search add before doc in
        index_all floats new_graph search add idx (docs ++ doc ∷ [])
        ≡ (after, results ++ result ∷ [])
  index_all-snoc idx [] doc = refl
  index_all-snoc idx (d ∷ docs) doc =
      let (idx', result) = dedup_and_index floats new_graph search add idx d in
      ap (λ r. (r.0, result ∷ r.1)) (index_all-snoc idx' docs doc)

  -- `received` are the documents that the worker has received.
  pub record Handles (idx : EmbeddingIndex F G) (received : List (EmbeddedDoc F)) (s : Indexing F G)
      : Type (ℓ ⊔ κ) where
    pub all : s.handled ++ in_hand s.worker ≡ received
    pub indexed : (index_all floats new_graph search add idx s.handled).0 ≡ s.index
    pub results :
        (index_all floats new_graph search add idx s.handled).1
        ≡ (s.printed ++ s.out) ++ unsent s.worker

  pub first-Handles : (idx : EmbeddingIndex F G) → Handles idx [] (first_indexing idx)
  first-Handles idx = record { all = refl; indexed = refl; results = refl }

  pub take_document-Handles :
      (idx : EmbeddingIndex F G) (received : List (EmbeddedDoc F)) (s : Indexing F G)
      (doc : EmbeddedDoc F)
      → s.worker ≡ awaiting
      → Handles idx received s
      → Handles idx (received ++ doc ∷ []) (take_document s doc)
  take_document-Handles idx received s doc e v = record {
    all =
        ap (λ docs. docs ++ doc ∷ [])
          (sym (append-nil s.handled) ∙ (ap (λ w. s.handled ++ in_hand w) (sym e) ∙ v.all));
    indexed = v.indexed;
    results = v.results ∙ ap (λ w. (s.printed ++ s.out) ++ unsent w) e;
  }

  pub IndexStep-Handles :
      (idx : EmbeddingIndex F G) (received : List (EmbeddedDoc F)) {s t : Indexing F G}
      → IndexStep floats new_graph search add s t
      → Handles idx received s
      → Handles idx received t
  IndexStep-Handles idx received {s} (index_document {doc} e) v =
      let snoc = index_all-snoc idx s.handled doc in
      let old : (index_all floats new_graph search add idx s.handled).1 ≡ s.printed ++ s.out =
        v.results
        ∙ (ap (λ w. (s.printed ++ s.out) ++ unsent w) e ∙ append-nil (s.printed ++ s.out)) in
      let step = λ (i : EmbeddingIndex F G). dedup_and_index floats new_graph search add i doc in
      record {
        all =
            append-nil (s.handled ++ doc ∷ []) ∙ (ap (λ w. s.handled ++ in_hand w) (sym e) ∙ v.all);
        indexed = ap (λ r. r.0) snoc ∙ ap (λ i. (step i).0) v.indexed;
        results =
            ap (λ r. r.1) snoc
            ∙ (ap (λ i. (index_all floats new_graph search add idx s.handled).1 ++ (step i).1 ∷ [])
                  v.indexed
                ∙ ap (λ rs. rs ++ (step s.index).1 ∷ []) old);
      }
  IndexStep-Handles idx received {s} (send_result {result} e room) v = record {
    all = ap (λ w. s.handled ++ in_hand w) (sym e) ∙ v.all;
    indexed = v.indexed;
    results =
        v.results
        ∙ (ap (λ w. (s.printed ++ s.out) ++ unsent w) e
            ∙ (append_assoc s.printed s.out (result ∷ [])
                ∙ sym (append-nil (s.printed ++ (s.out ++ result ∷ [])))));
  }
  IndexStep-Handles idx received {s} (print_result {result} {rest} e) v = record {
    all = v.all;
    indexed = v.indexed;
    results =
        v.results
        ∙ ap (λ rs. rs ++ unsent s.worker)
            (ap (λ o. s.printed ++ o) e ∙ sym (append_assoc s.printed (result ∷ []) rest));
  }
