-- ===== src/DocPipeline/Index/Concurrent/Accounting.antt =====
-- Where the documents of concurrent calls go, and who holds the mutex.
use Prim.Native.String.{String}
use performance_handbook.Base.{
  ℕ, ◌+◌, ◌≤◌, ◌≡◌, ◌⊎◌, inl, inr, refl, sym, ap, ◌∙◌, Bool, true, false, Bool-cases, List, [], ◌∷◌,
  ◌++◌, arith, length, length-append,
}
use performance_handbook.Base.Totals.{total, total-append, total-swap}
use performance_handbook.DocPipeline.Documents.{Floats, EmbeddedDoc}
use performance_handbook.DocPipeline.Index.{Neighbor, EmbeddingIndex}
use performance_handbook.DocPipeline.Index.Dedup.{add_all}
use performance_handbook.DocPipeline.Index.Concurrent.{
  Call, entering, counted, reading, searched, adding, writing, written, marking, done, Calls, enter,
  Move, count, r_lock, search_graph, r_unlock_new, r_unlock_duplicate, lock, add_node, unlock, mark,
  Step, call, Reach, begin, later,
}

module _ {ℓ} {F : Type ℓ} where
  -- The document of a call that has neither added nor marked it yet
  abbrev pub pending : (EmbeddedDoc F → ℕ) → Call F → ℕ
  pending w (entering doc) = w doc
  pending w (counted doc) = w doc
  pending w (reading doc) = w doc
  pending w (searched doc found) = w doc
  pending w (adding doc result) = w doc
  pending w (writing doc result) = w doc
  pending w (written result) = 0
  pending w (marking doc result) = w doc
  pending w (done result) = 0

  abbrev pub uncounted : Call F → ℕ
  uncounted (entering doc) = 1
  uncounted _ = 0

  -- A call that holds the mutex for reading, or for writing
  abbrev pub reads : Call F → ℕ
  reads (reading doc) = 1
  reads (searched doc found) = 1
  reads _ = 0

  abbrev pub writes : Call F → ℕ
  writes (writing doc result) = 1
  writes (written result) = 1
  writes _ = 0

abbrev held : Bool → ℕ
held true = 1
held false = 0

held-le : (b : Bool) → held b ≤ 1
held-le true = omega arith
held-le false = omega arith

module _ {ℓ κ} {F : Type ℓ} {G : Type κ} (floats : Floats F) (new_graph : G)
    (search : G → List F → List (Neighbor F)) (add : G → String → List F → G) where
  record Inv (idx : EmbeddingIndex F G) (docs : List (EmbeddedDoc F)) (s : Calls F G)
      : Type (ℓ ⊔ κ) where
    graph : s.index.graph ≡ add_all floats new_graph search add idx.graph s.added
    places :
        (w : EmbeddedDoc F → ℕ)
        → total w docs ≡ total (pending w) s.calls + total w s.added + total w s.marked
    processed : s.index.processed + total uncounted s.calls ≡ idx.processed + length docs
    duplicates : s.index.duplicates ≡ idx.duplicates + length s.marked
    readers : total reads s.calls ≡ s.readers
    writers : total writes s.calls ≡ held s.writer
    apart : (s.writer ≡ true) → s.readers ≡ 0

  add_all-append :
      (g : G) (docs : List (EmbeddedDoc F)) (doc : EmbeddedDoc F)
      → add_all floats new_graph search add g (docs ++ doc ∷ [])
        ≡ add (add_all floats new_graph search add g docs) doc.id doc.embedding
  add_all-append g [] doc = refl
  add_all-append g (d ∷ docs) doc = add_all-append (add g d.id d.embedding) docs doc

  -- What a move changes: the place of its document, and its hold of the mutex.
  record Told (s t : Calls F G) (a b : Call F) : Type (ℓ ⊔ κ) where
    moved :
        (w : EmbeddedDoc F → ℕ)
        → pending w b + total w t.added + total w t.marked
          ≡ pending w a + total w s.added + total w s.marked
    told : t.index.processed + uncounted b ≡ s.index.processed + uncounted a
    dups : t.index.duplicates + length s.marked ≡ s.index.duplicates + length t.marked
    same : t.calls ≡ s.calls

  Move-Told : {s t : Calls F G} {a b : Call F} → Move floats search add s a t b → Told s t a b
  Move-Told count = record { moved = λ w. refl; told = omega arith; dups = refl; same = refl }
  Move-Told (r_lock e) = record { moved = λ w. refl; told = refl; dups = refl; same = refl }
  Move-Told search_graph = record { moved = λ w. refl; told = refl; dups = refl; same = refl }
  Move-Told (r_unlock_new e) = record { moved = λ w. refl; told = refl; dups = refl; same = refl }
  Move-Told (r_unlock_duplicate e) = record {
    moved = λ w. refl;
    told = refl;
    dups = refl;
    same = refl;
  }
  Move-Told (lock e f) = record { moved = λ w. refl; told = refl; dups = refl; same = refl }
  Move-Told {s} (add_node {doc}) = record {
    moved = λ w. omega (arith, total-append w s.added (doc ∷ []));
    told = refl;
    dups = refl;
    same = refl;
  }
  Move-Told unlock = record { moved = λ w. refl; told = refl; dups = refl; same = refl }
  Move-Told {s} (mark {doc}) = record {
    moved = λ w. omega (arith, total-append w s.marked (doc ∷ []));
    told = refl;
    dups = omega (arith, length-append s.marked (doc ∷ []));
    same = refl;
  }

  -- What it does to the mutex, for a call that holds it as its place says.
  record Held (s t : Calls F G) (a b : Call F) : Type 0 where
    read : reads b + s.readers ≡ t.readers + reads a
    write : writes b + held s.writer ≡ held t.writer + writes a
    apart : t.writer ≡ true → t.readers ≡ 0

  Move-Held :
      {s t : Calls F G} {a b : Call F}
      → Move floats search add s a t b
      → reads a ≤ s.readers
      → writes a ≤ held s.writer
      → (s.writer ≡ true → s.readers ≡ 0)
      → Held s t a b
  Move-Held count r w apart = record { read = omega arith; write = omega arith; apart = apart }
  Move-Held (r_lock e) r w apart = record {
    read = omega arith;
    write = omega arith;
    apart = λ h. absurd (cc);
  }
  Move-Held search_graph r w apart = record {
    read = omega arith;
    write = omega arith;
    apart = apart;
  }
  Move-Held (r_unlock_new e) r w apart = record {
    read = omega (arith, r);
    write = omega arith;
    apart = λ h. omega (arith, apart h);
  }
  Move-Held (r_unlock_duplicate e) r w apart = record {
    read = omega (arith, r);
    write = omega arith;
    apart = λ h. omega (arith, apart h);
  }
  Move-Held (lock e f) r w apart = record {
    read = omega arith;
    write = omega (arith, ap held e);
    apart = λ h. f;
  }
  Move-Held add_node r w apart = record { read = omega arith; write = omega arith; apart = apart }
  Move-Held {s} unlock r w apart = record {
    read = omega arith;
    write = omega (arith, w, held-le s.writer);
    apart = λ h. absurd (cc);
  }
  Move-Held mark r w apart = record { read = omega arith; write = omega arith; apart = apart }

  Move-graph :
      {s t : Calls F G} {a b : Call F} (g : G)
      → Move floats search add s a t b
      → s.index.graph ≡ add_all floats new_graph search add g s.added
      → t.index.graph ≡ add_all floats new_graph search add g t.added
  Move-graph {s} g (add_node {doc}) e =
      ap (λ x. add x doc.id doc.embedding) e ∙ sym (add_all-append g s.added doc)
  Move-graph g count e = e
  Move-graph g (r_lock h) e = e
  Move-graph g search_graph e = e
  Move-graph g (r_unlock_new h) e = e
  Move-graph g (r_unlock_duplicate h) e = e
  Move-graph g (lock h f) e = e
  Move-graph g unlock e = e
  Move-graph g mark e = e

  Step-Inv :
      {idx : EmbeddingIndex F G} {docs : List (EmbeddedDoc F)} {s t : Calls F G}
      → Step floats search add s t
      → Inv idx docs s
      → Inv idx docs t
  Step-Inv {idx} {docs} {s} (call us vs {a} {b} {t} e m) v =
      let told = Move-Told m in
      let a_reads : reads a ≤ s.readers =
        omega (arith, v.readers, ap (total reads) e, total-append reads us (a ∷ vs)) in
      let a_writes : writes a ≤ held s.writer =
        omega (arith, v.writers, ap (total writes) e, total-append writes us (a ∷ vs)) in
      let mutex = Move-Held m a_reads a_writes v.apart in
      record {
        graph = Move-graph idx.graph m v.graph;
        places = λ w. omega (
          arith,
          v.places w,
          told.moved w,
          ap (total (pending w)) e,
          total-swap (pending w) us vs a b,
        );
        processed =
            omega (
              arith,
              v.processed,
              told.told,
              ap (total uncounted) e,
              total-swap uncounted us vs a b,
            );
        duplicates = omega (arith, v.duplicates, told.dups);
        readers =
            omega (arith, v.readers, mutex.read, ap (total reads) e, total-swap reads us vs a b);
        writers =
            omega (arith, v.writers, mutex.write, ap (total writes) e, total-swap writes us vs a b);
        apart = mutex.apart;
      }

  enter-total :
      (docs : List (EmbeddedDoc F)) (w : EmbeddedDoc F → ℕ)
      → (total (pending w) (enter docs) ≡ total w docs)
        × (total uncounted (enter docs) ≡ length docs)
        × (total reads (enter docs) ≡ 0)
        × (total writes (enter docs) ≡ 0)
  enter-total [] w = (refl, refl, refl, refl)
  enter-total (doc ∷ docs) w =
      let (a, b, c, d) = enter-total docs w in
      (omega (arith, a), omega (arith, b), omega (arith, c), omega (arith, d))

  Reach-Inv :
      {idx : EmbeddingIndex F G} {docs : List (EmbeddedDoc F)} {s : Calls F G}
      → Reach floats search add idx docs s
      → Inv idx docs s
  Reach-Inv {docs = docs} begin =
      let (some, all, none_reads, none_writes) = enter-total docs (λ doc. 0) in
      record {
        graph = refl;
        places = λ w. omega (arith, (enter-total docs w).0);
        processed = omega (arith, all);
        duplicates = omega arith;
        readers = none_reads;
        writers = none_writes;
        apart = λ h. refl;
      }
  Reach-Inv (later r st) = Step-Inv st (Reach-Inv r)

  -- For any documents, each handed to `DedupAndIndex` by a goroutine of its own, in any state that
  -- the goroutines reach in any schedule: the graph holds, beyond what it held, exactly the documents
  -- that were added, in order; however documents are weighed, they are those that were added, those
  -- that were counted as duplicates, and those whose call is not so far, each once; the metrics count
  -- the calls that have begun and the duplicates; and while a call may write to the graph, no other
  -- call may write to it or read it.
  pub calls_accounted :
      {idx : EmbeddingIndex F G} {docs : List (EmbeddedDoc F)} {s : Calls F G}
      → Reach floats search add idx docs s
      → (s.index.graph ≡ add_all floats new_graph search add idx.graph s.added)
        × ((w : EmbeddedDoc F → ℕ)
            → total w docs ≡ total (pending w) s.calls + total w s.added + total w s.marked)
        × (s.index.processed + total uncounted s.calls ≡ idx.processed + length docs)
        × (s.index.duplicates ≡ idx.duplicates + length s.marked)
        × ((total writes s.calls ≡ 0) ⊎ ((total writes s.calls ≡ 1) × (total reads s.calls ≡ 0)))
  calls_accounted {s = s} r =
      let v = Reach-Inv r in
      (
        v.graph,
        v.places,
        v.processed,
        v.duplicates,
        elim (Bool-cases s.writer) [
          | inl taken ↦
              inr (omega (arith, v.writers, ap held taken), omega (arith, v.readers, v.apart taken))
          | inr free ↦ inl (omega (arith, v.writers, ap held free))
        ],
      )
