-- ===== src/DocPipeline/Pipeline/Whole.antt =====
-- The line from the requests to the index: nothing is lost or doubled on the way.
use Prim.Native.String.{String}
use performance_handbook.Base.{ℕ, ◌+◌, ◌≡◌, ap, Bytes, true, List, [], Option, arith}
use performance_handbook.Base.Int.{ℤ}
use performance_handbook.Base.Totals.{total, SameItems, filter_map, weight_of, total-filter_map}
use performance_handbook.DocPipeline.Load.{Document}
use performance_handbook.DocPipeline.Documents.{Floats, tokenize}
use performance_handbook.DocPipeline.Documents.Vectors.{embed_total}
use performance_handbook.DocPipeline.Index.{Neighbor}
use performance_handbook.DocPipeline.Stage.{new_stage}
use performance_handbook.DocPipeline.Stage.Flow.{through, backlog, flow, shut_down}
use performance_handbook.DocPipeline.Pipeline.{
  load_stage, tokenize_stage, embed_stage, tokenize_function, embed_function, Line, LineReach,
}
use performance_handbook.DocPipeline.Pipeline.Invariant.{LineInv, LineReach-LineInv}

module _ {ℓ} {A B C : Type 0} {D : Type ℓ} (f : A → Option B) (g : B → Option C)
    (h : C → Option D) where
  -- In every state that the line reaches, in any order of the steps of its goroutines: however the
  -- final results are weighed, those of the requests sent so far are those that the index stage has
  -- received and those that are on their way, each in one stage.
  pub line_conserves :
      {s : Line A B C D}
      → LineReach f g h s
      → (w : D → ℕ)
      → total (through f (through g (through h w))) s.loading.offered
        ≡ total w s.embedding.consumed
          + backlog h w s.embedding
          + backlog g (through h w) s.tokenizing
          + backlog f (through g (through h w)) s.loading
  line_conserves {s} r w =
      let u = through h w in
      let v = through g u in
      omega (
        arith,
        flow f load_stage inv.loading.reach inv.loading.alive v,
        ap (total v) inv.first_link.0,
        flow g tokenize_stage inv.tokenizing.reach inv.tokenizing.alive u,
        ap (total u) inv.second_link.0,
        flow h embed_stage inv.embedding.reach inv.embedding.alive w,
      )
    where
      inv : LineInv f g h s
      inv = LineReach-LineInv f g h r

  -- Once the last channel is closed and empty, the stages before it have ended too, and the index
  -- stage has received the results of all requests, each as often.
  pub line_drains :
      {s : Line A B C D}
      → LineReach f g h s
      → s.embedding.out_closed ≡ true
      → s.embedding.out ≡ []
      → (s.loading.in_closed ≡ true)
        × SameItems s.embedding.consumed
            (filter_map h (filter_map g (filter_map f s.loading.offered)))
  unfolding new_stage
  line_drains {s} r o none_left =
      let (e, no_e) =
        shut_down h embed_stage inv.embedding.reach (omega arith) inv.embedding.alive o in
      let (t_shut, t_empty) = inv.second_link.2 e in
      let (t, no_t) =
        shut_down g tokenize_stage inv.tokenizing.reach (omega arith) inv.tokenizing.alive t_shut in
      let (l_shut, l_empty) = inv.first_link.2 t in
      let (l, no_l) =
        shut_down f load_stage inv.loading.reach (omega arith) inv.loading.alive l_shut in
      (
        l,
        λ w.
            let u = through h w in
            let v = through g u in
            omega (
              arith,
              line_conserves r w,
              no_e w,
              no_t u,
              no_l v,
              ap (total w) none_left,
              ap (total u) t_empty,
              ap (total v) l_empty,
              total-filter_map w h (filter_map g (filter_map f s.loading.offered)),
              total-filter_map u g (filter_map f s.loading.offered),
              total-filter_map v f s.loading.offered,
            ),
      )
    where
      inv : LineInv f g h s
      inv = LineReach-LineInv f g h r

-- The functions of `main`.
module _ {ℓ κ μ} {F : Type ℓ} {G : Type κ} {File : Type μ} (open_file : String → Option File)
    (seek : File → ℤ → Option File) (read_all : File → ℤ → Option Bytes) (to_lower : Bytes → Bytes)
    (letter_fields : Bytes → List Bytes) (floats : Floats F) (hash : Bytes → ℕ) (new_graph : G)
    (search : G → List F → List (Neighbor F)) (add : G → String → List F → G) where
  -- `Embed` has a result for every document.
  pub one_each :
      (doc : Document)
      → through
          (tokenize_function to_lower letter_fields)
          (through (embed_function floats hash) (λ x. 1))
          doc
        ≡ 1
  one_each doc =
      let tokens = tokenize to_lower letter_fields doc in
      let (vec, made, long) = embed_total floats hash 1024 tokens (omega arith) in
      ap (weight_of (λ x. 1)) made
