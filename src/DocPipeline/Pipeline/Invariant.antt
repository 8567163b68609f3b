-- ===== src/DocPipeline/Pipeline/Invariant.antt =====
-- What holds in every state that the line reaches.
use performance_handbook.Base.{refl, Option, arith}
use performance_handbook.DocPipeline.Stage.{new_stage, start, offer, begin, later}
use performance_handbook.DocPipeline.Pipeline.{
  load_stage, tokenize_stage, embed_stage, Line, first_line, LineStep, request, last_request,
  in_loading, in_tokenizing, in_embedding, loaded, no_more_loaded, tokenized, no_more_tokenized,
  embedded, LineReach, begin as line_begin, later as line_later,
}
use performance_handbook.DocPipeline.Pipeline.Links.{
  Part, Link, not_ended, Part-inner, Part-gives, Part-takes, Part-end, first_moves, second_moves,
  pass,
}

module _ {ℓ} {A B C : Type 0} {D : Type ℓ} (f : A → Option B) (g : B → Option C)
    (h : C → Option D) where
  pub record LineInv (s : Line A B C D) : Type ℓ where
    pub loading : Part f load_stage s.loading
    pub tokenizing : Part g tokenize_stage s.tokenizing
    pub embedding : Part h embed_stage s.embedding
    pub first_link : Link s.loading s.tokenizing
    pub second_link : Link s.tokenizing s.embedding

  LineStep-LineInv : {s t : Line A B C D} → LineStep f g h s t → LineInv s → LineInv t
  unfolding new_stage
  LineStep-LineInv {s} (request x e) v = record {
    loading = record { reach = later v.loading.reach (offer x e); alive = v.loading.alive };
    tokenizing = v.tokenizing;
    embedding = v.embedding;
    first_link = v.first_link;
    second_link = v.second_link;
  }
  LineStep-LineInv {s} (last_request e) v = record {
    loading = Part-end e v.loading;
    tokenizing = v.tokenizing;
    embedding = v.embedding;
    first_link = v.first_link;
    second_link = v.second_link;
  }
  LineStep-LineInv {s} (in_loading i) v = record {
    loading = Part-inner refl v.loading i;
    tokenizing = v.tokenizing;
    embedding = v.embedding;
    first_link = first_moves f g load_stage s.tokenizing v.loading i v.first_link;
    second_link = v.second_link;
  }
  LineStep-LineInv {s} (in_tokenizing i) v = record {
    loading = v.loading;
    tokenizing = Part-inner refl v.tokenizing i;
    embedding = v.embedding;
    first_link = second_moves f g s.loading i v.first_link;
    second_link = first_moves g h tokenize_stage s.embedding v.tokenizing i v.second_link;
  }
  LineStep-LineInv {s} (in_embedding i) v = record {
    loading = v.loading;
    tokenizing = v.tokenizing;
    embedding = Part-inner refl v.embedding i;
    first_link = v.first_link;
    second_link = second_moves g h s.tokenizing i v.second_link;
  }
  LineStep-LineInv {s} (loaded {y} {ys} ws vs e w) v = record {
    loading = Part-gives y ys e v.loading;
    tokenizing =
        Part-takes y ws vs v.first_link.1 (not_ended s.loading s.tokenizing y ys v.first_link e) w
          v.tokenizing;
    embedding = v.embedding;
    first_link = pass f g s.loading s.tokenizing y ys ws vs e v.first_link;
    second_link = v.second_link;
  }
  LineStep-LineInv {s} (no_more_loaded o none_left e) v = record {
    loading = v.loading;
    tokenizing = Part-end e v.tokenizing;
    embedding = v.embedding;
    first_link = (v.first_link.0, v.first_link.1, λ _. (o, none_left));
    second_link = v.second_link;
  }
  LineStep-LineInv {s} (tokenized {y} {ys} ws vs e w) v = record {
    loading = v.loading;
    tokenizing = Part-gives y ys e v.tokenizing;
    embedding =
        Part-takes y ws vs v.second_link.1 (not_ended s.tokenizing s.embedding y ys v.second_link e)
          w v.embedding;
    first_link = v.first_link;
    second_link = pass g h s.tokenizing s.embedding y ys ws vs e v.second_link;
  }
  LineStep-LineInv {s} (no_more_tokenized o none_left e) v = record {
    loading = v.loading;
    tokenizing = v.tokenizing;
    embedding = Part-end e v.embedding;
    first_link = v.first_link;
    second_link = (v.second_link.0, v.second_link.1, λ _. (o, none_left));
  }
  LineStep-LineInv {s} (embedded {y} {ys} e) v = record {
    loading = v.loading;
    tokenizing = v.tokenizing;
    embedding = Part-gives y ys e v.embedding;
    first_link = v.first_link;
    second_link = v.second_link;
  }

  pub LineReach-LineInv : {s : Line A B C D} → LineReach f g h s → LineInv s
  unfolding first_line start new_stage
  LineReach-LineInv line_begin = record {
    loading = record { reach = begin; alive = refl };
    tokenizing = record { reach = begin; alive = refl };
    embedding = record { reach = begin; alive = refl };
    first_link = (refl, refl, λ e. ground arith);
    second_link = (refl, refl, λ e. ground arith);
  }
  LineReach-LineInv (line_later r st) = LineStep-LineInv st (LineReach-LineInv r)
