-- ===== src/DocPipeline/Pipeline/Tests.antt =====
-- One request goes through the line, which then ends.
use Prim.Native.String.{String}
use performance_handbook.Base.{
  ℕ, ◌+◌, zero, suc, ap, ◌≡◌, ◌<◌, ◌⊎◌, refl, Bytes, true, false, List, [], ◌∷◌, Option, none, some,
  arith, length, take, drop,
}
use performance_handbook.Base.Int.{ℤ, pos, negsuc}
use performance_handbook.Base.Totals.{total}
use performance_handbook.DocPipeline.Documents.{Floats}
use performance_handbook.DocPipeline.Index.{Neighbor, EmbeddingIndex}
use performance_handbook.DocPipeline.Stage.{
  new_stage, ready, start, receive, count_item, call_ok, record_latency, send,
}
use performance_handbook.DocPipeline.Stage.Flow.{through, backlog}
use performance_handbook.DocPipeline.Pipeline.{
  Line, first_line, work, request, last_request, in_loading, in_tokenizing, in_embedding, loaded,
  tokenized, LineStep, LineReach, begin, later,
}
use performance_handbook.DocPipeline.Pipeline.Measure.{line_cost}
use performance_handbook.DocPipeline.Pipeline.Ending.{Goes, line_ends}
use performance_handbook.DocPipeline.Pipeline.Whole.{line_conserves}
use performance_handbook.DocPipeline.Load.Whole.{Holds}

module _ {ℓ} {A B C : Type 0} {D : Type ℓ} (f : A → Option B) (g : B → Option C)
    (h : C → Option D) where
  record Trace : Type ℓ where
    last : Line A B C D
    reach : LineReach f g h last

  -- The result is in the last channel.
  one_ready : (x : A) (y : B) (z : C) (t : D) → f x ≡ some y → g y ≡ some z → h z ≡ some t → Trace
  unfolding first_line start new_stage
  one_ready x y z t ef eg eh = record {
    last = _;
    reach =
        later
          (later
            (later
              (later
                (later
                  (later
                    (later
                      (later
                        (later
                          (later
                            (later
                              (later
                                (later
                                  (later
                                    (later (later begin (request x refl))
                                      (in_loading (work [] [] refl (receive refl))))
                                    (in_loading (work [] [] refl count_item)))
                                  (in_loading (work [] [] refl (call_ok ef))))
                                (in_loading (work [] [] refl record_latency)))
                              (in_loading (work [] [] refl (send (omega arith)))))
                            (loaded [] (ready ∷ ready ∷ []) refl refl))
                          (in_tokenizing (work [] (ready ∷ ready ∷ []) refl count_item)))
                        (in_tokenizing (work [] (ready ∷ ready ∷ []) refl (call_ok eg))))
                      (in_tokenizing (work [] (ready ∷ ready ∷ []) refl record_latency)))
                    (in_tokenizing (work [] (ready ∷ ready ∷ []) refl (send (omega arith)))))
                  (tokenized [] [] refl refl))
                (in_embedding (work [] [] refl count_item)))
              (in_embedding (work [] [] refl (call_ok eh))))
            (in_embedding (work [] [] refl record_latency)))
          (in_embedding (work [] [] refl (send (omega arith))));
  }

abbrev next : ℕ → Option ℕ
next n = some (n + 1)

abbrev on_the_way : Line ℕ ℕ ℕ ℕ
on_the_way = (one_ready next next next 5 6 7 8 refl refl refl).last

line_conserves_example :
    total (through next (through next (through next (λ n. n)))) on_the_way.loading.offered
    ≡ total (λ n. n) on_the_way.embedding.consumed
      + backlog next (λ n. n) on_the_way.embedding
      + backlog next (through next (λ n. n)) on_the_way.tokenizing
      + backlog next (through next (through next (λ n. n))) on_the_way.loading
line_conserves_example =
    line_conserves next next next (one_ready next next next 5 6 7 8 refl refl refl).reach (λ n. n)

-- The stage behind has received the result, and the request was the last.
abbrev after_last : Line ℕ ℕ ℕ ℕ
after_last = record on_the_way { loading = record on_the_way.loading { in_closed = true } }

line_ends_example :
    (((after_last.embedding.out_closed ≡ true) × (after_last.embedding.out ≡ []))
      ⊎ Goes next next next after_last)
    × ((t : Line ℕ ℕ ℕ ℕ)
        → LineStep next next next after_last t
        → (line_cost t < line_cost after_last) × (t.loading.in_closed ≡ true))
unfolding one_ready
line_ends_example =
    line_ends next next next
      (later (one_ready next next next 5 6 7 8 refl refl refl).reach (last_request refl)) refl

abbrev pub whole_numbers : Floats ℕ
whole_numbers = record {
  nought = 0;
  one = 1;
  minus_one = 2;
  plus = λ a b. a + b;
  minus = λ a b. a;
  times = λ a b. b;
  over = λ a b. a;
  root = λ a. a;
  at_least = λ a b. true;
  above = λ a b. false;
}

-- A file of the size that `main` names.
all_a : ℕ → Bytes
all_a zero = []
all_a (suc n) = 97 ∷ all_a n

length-all_a : (n : ℕ) → length (all_a n) ≡ n
unfolding all_a
length-all_a zero = refl
length-all_a (suc n) = ap (λ k. suc k) (length-all_a n)

pub long_text : Bytes
long_text = all_a 5436475

pub long_text_size : length long_text ≡ 5436475
unfolding long_text
long_text_size = length-all_a 5436475

abbrev pub seek_to : ℕ → ℤ → Option ℕ
seek_to at (pos n) = some n
seek_to at (negsuc n) = none

abbrev pub read_from : ℕ → ℤ → Option Bytes
read_from at (pos k) = some (take k (drop at long_text))
read_from at (negsuc k) = some []

pub long_text-Holds : Holds (λ path. some 0) seek_to read_from "data/shakespeare.txt" long_text
long_text-Holds = record { file = 0; opens = refl; seeks = λ n h. (n, refl, λ k. refl) }

abbrev pub whole_text : Bytes → List Bytes
whole_text text = text ∷ []

-- Nothing is near to anything.
abbrev pub nearest : List (List ℕ) → List ℕ → List (Neighbor ℕ)
nearest vs vec = []

abbrev pub with_vector : List (List ℕ) → String → List ℕ → List (List ℕ)
with_vector vs key vec = vec ∷ vs

abbrev pub empty : EmbeddingIndex ℕ (List (List ℕ))
empty = record { graph = []; dedup_threshold = 1; processed = 0; duplicates = 0 }
