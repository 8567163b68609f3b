-- ===== src/DocPipeline/Program/Tests.antt =====
-- The generator makes a request, which goes through all stages until its result is printed.
use performance_handbook.Base.{◌+◌, ◌≤◌, refl, ap, sym, some, [], ◌∷◌, arith, length}
use performance_handbook.Base.Int.{pos}
use performance_handbook.DocPipeline.Load.Whole.{request_loads}
use performance_handbook.DocPipeline.Load.Tests.{greatest, greatest-IsIntn, prefix_only}
use performance_handbook.DocPipeline.Load.Generator.{new_load_generator, tick, push, receive}
use performance_handbook.DocPipeline.Program.Accounts.{MainProgram, MainReach}
use performance_handbook.DocPipeline.Documents.{tokenize}
use performance_handbook.DocPipeline.Documents.Vectors.{embed_total}
use performance_handbook.DocPipeline.Indexing.{index_document, send_result, print_result}
use performance_handbook.DocPipeline.Stage.{
  ready, start, new_stage, receive as worker_receives, count_item, call_ok, record_latency, send,
}
use performance_handbook.DocPipeline.Pipeline.{
  generator_config, first_line, request, in_loading, in_tokenizing, in_embedding, work, loaded,
  tokenized, embedded,
}
use performance_handbook.DocPipeline.Pipeline.Tests.{
  whole_numbers, long_text, long_text_size, seek_to, read_from, long_text-Holds, whole_text,
  nearest, with_vector, empty,
}
use performance_handbook.DocPipeline.Program.{
  generator_effect, move_effect, line_effect, begin, later, generates, goes_on, sends, receives,
  passes_on, indexes,
}
use performance_handbook.DocPipeline.Program.Keeping.{index_keeps_up}

abbrev Main : Type 0
Main =
    MainProgram (λ path. some 0) seek_to read_from greatest prefix_only (λ text. text) whole_text
      whole_numbers length [] nearest with_vector

record Running : Type 0 where
  program : Main
  reach :
      MainReach
        (λ path. some 0)
        seek_to
        read_from
        greatest
        prefix_only
        (λ text. text)
        whole_text
        whole_numbers
        length
        []
        nearest
        with_vector
        (pos 100)
        0
        empty
        program

first_printed : Running
unfolding generator_effect move_effect line_effect first_line start new_stage new_load_generator
first_printed =
    let (asked, drawn, document, made, loads, named, long, some_bytes) =
      request_loads (λ path. some 0) seek_to read_from greatest prefix_only generator_config (pos 0)
        0 long_text greatest-IsIntn long_text-Holds (ap (λ n. pos n) (sym long_text_size))
        (omega (arith, long_text_size)) in
    let tokens = tokenize (λ text. text) whole_text document in
    let (vec, embedded_as, size) = embed_total whole_numbers length 1024 tokens (omega arith) in
    record {
      program = _;
      reach =
          later
            (later
              (later
                (later
                  (later
                    (later
                      (later
                        (later
                          (later
                            (later
                              (later
                                (later
                                  (later
                                    (later
                                      (later
                                        (later
                                          (later
                                            (later
                                              (later
                                                (later
                                                  (later begin (
                                                    generates
                                                      (tick {request = asked} {rng = drawn} refl
                                                        made)
                                                      refl))
                                                  (sends asked (push refl (omega arith)) refl
                                                    (request asked refl) refl))
                                                (receives asked (receive refl) refl
                                                  (in_loading
                                                    (work [] [] refl (worker_receives refl)))
                                                  refl))
                                              (goes_on (in_loading (work [] [] refl count_item))
                                                refl))
                                            (goes_on (in_loading (work [] [] refl (call_ok loads)))
                                              refl))
                                          (goes_on (in_loading (work [] [] refl record_latency))
                                            refl))
                                        (goes_on (in_loading (work [] [] refl (send (omega arith))))
                                          refl))
                                      (goes_on (loaded [] (ready ∷ ready ∷ []) refl refl) refl))
                                    (goes_on
                                      (in_tokenizing (work [] (ready ∷ ready ∷ []) refl count_item))
                                      refl))
                                  (goes_on
                                    (in_tokenizing
                                      (work [] (ready ∷ ready ∷ []) refl (call_ok refl)))
                                    refl))
                                (goes_on
                                  (in_tokenizing (work [] (ready ∷ ready ∷ []) refl record_latency))
                                  refl))
                              (goes_on
                                (in_tokenizing
                                  (work [] (ready ∷ ready ∷ []) refl (send (omega arith))))
                                refl))
                            (goes_on (tokenized [] [] refl refl) refl))
                          (goes_on (in_embedding (work [] [] refl count_item)) refl))
                        (goes_on (in_embedding (work [] [] refl (call_ok embedded_as))) refl))
                      (goes_on (in_embedding (work [] [] refl record_latency)) refl))
                    (goes_on (in_embedding (work [] [] refl (send (omega arith)))) refl))
                  (passes_on (record { id = tokens.id; embedding = vec }) (embedded refl) refl
                    refl))
                (indexes (index_document refl)))
              (indexes (send_result refl (omega arith))))
            (indexes (print_result refl));
    }

index_keeps_up_example :
    let p = first_printed.program in
    (p.indexing.index.processed ≤ 0 + length p.generator.sent)
    × (0 + length p.generator.sent ≤ p.indexing.index.processed + 406)
    × (p.generator.generator.counter ≤ length p.generator.sent)
    × (length p.generator.sent ≤ p.generator.generator.counter + 1)
index_keeps_up_example =
    index_keeps_up (λ path. some 0) seek_to read_from greatest prefix_only (λ text. text) whole_text
      whole_numbers length [] nearest with_vector long_text (pos 100) 0 empty greatest-IsIntn
      long_text-Holds long_text_size first_printed.reach
