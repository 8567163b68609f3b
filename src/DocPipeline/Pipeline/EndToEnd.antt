-- ===== src/DocPipeline/Pipeline/EndToEnd.antt =====
-- The requests of the generator of main.go can be loaded.
use Prim.Native.String.{String}
use performance_handbook.Base.{
  ℕ, ◌≡◌, sym, ap, ◌∙◌, Bytes, List, [], ◌∷◌, Option, some, arith, length, All,
}
use performance_handbook.Base.Int.{ℤ, pos}
use performance_handbook.DocPipeline.Load.{DataLoadingConfig, Document, generate, load_data}
use performance_handbook.DocPipeline.Load.Bounds.{IsIntn}
use performance_handbook.DocPipeline.Load.Whole.{Holds, request_loads}
use performance_handbook.DocPipeline.Pipeline.{generator_config}

module _ {ℓ κ} {File : Type ℓ} {Rng : Type κ} (open_file : String → Option File)
    (seek : File → ℤ → Option File) (read_all : File → ℤ → Option Bytes)
    (intn : ℤ → Rng → Option (ℕ × Rng)) (format_id : String → ℤ → String) where
  -- A request that the generator of `main` makes.
  abbrev pub Requested : DataLoadingConfig → Type κ
  Requested request =
      (counter : ℤ) × (rng : Rng) × (rng' : Rng) × (generate intn format_id generator_config counter
          rng
        ≡ some (request, rng'))

  request_succeeds :
      (content : Bytes)
      → IsIntn intn
      → Holds open_file seek read_all generator_config.file_path content
      → length content ≡ 5436475
      → (request : DataLoadingConfig) → Requested request
      → (document : Document) × (load_data open_file seek read_all request ≡ some document)
  request_succeeds content law there size request (counter, rng, rng', made) =
      let (request', rng'', document, made', loads, named, long, some_bytes) =
        request_loads open_file seek read_all intn format_id generator_config counter rng content
          law there (ap (λ n. pos n) (sym size)) (omega (arith, size)) in
      let same : request' ≡ request = ground (arith, made, made') in
      (document, ap (load_data open_file seek read_all) (sym same) ∙ loads)

  pub all_succeed :
      (content : Bytes)
      → IsIntn intn
      → Holds open_file seek read_all generator_config.file_path content
      → length content ≡ 5436475
      → (requests : List DataLoadingConfig) → All Requested requests
      → All
          (λ request.
            (document : Document) × (load_data open_file seek read_all request ≡ some document))
          requests
  all_succeed content law there size [] h = tt
  all_succeed content law there size (request ∷ requests) h = (
    request_succeeds content law there size request h.0,
    all_succeed content law there size requests h.1,
  )
