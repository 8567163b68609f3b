-- ===== src/DocPipeline/Load/Tests.antt =====
-- A file of five bytes, and a generator that always draws the greatest number it may.
use Prim.Native.String.{String}
use performance_handbook.Base.{
  ℕ, zero, suc, ◌+◌, ◌<◌, ◌≡◌, refl, [], ◌∷◌, Option, none, some, arith, Bytes, length, take, drop,
}
use performance_handbook.Base.Int.{ℤ, pos, negsuc, ◌≤ℤ◌, ◌+ℤ◌}
use performance_handbook.DocPipeline.Load.{
  LoadGeneratorConfig, DataLoadingConfig, Document, generate, load_data,
}
use performance_handbook.DocPipeline.Load.Bounds.{IsIntn, generate_within}
use performance_handbook.DocPipeline.Load.Whole.{Holds, request_loads}

abbrev pub greatest : ℤ → ℕ → Option (ℕ × ℕ)
greatest (pos zero) drawn = none
greatest (pos (suc n)) drawn = some (n, drawn + 1)
greatest (negsuc n) drawn = none

pub greatest-IsIntn : IsIntn greatest
greatest-IsIntn zero drawn h = absurd (omega arith)
greatest-IsIntn (suc n) drawn h = (n, drawn + 1, refl, omega arith)

abbrev pub prefix_only : String → ℤ → String
prefix_only prefix counter = prefix

abbrev five : Bytes
five = 10 ∷ 20 ∷ 30 ∷ 40 ∷ 50 ∷ []

-- The sizes are the wrong way round, and too large.
abbrev pub config : LoadGeneratorConfig
config = record {
  min_text_size = pos 3;
  max_text_size = negsuc 8;
  id_prefix = "doc";
  file_path = "five";
  file_size = pos 5;
}

abbrev seek_to : ℕ → ℤ → Option ℕ
seek_to at (pos n) = some n
seek_to at (negsuc n) = none

abbrev read_from : ℕ → ℤ → Option Bytes
read_from at (pos k) = some (take k (drop at five))
read_from at (negsuc k) = some []

five_there : Holds (λ path. some 0) seek_to read_from "five" five
five_there = record { file = 0; opens = refl; seeks = λ n h. (n, refl, λ k. refl) }

generate_within_example :
    (request : DataLoadingConfig) × (drawn : ℕ) × (generate greatest prefix_only config (pos 0) 0
      ≡ some (request, drawn))
    × (request.id ≡ prefix_only "doc" (pos 0))
    × (request.file_path ≡ "five")
    × (pos 0 ≤ℤ request.offset)
    × (pos 1 ≤ℤ request.text_size)
    × (request.offset +ℤ request.text_size ≤ℤ pos 5)
generate_within_example =
    generate_within greatest prefix_only greatest-IsIntn config (pos 0) 0 (omega arith)

request_loads_example :
    (request : DataLoadingConfig) × (drawn : ℕ) × (document : Document) × (generate greatest
        prefix_only config
        (pos 0)
        0
      ≡ some (request, drawn))
    × (load_data (λ path. some 0) seek_to read_from request ≡ some document)
    × (document.id ≡ prefix_only "doc" (pos 0))
    × (pos (length document.text) ≡ request.text_size)
    × (0 < length document.text)
request_loads_example =
    request_loads (λ path. some 0) seek_to read_from greatest prefix_only config (pos 0) 0 five
      greatest-IsIntn five_there refl (omega arith)
