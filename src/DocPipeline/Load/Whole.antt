-- ===== src/DocPipeline/Load/Whole.antt =====
-- The generator and the first stage together: what is requested is there to be loaded.
use Prim.Native.String.{String}
use performance_handbook.Base.{
  ℕ, ◌+◌, ◌≤◌, ◌<◌, ◌≡◌, refl, sym, subst, Option, some, arith, Bytes, length, take, drop,
  length-take, length-drop,
}
use performance_handbook.Base.Int.{ℤ, pos, ◌≤ℤ◌, ◌+ℤ◌}
use performance_handbook.DocPipeline.Load.{
  LoadGeneratorConfig, DataLoadingConfig, Document, generate, load_data,
}
use performance_handbook.DocPipeline.Load.Bounds.{IsIntn, generate_within, nonneg_of}

-- The file at `path` opens and holds `content`; a seek to an offset in it succeeds, and a limited
-- read from there answers the bytes up to the limit or to the end of the file.
pub record Holds {ℓ} {File : Type ℓ} (open_file : String → Option File)
    (seek : File → ℤ → Option File) (read_all : File → ℤ → Option Bytes) (path : String)
    (content : Bytes) : Type ℓ where
  pub file : File
  pub opens : open_file path ≡ some file
  pub seeks :
      (n : ℕ)
      → n ≤ length content
      → (file' : File) × (seek file (pos n) ≡ some file')
        × ((k : ℕ) → read_all file' (pos k) ≡ some (take k (drop n content)))

within_ℕ : (a b c : ℤ) (n k m : ℕ) → a ≡ pos n → b ≡ pos k → c ≡ pos m → a +ℤ b ≤ℤ c → n + k ≤ m
unfolding ◌+ℤ◌
within_ℕ a b c n k m ea eb ec h = ground arith

positive : (z : ℤ) (k : ℕ) → z ≡ pos k → pos 1 ≤ℤ z → 0 < k
positive z k e h = ground arith

module _ {ℓ κ} {File : Type ℓ} {Rng : Type κ} (open_file : String → Option File)
    (seek : File → ℤ → Option File) (read_all : File → ℤ → Option Bytes)
    (intn : ℤ → Rng → Option (ℕ × Rng)) (format_id : String → ℤ → String) where
  load_range :
      (request : DataLoadingConfig) (content : Bytes) (n k : ℕ)
      → Holds open_file seek read_all request.file_path content
      → request.offset ≡ pos n
      → request.text_size ≡ pos k
      → n + k ≤ length content
      → load_data open_file seek read_all request
        ≡ some (record { id = request.id; text = take k (drop n content) })
  unfolding load_data
  load_range request content n k there at size fits =
      let (file', seeks, reads) = there.seeks n (omega arith) in
      rw (there.opens, at, seeks, size, reads k) refl

  -- When the configured size is that of the file, and it is not empty: whatever is drawn,
  -- `LoadData` of a generated request succeeds, the document has the request's id, and it has
  -- exactly the bytes asked for, which is at least one.
  pub request_loads :
      (config : LoadGeneratorConfig) (counter : ℤ) (rng : Rng) (content : Bytes)
      → IsIntn intn
      → Holds open_file seek read_all config.file_path content
      → config.file_size ≡ pos (length content)
      → 0 < length content
      → (request : DataLoadingConfig) × (rng' : Rng) × (document : Document) × (generate intn
            format_id config counter rng
          ≡ some (request, rng'))
        × (load_data open_file seek read_all request ≡ some document)
        × (document.id ≡ format_id config.id_prefix counter)
        × (pos (length document.text) ≡ request.text_size)
        × (0 < length document.text)
  request_loads config counter rng content law there whole some_bytes =
      let (request, rng', made, named, path, least, some_size, inside) =
        generate_within intn format_id law config counter rng (rw whole (omega arith)) in
      let (n, at) = nonneg_of request.offset least in
      let (k, size) = nonneg_of request.text_size (omega arith) in
      let fits : n + k ≤ length content =
        within_ℕ request.offset request.text_size config.file_size n k (length content) at size
          whole inside in
      let room = length-drop n content in
      let read : length (take k (drop n content)) ≡ k =
        length-take k (drop n content) (omega arith) in
      (
        request,
        rng',
        record { id = request.id; text = take k (drop n content) },
        made,
        load_range request content n k
            (subst (λ where_at. Holds open_file seek read_all where_at content) (sym path) there) at
            size fits,
        named,
        rw read (sym size),
        rw read (positive request.text_size k size some_size),
      )
