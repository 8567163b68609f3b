-- ===== src/DocPipeline/Load.antt =====
-- internal/load/load_generator.go and internal/ingest/ingest.go: the requests, and what they load.
pub mod Bounds
pub mod Whole
pub mod Generator
pub mod Tests
use Prim.Native.String.{String}
use performance_handbook.Base.{
  ℕ, Bool, Option, none, some, Bytes, if◌then◌else◌, ◌>>=◌, ◌≡◌, ◌<◌, take, drop,
}
use performance_handbook.Base.Int.{ℤ, pos, ltb_ℤ, eqb_ℤ, ◌+ℤ◌, ◌-ℤ◌}

-- `LoadGeneratorConfig`; the rate is read by the ticker only.
pub record LoadGeneratorConfig : Type 0 where
  pub min_text_size : ℤ
  pub max_text_size : ℤ
  pub id_prefix : String
  pub file_path : String
  pub file_size : ℤ

pub record DataLoadingConfig : Type 0 where
  pub id : String
  pub file_path : String
  pub offset : ℤ
  pub text_size : ℤ

pub record Document : Type 0 where
  pub id : String
  pub text : Bytes

-- The least and the greatest size of a text, after the four corrections. No sum or difference here
-- or below leaves the range of a Go `int` when the fields are in it.
pub sizes : LoadGeneratorConfig → ℤ × ℤ
sizes config =
    let min_size = if ltb_ℤ config.min_text_size (pos 1) then pos 1 else config.min_text_size in
    let max_size = if ltb_ℤ config.max_text_size min_size then min_size else config.max_text_size in
    (
      (if ltb_ℤ config.file_size min_size then config.file_size else min_size),
      (if ltb_ℤ config.file_size max_size then config.file_size else max_size),
    )

-- `rng.Intn` is `intn`: a number and the generator after it; none is a panic. `format_id` is
-- `fmt.Sprintf("%s-%d", ...)`.
module _ {ℓ} {Rng : Type ℓ} (intn : ℤ → Rng → Option (ℕ × Rng))
    (format_id : String → ℤ → String) where
  -- The choice of `textSize`
  pub choose_size : ℤ → ℤ → Rng → Option (ℤ × Rng)
  choose_size min_size max_size rng =
      if eqb_ℤ max_size min_size
      then some (min_size, rng)
      else (do (k, rng') ← intn (max_size -ℤ min_size +ℤ pos 1) rng; some (min_size +ℤ pos k, rng'))

  -- The choice of `offset`
  pub choose_offset : ℤ → ℤ → Rng → Option (ℤ × Rng)
  choose_offset file_size text_size rng =
      let spare = file_size -ℤ text_size in
      let max_offset = if ltb_ℤ spare (pos 0) then pos 0 else spare in
      if eqb_ℤ max_offset (pos 0)
      then some (pos 0, rng)
      else (do (k, rng') ← intn (max_offset +ℤ pos 1) rng; some (pos k, rng'))

  -- `generateRandomDataLoadingRequest`
  pub generate : LoadGeneratorConfig → ℤ → Rng → Option (DataLoadingConfig × Rng)
  unfolding sizes choose_size choose_offset
  generate config counter rng = do
    (text_size, rng') ← choose_size (sizes config).0 (sizes config).1 rng
    (offset, rng'') ← choose_offset config.file_size text_size rng'
    some (
      record {
        id = format_id config.id_prefix counter;
        file_path = config.file_path;
        offset = offset;
        text_size = text_size;
      },
      rng'',
    )

-- `open` is `os.Open`, `seek` a `Seek` from the start of the file, and `read_all` is `io.ReadAll`
-- behind an `io.LimitReader`; none is an error.
module _ {ℓ} {File : Type ℓ} (open_file : String → Option File) (seek : File → ℤ → Option File)
    (read_all : File → ℤ → Option Bytes) where
  -- `LoadData`; `none` is an error.
  unfoldable pub load_data : DataLoadingConfig → Option Document
  load_data config = do
    file ← open_file config.file_path
    file' ← seek file config.offset
    data_read ← read_all file' config.text_size
    some (record { id = config.id; text = data_read })
