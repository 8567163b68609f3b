-- ===== src/Wc/Strategies.antt =====
-- `InputProcessor.Run` and the functions that it dispatches to.
pub mod Agree
pub mod Errors
pub mod Tests
use Prim.Native.String.{String}
use text.Mathlib.Text.{◌==◌ as str_eq}
use performance_handbook.Base.{
  ℕ, Bool, true, false, List, [], ◌∷◌, ◌++◌, Option, none, some, Bytes, ◌==◌, if◌then◌else◌, ◌>>=◌,
}
use performance_handbook.Wc.{
  Error, reader_nil, path_empty, path_required, unknown_processor, not_exist, invalid_path,
  open_failed, Result, ok, err, System, Outcome, Processors, fill_buffer, process_bytes, feed_all,
}

pub record InputProcessor : Type 0 where
  pub processor_type : String
  pub file_path : String

-- `if err != nil { return err }`, where `wrap` is what `fmt.Errorf` puts round the error.
abbrev pub attempt {ℓ} :
    {A : Type ℓ} → (Error → Error) → Result A → Processors → (A → Outcome) → Outcome
attempt wrap (ok a) ps k = k a
attempt wrap (err e) ps k = some (ps, some (wrap e))

-- `processBytes` returns no error.
abbrev pub no_error : Option Processors → Outcome
no_error m = do ps ← m; some (ps, none)

pub check_file_path : System → String → Result (Unit {0})
check_file_path sys path =
    if str_eq path ""
    then err path_empty
    else if sys.is_not_exist path
    then err not_exist
    else ok tt

module _ (decode : Bytes → ℕ × ℕ) (sys : System) where
  open sys use {stdin, open_file, read_file, read_all, reads, file_size, mmap, scan, scan_bytes}

  -- `process`: the tokens of the scanner, then its error
  pub process_tokens : List Bytes × Option Error → Processors → Outcome
  process_tokens (tokens, e) ps = do ps' ← feed_all decode ps tokens; some (ps', e)

  -- A reader is `none` when it is nil.
  pub run_with_scanner_on_reader : Option ℕ → Processors → Outcome
  run_with_scanner_on_reader none ps = some (ps, some reader_nil)
  run_with_scanner_on_reader (some reader) ps = process_tokens (scan reader) ps

  pub run_with_scanner_on_file : String → Processors → Outcome
  run_with_scanner_on_file path ps =
      attempt invalid_path (check_file_path sys path) ps
        λ _. attempt open_failed (open_file path) ps λ file. process_tokens (scan file) ps

  pub run_with_up_front_loading_on_reader : Option ℕ → Processors → Outcome
  run_with_up_front_loading_on_reader none ps = some (ps, some reader_nil)
  run_with_up_front_loading_on_reader (some reader) ps =
      attempt (λ e. e) (read_all reader) ps λ text. no_error (process_bytes decode text ps)

  pub run_with_up_front_loading_on_file : String → Processors → Outcome
  run_with_up_front_loading_on_file path ps =
      attempt invalid_path (check_file_path sys path) ps
        λ _. attempt (λ e. e) (read_file path) ps λ text. no_error (process_bytes decode text ps)

  pub run_with_buffering_on_reader : Option ℕ → Processors → Outcome
  run_with_buffering_on_reader none ps = some (ps, some reader_nil)
  run_with_buffering_on_reader (some reader) ps = do
    filled ← fill_buffer (reads reader) []
    attempt (λ e. e) filled ps λ buffer. no_error (process_bytes decode buffer ps)

  pub run_with_buffering_on_file : String → Processors → Outcome
  run_with_buffering_on_file path ps = attempt invalid_path (check_file_path sys path) ps λ _.
      attempt open_failed (open_file path) ps λ file. run_with_buffering_on_reader (some file) ps

  pub run_with_mmap_on_file : String → Processors → Bool → Outcome
  run_with_mmap_on_file path ps avoid_allocations =
      attempt invalid_path (check_file_path sys path) ps λ _.
        attempt (λ e. e) (open_file path) ps
          λ file.
            attempt (λ e. e) (file_size file) ps
              λ size.
                if size == 0
                then some (ps, none)
                else attempt (λ e. e) (mmap file size) ps
                    λ text.
                      if avoid_allocations
                      then no_error (process_bytes decode text ps)
                      else process_tokens (scan_bytes text) ps

  -- `InputProcessor.Run`
  unfoldable pub run : InputProcessor → Processors → Outcome
  run p ps =
      let standard = str_eq p.file_path "" in
      if str_eq p.processor_type "scanner"
      then (if standard
          then run_with_scanner_on_reader (some stdin) ps
          else run_with_scanner_on_file p.file_path ps)
      else if str_eq p.processor_type "upfront"
      then (if standard
          then run_with_up_front_loading_on_reader (some stdin) ps
          else run_with_up_front_loading_on_file p.file_path ps)
      else if str_eq p.processor_type "buffering"
      then (if standard
          then run_with_buffering_on_reader (some stdin) ps
          else run_with_buffering_on_file p.file_path ps)
      else if str_eq p.processor_type "mmap"
      then (if standard
          then some (ps, some path_required)
          else run_with_mmap_on_file p.file_path ps true)
      else if str_eq p.processor_type "mmap2"
      then (if standard
          then some (ps, some path_required)
          else run_with_mmap_on_file p.file_path ps false)
      else some (ps, some unknown_processor)
