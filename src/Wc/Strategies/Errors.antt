-- ===== src/Wc/Strategies/Errors.antt =====
-- What `InputProcessor.Run` leaves behind when it returns an error.
use Prim.Native.String.{String}
use text.Mathlib.Text.{◌==◌ as str_eq}
use performance_handbook.Base.{ℕ, ◌≡◌, true, false, some, arith, Bytes, Bool}
use performance_handbook.Wc.{Error, not_exist, invalid_path, System, Processors}
use performance_handbook.Wc.Strategies.{
  check_file_path, run, run_with_scanner_on_file, run_with_up_front_loading_on_reader,
  run_with_up_front_loading_on_file, run_with_buffering_on_reader, run_with_buffering_on_file,
  run_with_mmap_on_file,
}
use performance_handbook.Wc.Strategies.Agree.{
  Strategy, scanner, up_front, buffering, mmap, mmap2, strategy_name,
}

-- The strategies that have the whole text before they feed the first line.
abbrev pub is_whole : Strategy → Bool
is_whole up_front = true
is_whole buffering = true
is_whole mmap = true
is_whole _ = false

module _ (decode : Bytes → ℕ × ℕ) (sys : System) where
  -- `upfront`, `buffering` and `mmap` count all or nothing: when `Run` returns an error, whatever
  -- the cause, each processor is as it was before. (The strategies with a scanner are not covered.)
  pub run_error_keeps :
      (s : Strategy) (path : String) (ps ps' : Processors) (e : Error)
      → is_whole s ≡ true
      → run decode sys (record { processor_type = strategy_name s; file_path = path }) ps
        ≡ some (ps', some e)
      → ps' ≡ ps
  unfolding run run_with_up_front_loading_on_reader run_with_up_front_loading_on_file
      run_with_buffering_on_reader run_with_buffering_on_file run_with_mmap_on_file
  run_error_keeps up_front path ps ps' e w h = ground arith
  run_error_keeps buffering path ps ps' e w h = ground arith
  run_error_keeps mmap path ps ps' e w h = ground arith
  run_error_keeps scanner path ps ps' e w h = cc
  run_error_keeps mmap2 path ps ps' e w h = cc

  -- Every strategy reports a file that does not exist in the same way, before it reads anything.
  pub run_missing :
      (s : Strategy) (path : String) (ps : Processors)
      → str_eq path "" ≡ false
      → sys.is_not_exist path ≡ true
      → run decode sys (record { processor_type = strategy_name s; file_path = path }) ps
        ≡ some (ps, some (invalid_path not_exist))
  unfolding run check_file_path run_with_scanner_on_file run_with_up_front_loading_on_file
      run_with_buffering_on_file run_with_mmap_on_file
  run_missing scanner path ps named missing = rw (named, missing)
  run_missing up_front path ps named missing = rw (named, missing)
  run_missing buffering path ps named missing = rw (named, missing)
  run_missing mmap path ps named missing = rw (named, missing)
  run_missing mmap2 path ps named missing = rw (named, missing)
