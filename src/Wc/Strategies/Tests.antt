-- ===== src/Wc/Strategies/Tests.antt =====
-- The strategies on a machine with one file.
use performance_handbook.Base.{◌≡◌, refl, false, [], ◌∷◌, none, arith, codes}
use performance_handbook.Wc.{more, eof, ok, err, Error, System, Processors, feed_all}
use performance_handbook.Wc.Lines.{drop_cr, lines}
use performance_handbook.Wc.Counting.{tallies}
use performance_handbook.Wc.Tests.{ascii_decode}
use performance_handbook.Wc.Strategies.{run, no_error, run_with_mmap_on_file, check_file_path}
use performance_handbook.Wc.Strategies.Agree.{
  ScanLines, line, last, Holds, chunk_then, at_end, mmap, mmap2, run-agree,
}
use performance_handbook.Wc.Strategies.Errors.{run_error_keeps}

-- A machine with the one file "f", of two lines.
abbrev pub one_file : System
one_file = record {
  is_not_exist = λ path. false;
  stdin = 0;
  open_file = λ path. ok 3;
  read_file = λ path. ok (codes "a\nb");
  read_all = λ reader. ok (codes "a\nb");
  reads = λ reader. (codes "a\n", more) ∷ (codes "b", eof) ∷ [];
  file_size = λ file. ok 3;
  mmap = λ file size. ok (codes "a\nb");
  scan = λ reader. (codes "a" ∷ codes "b" ∷ [], none);
  scan_bytes = λ text. (codes "a" ∷ codes "b" ∷ [], none);
}

one_file-ScanLines : ScanLines (codes "a\nb") (codes "a" ∷ codes "b" ∷ [])
unfolding drop_cr
one_file-ScanLines = line (codes "a") (codes "b") (omega arith) refl (last (omega arith) refl)

pub one_file-Holds : Holds one_file "f" (codes "a\nb")
one_file-Holds = record {
  named = refl;
  exists = refl;
  file = 3;
  opens = refl;
  loads = refl;
  delivers = chunk_then at_end;
  sized = refl;
  maps = λ h. refl;
  tokens = codes "a" ∷ codes "b" ∷ [];
  scan_lines = one_file-ScanLines;
  scans = refl;
  scans_bytes = refl;
}

run-agree_example :
    run ascii_decode one_file (record { processor_type = "mmap2"; file_path = "f" }) (tallies 0 0 0)
    ≡ no_error (feed_all ascii_decode (tallies 0 0 0) (lines (codes "a\nb")))
run-agree_example = run-agree ascii_decode one_file-Holds mmap2 (tallies 0 0 0)

-- The same machine, whose only file cannot be mapped.
abbrev unmapped : System
unmapped = record one_file { mmap = λ file size. err (Error.system 12) }

run_error_keeps_example : ◌≡◌ {A = Processors} (tallies 1 2 3) (tallies 1 2 3)
unfolding run run_with_mmap_on_file check_file_path
run_error_keeps_example =
    run_error_keeps ascii_decode unmapped mmap "f" (tallies 1 2 3) (tallies 1 2 3) (Error.system 12)
      refl refl
