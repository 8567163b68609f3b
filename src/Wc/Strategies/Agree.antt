-- ===== src/Wc/Strategies/Agree.antt =====
-- The five strategies show the same counts for the same file.
use Prim.Native.String.{String}
use text.Mathlib.Text.{◌==◌ as str_eq}
use performance_handbook.Base.{
  ℕ, ◌<◌, ◌≡◌, ◌≢◌, refl, sym, ap, ◌∙◌, Bool, true, false, List, [], ◌∷◌, ◌++◌, append_assoc,
  append-nil, none, some, arith, Bytes, length, ◌==◌, if◌then◌else◌, All, Bool-cases, inl, inr,
}
use performance_handbook.Wc.{
  newline, ok, ReadEnd, more, eof, System, Processors, fill_buffer, process_bytes, feed_all,
}
use performance_handbook.Wc.Lines.{drop_cr, unfinished, lines_from, lines, process_bytes-lines}
use performance_handbook.Wc.Strategies.{
  no_error, process_tokens, check_file_path, run, run_with_scanner_on_file,
  run_with_scanner_on_reader, run_with_up_front_loading_on_file, run_with_buffering_on_file,
  run_with_buffering_on_reader, run_with_mmap_on_file,
}

-- What the documentation of `bufio.ScanLines` says of the tokens of a text: each line, stripped of
-- its newline and of a carriage return before it; and the last line, if it is not empty, also
-- without a newline. It speaks of no last line that ends in a carriage return alone.
pub data ScanLines : Bytes → List Bytes → Type 0 where
  done : ScanLines [] []
  last :
      {b : ℕ} {bs : Bytes}
      → All (λ c. c ≢ newline) (b ∷ bs)
      → drop_cr (b ∷ bs) ≡ b ∷ bs
      → ScanLines (b ∷ bs) ((b ∷ bs) ∷ [])
  line :
      (l rest : Bytes) {text : Bytes} {ls : List Bytes}
      → All (λ c. c ≢ newline) l
      → text ≡ l ++ newline ∷ rest
      → ScanLines rest ls
      → ScanLines text (drop_cr l ∷ ls)

-- Reads that end in the end of the file, and the bytes that they bring.
pub data Delivers : List (Bytes × ReadEnd) → Bytes → Type 0 where
  at_end : {chunk : Bytes} → Delivers ((chunk, eof) ∷ []) chunk
  chunk_then :
      {chunk text : Bytes} {rest : List (Bytes × ReadEnd)}
      → Delivers rest text
      → Delivers ((chunk, more) ∷ rest) (chunk ++ text)

lines_from-OneLine :
    (l rest cur : Bytes)
    → All (λ c. c ≢ newline) l
    → lines_from cur (l ++ newline ∷ rest) ≡ drop_cr (cur ++ l) ∷ lines_from [] rest
unfolding lines_from
lines_from-OneLine [] rest cur h = rw append-nil
lines_from-OneLine (b ∷ bs) rest cur h =
    ground
      (arith, h.0, lines_from-OneLine bs rest (cur ++ b ∷ []) h.1, append_assoc cur (b ∷ []) bs)

lines_from-unfinished :
    (l cur : Bytes) → All (λ c. c ≢ newline) l → lines_from cur l ≡ unfinished (cur ++ l)
unfolding lines_from
lines_from-unfinished [] cur h = rw append-nil
lines_from-unfinished (b ∷ bs) cur h =
    ground (arith, h.0, lines_from-unfinished bs (cur ++ b ∷ []) h.1, append_assoc cur (b ∷ []) bs)

ScanLines-lines : {text : Bytes} {ls : List Bytes} → ScanLines text ls → ls ≡ lines text
unfolding lines lines_from
ScanLines-lines done = refl
ScanLines-lines (last {b} {bs} one e) = ap (λ l. l) (sym (lines_from-unfinished (b ∷ bs) [] one))
ScanLines-lines (line l rest one e s) =
    rw (e, lines_from-OneLine l rest [] one) (ap (◌∷◌ (drop_cr l)) (ScanLines-lines s))

lines_of_empty : (text : Bytes) → (length text == 0) ≡ true → lines text ≡ []
unfolding lines lines_from
lines_of_empty [] e = refl
lines_of_empty (b ∷ bs) e = absurd (ground arith)

fill_buffer-Delivers :
    {rs : List (Bytes × ReadEnd)} {text : Bytes}
    → Delivers rs text
    → (buffer : Bytes) → fill_buffer rs buffer ≡ some (ok (buffer ++ text))
unfolding fill_buffer
fill_buffer-Delivers at_end buffer = refl
fill_buffer-Delivers (chunk_then {chunk} {text} r) buffer =
    fill_buffer-Delivers r (buffer ++ chunk)
    ∙ ap (λ b. some (ok b)) (append_assoc buffer chunk text)

-- The file at `path` holds `text`, and the system calls and the standard library say so.
pub record Holds (sys : System) (path : String) (text : Bytes) : Type 0 where
  pub named : str_eq path "" ≡ false
  pub exists : sys.is_not_exist path ≡ false
  pub file : ℕ
  pub opens : sys.open_file path ≡ ok file
  pub loads : sys.read_file path ≡ ok text
  pub delivers : Delivers (sys.reads file) text
  pub sized : sys.file_size file ≡ ok (length text)
  pub maps : 0 < length text → sys.mmap file (length text) ≡ ok text
  pub tokens : List Bytes
  pub scan_lines : ScanLines text tokens
  pub scans : sys.scan file ≡ (tokens, none)
  pub scans_bytes : sys.scan_bytes text ≡ (tokens, none)

-- The strategies that `Run` knows, and their names.
pub data Strategy : Type 0 where
  scanner up_front buffering mmap mmap2 : Strategy

abbrev pub strategy_name : Strategy → String
strategy_name scanner = "scanner"
strategy_name up_front = "upfront"
strategy_name buffering = "buffering"
strategy_name mmap = "mmap"
strategy_name mmap2 = "mmap2"

module _ (decode : Bytes → ℕ × ℕ) {sys : System} {path : String} {text : Bytes}
    (h : Holds sys path text) where
  file_is_checked : check_file_path sys path ≡ ok tt
  unfolding check_file_path
  file_is_checked = rw (h.named, h.exists)

  process_tokens-lines :
      (ps : Processors)
      → process_tokens decode sys (h.tokens, none) ps ≡ no_error (feed_all decode ps (lines text))
  unfolding process_tokens
  process_tokens-lines ps = rw (ScanLines-lines h.scan_lines)

  mapped :
      (ps : Processors) (avoid : Bool)
      → (if avoid
          then no_error (process_bytes decode text ps)
          else process_tokens decode sys (h.tokens, none) ps)
        ≡ no_error (feed_all decode ps (lines text))
  mapped ps true = ap no_error (process_bytes-lines decode text ps)
  mapped ps false = process_tokens-lines ps

  run_with_mmap_on_file-lines :
      (ps : Processors) (avoid : Bool)
      → run_with_mmap_on_file decode sys path ps avoid ≡ no_error (feed_all decode ps (lines text))
  unfolding run_with_mmap_on_file
  run_with_mmap_on_file-lines ps avoid = elim (Bool-cases (length text == 0)) [
    | inl e ↦
        rw (file_is_checked, h.opens, h.sized, e, lines_of_empty text e) (unfold feed_all in refl)
    | inr e ↦
        rw (file_is_checked, h.opens, h.sized, e, h.maps (ground arith), h.scans_bytes)
          (mapped ps avoid)
  ]

  -- Whichever of the five strategies reads a file, the processors end with the same counts, and no
  -- error is reported: they are fed the lines of the file. The file may be named, found, opened,
  -- read and mapped without an error, and its text is one of which `bufio.Scanner` reports the
  -- lines (no line is too long for it, and the text does not end in a carriage return).
  pub run-agree :
      (s : Strategy) (ps : Processors)
      → run decode sys (record { processor_type = strategy_name s; file_path = path }) ps
        ≡ no_error (feed_all decode ps (lines text))
  unfolding run run_with_scanner_on_file run_with_scanner_on_reader
      run_with_up_front_loading_on_file run_with_buffering_on_file run_with_buffering_on_reader
  run-agree scanner ps = rw (h.named, file_is_checked, h.opens, h.scans) (process_tokens-lines ps)
  run-agree up_front ps =
      rw (h.named, file_is_checked, h.loads) (ap no_error (process_bytes-lines decode text ps))
  run-agree buffering ps =
      rw (h.named, file_is_checked, h.opens, fill_buffer-Delivers h.delivers [])
        (ap no_error (process_bytes-lines decode text ps))
  run-agree mmap ps = rw h.named (run_with_mmap_on_file-lines ps true)
  run-agree mmap2 ps = rw h.named (run_with_mmap_on_file-lines ps false)
