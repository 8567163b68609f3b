-- ===== src/Wc/Command/Printing.antt =====
-- What the command prints for a file.
use Prim.Native.String.{String}
use performance_handbook.Base.{ℕ, ◌+◌, ◌≡◌, refl, sym, ◌∙◌, List, [], ◌∷◌, some, Bytes, length}
use performance_handbook.Wc.{System, count, feed_all}
use performance_handbook.Wc.Lines.{lines, process_bytes-lines}
use performance_handbook.Wc.Counting.{
  IsDecodeRune, Runes, words, newlines, crlfs, open_lines, tallies,
}
use performance_handbook.Wc.Counting.Totals.{process_bytes-tallies}
use performance_handbook.Wc.Strategies.Agree.{Strategy, strategy_name, Holds, run-agree}
use performance_handbook.Wc.Command.{printed, line_processors, report, run_command}

module _ (decode : Bytes → ℕ × ℕ) (d : IsDecodeRune decode) where
  -- For a file that can be named, found, opened, read and mapped without an error, with a text of
  -- which `bufio.Scanner` reports the lines, and with any of the five processors: the command
  -- prints the number of its lines, with a last one that no newline ends, that of its words, and
  -- that of its characters, which are its runes but for the newlines and the carriage returns
  -- before them.
  pub command_prints_counts :
      (s : Strategy) {sys : System} {path : String} {text : Bytes} {rs : List ℕ}
      → Holds sys path text
      → Runes decode text rs
      → (chars : ℕ) × (run_command decode sys (strategy_name s) (path ∷ [])
          ≡ some
              (printed ((newlines text + open_lines text) ∷ length (words rs) ∷ chars ∷ []) path))
        × (chars + newlines text + crlfs text ≡ length rs)
  unfolding run_command report count
  command_prints_counts s {sys} {path} {text} {rs} h t =
      let (chars, counted, sum) = process_bytes-tallies decode d text t in
      let fed : feed_all decode line_processors (lines text)
          ≡ some (tallies (newlines text + open_lines text) (length (words rs)) chars) =
        sym (process_bytes-lines decode text line_processors) ∙ counted in
      (chars, rw (run-agree decode h s line_processors, fed) refl, sum)
