-- ===== src/Wc/Command.antt =====
-- applications/wc-go/cmd/cli.go: the command, with its argument and its flag.
pub mod Printing
mod Tests
use Prim.Native.String.{String}
use mathlib.Core.List.{map}
use performance_handbook.Base.{
  ℕ, zero, suc, ◌+◌, Bool, List, [], ◌∷◌, Option, none, some, Bytes, length, ltb, if◌then◌else◌,
  ◌>>=◌,
}
use performance_handbook.Wc.{
  Error, System, Processors, line_counter, word_counter, char_counter, count,
}
use performance_handbook.Wc.Strategies.{InputProcessor, run}

-- What the command ends with: the numbers and the path that it prints; `log.Fatalf`; or what cobra
-- reports, for more than one argument.
pub data Ending : Type 0 where
  printed : List ℕ → String → Ending
  fatal : Error → Ending
  too_many_arguments : Ending

-- The flag's value if it is not given
abbrev pub default_processor : String
default_processor = "not provided"

abbrev pub file_path : List String → String
file_path [] = ""
file_path (path ∷ more) = path

abbrev pub line_processors : Processors
line_processors = line_counter 0 ∷ word_counter 0 ∷ char_counter 0 ∷ []

unfoldable pub report : String → Processors × Option Error → Ending
report path (ps, none) = printed (map count ps) path
report path (ps, some e) = fatal e

-- The command; none when a loop does not end.
unfoldable pub run_command : (Bytes → ℕ × ℕ) → System → String → List String → Option Ending
run_command decode sys processor_type args =
    if ltb 1 (length args) then some too_many_arguments else do
      outcome ←
          run decode sys (record { processor_type = processor_type; file_path = file_path args })
            line_processors
      some (report (file_path args) outcome)
