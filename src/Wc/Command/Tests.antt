-- ===== src/Wc/Command/Tests.antt =====
-- The command on a file of two lines.
use performance_handbook.Base.{ℕ, ◌+◌, ◌≡◌, refl, [], ◌∷◌, some, codes, length}
use performance_handbook.Wc.Counting.{Runes, end, rune, words, newlines, crlfs, open_lines}
use performance_handbook.Wc.Tests.{ascii_decode, ascii_decode-IsDecodeRune}
use performance_handbook.Wc.Strategies.Agree.{mmap}
use performance_handbook.Wc.Strategies.Tests.{one_file, one_file-Holds}
use performance_handbook.Wc.Command.{printed, run_command}
use performance_handbook.Wc.Command.Printing.{command_prints_counts}

two_lines-Runes : Runes ascii_decode (codes "a\nb") (codes "a\nb")
two_lines-Runes = rune refl (rune refl (rune refl end))

command_prints_counts_example :
    (chars : ℕ) × (run_command ascii_decode one_file "mmap" ("f" ∷ [])
      ≡ some (
          printed
            ((newlines (codes "a\nb") + open_lines (codes "a\nb"))
              ∷ length (words (codes "a\nb"))
              ∷ chars
              ∷ [])
            "f"))
    × (chars + newlines (codes "a\nb") + crlfs (codes "a\nb") ≡ 3)
command_prints_counts_example =
    command_prints_counts ascii_decode ascii_decode-IsDecodeRune mmap one_file-Holds two_lines-Runes
