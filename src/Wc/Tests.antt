-- ===== src/Wc/Tests.antt =====
-- Runs of the word counter, and the theorems at concrete texts.
use performance_handbook.Base.{ℕ, ◌≡◌, refl, [], ◌∷◌, some, arith, Bytes, codes, ltb, if◌then◌else◌}
use performance_handbook.Wc.{
  word_counter, process, feed, process_bytes, line_end, word_round, is_space, feed_all,
}
use performance_handbook.Wc.Lines.{lines, process_bytes-lines}
use performance_handbook.Wc.Counting.{IsDecodeRune, Runes, end, rune, tallies}

-- A decoder for ASCII texts: any other byte is an error of one byte.
abbrev pub ascii_decode : Bytes → ℕ × ℕ
ascii_decode [] = (0xfffd, 0)
ascii_decode (b ∷ bs) = (if ltb b 128 then b else 0xfffd, 1)

pub ascii_decode-IsDecodeRune : IsDecodeRune ascii_decode
ascii_decode-IsDecodeRune = record {
  size_pos = λ b bs. omega arith;
  size_le = λ b bs. omega arith;
  ascii = λ b bs h. ground arith;
  ascii_ends = λ b bs c rest h. refl;
}

two_lines : process_bytes ascii_decode (codes "ab c\r\nd") (tallies 0 0 0) ≡ some (tallies 2 3 5)
unfolding process_bytes feed process line_end word_round is_space
two_lines = refl

process_bytes-lines_example :
    process_bytes ascii_decode (codes "a\r\nb") (word_counter 7 ∷ [])
    ≡ feed_all ascii_decode (word_counter 7 ∷ []) (lines (codes "a\r\nb"))
process_bytes-lines_example =
    process_bytes-lines ascii_decode (codes "a\r\nb") (word_counter 7 ∷ [])

abbrev crlf_text : Bytes
crlf_text = codes "a\r\nb"

crlf_text-Runes : Runes ascii_decode crlf_text crlf_text
crlf_text-Runes = rune refl (rune refl (rune refl (rune refl end)))
