-- ===== src/Wc/Counting.antt =====
-- What the three processors count: the terms in which the children state it.
pub mod Marks
mod Decode
pub mod Totals
use performance_handbook.Base.{
  ℕ, ◌+◌, ◌≤◌, ◌<◌, ◌≡◌, Bool, true, false, ◌&&◌, List, [], ◌∷◌, ◌++◌, Bytes, length, drop, ◌==◌,
  if◌then◌else◌,
}
use performance_handbook.Wc.{
  newline, carriage_return, is_space, word_counter, line_counter, char_counter, Processors,
}
use performance_handbook.Wc.Lines.{unfinished}

-- What the documentation of `utf8.DecodeRune` says: of bytes that are not empty it takes at least
-- one; an ASCII byte is a rune by itself; and no longer rune, valid or not, takes in an ASCII byte.
pub record IsDecodeRune (decode : Bytes → ℕ × ℕ) : Type 0 where
  pub size_pos : (b : ℕ) (bs : Bytes) → 1 ≤ (decode (b ∷ bs)).1
  pub size_le : (b : ℕ) (bs : Bytes) → (decode (b ∷ bs)).1 ≤ length (b ∷ bs)
  pub ascii : (b : ℕ) (bs : Bytes) → b < 128 → decode (b ∷ bs) ≡ (b, 1)
  pub ascii_ends :
      (b : ℕ) (bs : Bytes) (c : ℕ) (rest : Bytes)
      → c < 128
      → decode ((b ∷ bs) ++ c ∷ rest) ≡ decode (b ∷ bs)

-- `Runes decode text rs`: the text is the encoding of the runes `rs`, one after another.
pub data Runes (decode : Bytes → ℕ × ℕ) : Bytes → List ℕ → Type 0 where
  end : Runes decode [] []
  rune :
      {b r size : ℕ} {bs : Bytes} {rs : List ℕ}
      → decode (b ∷ bs) ≡ (r, size)
      → Runes decode (drop size (b ∷ bs)) rs
      → Runes decode (b ∷ bs) (r ∷ rs)

-- The words of a text: its longest runs of runes that are no spaces.
pub words_from : List ℕ → List ℕ → List (List ℕ)
words_from cur [] = unfinished cur
words_from cur (r ∷ rs) = elim (is_space r) [
  | true ↦ unfinished cur ++ words_from [] rs
  | false ↦ words_from (cur ++ r ∷ []) rs
]

pub words : List ℕ → List (List ℕ)
words = words_from []

abbrev pub bit : Bool → ℕ
bit b = if b then 1 else 0

-- Newlines, carriage returns that stand before a newline, and whether text follows the last newline.
pub newlines : Bytes → ℕ
newlines [] = 0
newlines (b ∷ bs) = bit (b == newline) + newlines bs

pub crlfs : Bytes → ℕ
crlfs [] = 0
crlfs (a ∷ []) = 0
crlfs (a ∷ b ∷ bs) = bit (a == carriage_return && b == newline) + crlfs (b ∷ bs)

pub open_lines : Bytes → ℕ
open_lines [] = 0
open_lines (a ∷ []) = if a == newline then 0 else 1
open_lines (a ∷ b ∷ bs) = open_lines (b ∷ bs)

-- The list of processors that `cmd/cli.go` builds, with what they have counted.
abbrev pub tallies : ℕ → ℕ → ℕ → Processors
tallies l w c = line_counter l ∷ word_counter w ∷ char_counter c ∷ []
