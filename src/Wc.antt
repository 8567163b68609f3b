-- ===== src/Wc.antt =====
-- applications/wc-go/processing: the line processors (line_processors.go), and the strategies that
-- feed them (input_processors.go). The standard library and the system calls are parameters.
pub mod Lines
pub mod Counting
pub mod Strategies
pub mod Command
mod Tests
use Prim.Native.String.{String}
use performance_handbook.Base.{
  ℕ, zero, suc, ◌+◌, ◌-◌, Bool, true, false, not, ◌&&◌, ◌||◌, List, [], ◌∷◌, ◌++◌, Option, none,
  some, Bytes, length, get_or, take, drop, ltb, ◌==◌, if◌then◌else◌, ◌>>=◌,
}

abbrev pub newline : ℕ
newline = 10

abbrev pub carriage_return : ℕ
carriage_return = 13

-- `isSpace`
pub is_space : ℕ → Bool
is_space r = r == 32 || r == 9 || r == newline || r == 11 || r == 12 || r == carriage_return

-- The implementations of `LineProcessor`, each with its counter.
pub data LineProcessor : Type 0 where
  word_counter line_counter char_counter : ℕ → LineProcessor

-- `Count`
unfoldable pub count : LineProcessor → ℕ
count (word_counter n) = n
count (line_counter n) = n
count (char_counter n) = n

-- What one round of the loop of `WordCountProcessor.Process` does to `inWord` and `words`.
pub word_round : ℕ → Bool → ℕ → Bool × ℕ
word_round r in_word words =
    if is_space r
    then (false, words)
    else if not in_word
    then (true, words + 1)
    else (in_word, words)

-- `data[start:end]`
abbrev pub slice : Bytes → ℕ → ℕ → Bytes
slice text start end = take (end - start) (drop start text)

-- Where the line ends that the newline at `i` closes: before it, and before a carriage return.
pub line_end : Bytes → ℕ → ℕ → ℕ
line_end text start i = if ltb start i && get_or text (i - 1) 0 == carriage_return then i - 1 else i

-- What a call of `Read` reports with its bytes.
pub data Error : Type 0 where
  reader_nil path_empty path_required unknown_processor : Error
  not_exist : Error
  invalid_path open_failed : Error → Error
  system : ℕ → Error

pub data Result {ℓ} (A : Type ℓ) : Type ℓ where
  ok : A → Result A
  err : Error → Result A

pub data ReadEnd : Type 0 where
  more eof : ReadEnd
  fault : Error → ReadEnd

-- What the operating system and the standard library answer. A reader is named by a number.
pub record System : Type 0 where
  -- `os.IsNotExist` of the error of `os.Stat`
  pub is_not_exist : String → Bool
  pub stdin : ℕ
  pub open_file : String → Result ℕ
  pub read_file : String → Result Bytes
  pub read_all : ℕ → Result Bytes
  -- the results of successive calls of `Read` on a `bufio.Reader` over the reader
  pub reads : ℕ → List (Bytes × ReadEnd)
  pub file_size : ℕ → Result ℕ
  pub mmap : ℕ → ℕ → Result Bytes
  -- the tokens and the error of a `bufio.Scanner` over the reader, and over bytes in memory
  pub scan : ℕ → List Bytes × Option Error
  pub scan_bytes : Bytes → List Bytes × Option Error

-- The processors afterwards, and the error that is returned; `none` when a loop does not end.
abbrev pub Outcome : Type 0
Outcome = Option (List LineProcessor × Option Error)

abbrev pub Processors : Type 0
Processors = List LineProcessor

-- `runWithBufferringOnReader`'s loop: `buffer` grows until a read reports the end or an error.
pub fill_buffer : List (Bytes × ReadEnd) → Bytes → Option (Result Bytes)
fill_buffer [] buffer = none
fill_buffer ((chunk, more) ∷ rest) buffer = fill_buffer rest (buffer ++ chunk)
fill_buffer ((chunk, eof) ∷ rest) buffer = some (ok (buffer ++ chunk))
fill_buffer ((chunk, fault e) ∷ rest) buffer = some (err e)

-- `utf8.DecodeRune` is `decode`: the first rune of the bytes, and how many bytes it takes.
module _ (decode : Bytes → ℕ × ℕ) where
  -- A round for each unit of fuel; `none` when the loop has not ended by then.
  pub word_loop : ℕ → Bytes → Bool → ℕ → Option ℕ
  word_loop fuel [] in_word words = some words
  word_loop zero (b ∷ bs) in_word words = none
  word_loop (suc fuel) (b ∷ bs) in_word words =
      let (r, size) = decode (b ∷ bs) in
      let (in_word', words') = word_round r in_word words in
      word_loop fuel (drop size (b ∷ bs)) in_word' words'

  pub char_loop : ℕ → Bytes → ℕ → Option ℕ
  char_loop fuel [] n = some n
  char_loop zero (b ∷ bs) n = none
  char_loop (suc fuel) (b ∷ bs) n =
      let (_, size) = decode (b ∷ bs) in char_loop fuel (drop size (b ∷ bs)) (n + 1)

  -- `Process` of each implementation
  pub process : LineProcessor → Bytes → Option LineProcessor
  unfolding word_loop char_loop
  process (word_counter n) line = do
    words ← word_loop (length line) line false 0
    some (word_counter (n + words))
  process (line_counter n) line = some (line_counter (n + 1))
  process (char_counter n) line = do
    chars ← char_loop (length line) line 0
    some (char_counter (n + chars))

  -- `for _, processor := range lineProcessors { processor.Process(line) }`
  pub feed : Processors → Bytes → Option Processors
  feed [] line = some []
  feed (p ∷ ps) line = do p' ← process p line; ps' ← feed ps line; some (p' ∷ ps')

  -- The loop of `processBytes` over `data`, whose unread part is `rest`: `start` and the processors.
  pub newline_loop : Bytes → Bytes → ℕ → ℕ → Processors → Option (ℕ × Processors)
  newline_loop text [] i start ps = some (start, ps)
  newline_loop text (b ∷ rest) i start ps = elim (b == newline) [
    | true ↦ do
      ps' ← feed ps (slice text start (line_end text start i))
      newline_loop text rest (i + 1) (i + 1) ps'
    | false ↦ newline_loop text rest (i + 1) start ps
  ]

  pub last_line : Bytes → ℕ × Processors → Option Processors
  last_line text (start, ps) =
      if ltb start (length text) then feed ps (drop start text) else some ps

  pub process_bytes : Bytes → Processors → Option Processors
  unfolding newline_loop last_line
  process_bytes text ps =
      if length text == 0 then some ps else newline_loop text text 0 0 ps >>= last_line text

  -- `for scanner.Scan() { … }`
  pub feed_all : Processors → List Bytes → Option Processors
  feed_all ps [] = some ps
  feed_all ps (line ∷ lines) = do ps' ← feed ps line; feed_all ps' lines
