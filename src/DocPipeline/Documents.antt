-- ===== src/DocPipeline/Documents.antt =====
-- internal/tokenize/tokenize.go and internal/embed/embed.go: the functions of the stages
-- between loading and indexing.
pub mod Vectors
use Prim.Native.String.{String}
use mathlib.Core.List.{map}
use performance_handbook.Base.{
  ℕ, zero, suc, ◌+◌, ◌%◌, Bool, true, false, not, List, [], ◌∷◌, Option, none, some, Bytes,
  replicate, get_or, length, ltb, ◌==◌, if◌then◌else◌, ◌>>=◌,
}
use performance_handbook.Base.Int.{ℤ, pos, pos_part, ltb_ℤ}
use performance_handbook.DocPipeline.Load.{Document}

pub record TokenizedDoc : Type 0 where
  pub id : String
  pub tokens : List Bytes

abbrev pub is_empty : Bytes → Bool
is_empty [] = true
is_empty (b ∷ bs) = false

-- The loop of `Tokenize` over the fields
pub tokens_of : List Bytes → List Bytes
tokens_of [] = []
tokens_of (f ∷ fs) = if is_empty f then tokens_of fs else f ∷ tokens_of fs

-- `Tokenize`, which has no error; `to_lower` is `strings.ToLower`, and `letter_fields` is
-- `strings.FieldsFunc` at the non-letters.
pub tokenize : (Bytes → Bytes) → (Bytes → List Bytes) → Document → TokenizedDoc
unfolding tokens_of
tokenize to_lower letter_fields doc = record {
  id = doc.id;
  tokens = if is_empty doc.text then [] else tokens_of (letter_fields (to_lower doc.text));
}

-- The operations of `float32`, and those of `float64` that `normalize` rounds: `root` is
-- `float32(math.Sqrt(float64(...)))`.
pub record Floats {ℓ} (F : Type ℓ) : Type ℓ where
  pub nought : F
  pub one : F
  pub minus_one : F
  pub plus : F → F → F
  pub minus : F → F → F
  pub times : F → F → F
  pub over : F → F → F
  pub root : F → F
  pub at_least : F → F → Bool  -- `>=`
  pub above : F → F → Bool  -- `>`

pub record EmbeddedDoc {ℓ} (F : Type ℓ) : Type ℓ where
  pub id : String
  pub embedding : List F

-- `vec[i] += v`, for an index in range
abbrev pub add_at {ℓ} : {F : Type ℓ} → (F → F → F) → List F → ℕ → F → List F
add_at plus [] i v = []
add_at plus (x ∷ xs) zero v = plus x v ∷ xs
add_at plus (x ∷ xs) (suc i) v = x ∷ add_at plus xs i v

module _ {ℓ} {F : Type ℓ} (floats : Floats F) where
  -- The loop of `Embed`, for the hashes of the terms; `none` is a panic: `% 0`, or an index out of
  -- range.
  pub accumulate : ℤ → List F → List ℕ → Option (List F)
  accumulate dim vec [] = some vec
  accumulate dim vec (h ∷ hs) =
      let n = pos_part dim in
      let sign = if h % 2 == 1 then floats.minus_one else floats.one in
      if n == 0
      then none
      else if ltb (h % n) (length vec)
      then accumulate dim (add_at floats.plus vec (h % n) sign) hs
      else none

  pub sum_of_squares : F → List F → F
  sum_of_squares sum [] = sum
  sum_of_squares sum (v ∷ vs) = sum_of_squares (floats.plus sum (floats.times v v)) vs

  pub divide_all : F → List F → List F
  divide_all norm [] = []
  divide_all norm (v ∷ vs) = floats.over v norm ∷ divide_all norm vs

  -- `normalize`
  pub normalize : List F → List F
  unfolding sum_of_squares divide_all
  normalize vec = divide_all (floats.root (sum_of_squares floats.nought vec)) vec

  -- `Embed`, which has no error; `hash` is `Hash`. `make` of a negative length is a panic, `none`.
  pub embed : (Bytes → ℕ) → ℤ → TokenizedDoc → Option (EmbeddedDoc F)
  unfolding accumulate normalize
  embed hash dim doc = if ltb_ℤ dim (pos 0) then none else (do
    vec ← accumulate dim (replicate (pos_part dim) floats.nought) (map hash doc.tokens)
    some (record { id = doc.id; embedding = normalize vec }))
