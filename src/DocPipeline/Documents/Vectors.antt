-- ===== src/DocPipeline/Documents/Vectors.antt =====
-- What the two functions promise: tokens that are not empty, and vectors of the embedder's
-- dimension.
use mathlib.Core.List.{map}
use performance_handbook.Base.{
  ℕ, zero, suc, ◌%◌, ◌<◌, ◌≡◌, refl, ap, true, false, List, [], ◌∷◌, some, arith, Bytes, replicate,
  length, ltb, ◌==◌, if◌then◌else◌, All,
}
use performance_handbook.Base.Int.{pos, ltb_ℤ}
use performance_handbook.DocPipeline.Load.{Document}
use performance_handbook.DocPipeline.Documents.{
  TokenizedDoc, is_empty, tokens_of, tokenize, Floats, add_at, accumulate, divide_all, normalize,
  embed,
}

abbrev pub NotEmpty : Bytes → Type 0
NotEmpty text = is_empty text ≡ false

tokens_of-NotEmpty : (fs : List Bytes) → All NotEmpty (tokens_of fs)
unfolding tokens_of
tokens_of-NotEmpty [] = tt
tokens_of-NotEmpty ([] ∷ fs) = tokens_of-NotEmpty fs
tokens_of-NotEmpty ((b ∷ bs) ∷ fs) = (refl, tokens_of-NotEmpty fs)

tokens_of_whole : (fs : List Bytes) → All NotEmpty fs → tokens_of fs ≡ fs
unfolding tokens_of
tokens_of_whole [] h = refl
tokens_of_whole ([] ∷ fs) h = ground arith
tokens_of_whole ((b ∷ bs) ∷ fs) h = ap (◌∷◌ (b ∷ bs)) (tokens_of_whole fs h.1)

module _ {ℓ} {F : Type ℓ} (floats : Floats F) where
  length-add_at :
      (plus : F → F → F) (xs : List F) (i : ℕ) (v : F) → length (add_at plus xs i v) ≡ length xs
  length-add_at plus [] i v = refl
  length-add_at plus (x ∷ xs) zero v = refl
  length-add_at plus (x ∷ xs) (suc i) v = ap (λ n. suc n) (length-add_at plus xs i v)

  length-replicate : (n : ℕ) (x : F) → length (replicate n x) ≡ n
  length-replicate zero x = refl
  length-replicate (suc n) x = ap (λ k. suc k) (length-replicate n x)

  length-divide_all : (norm : F) (vec : List F) → length (divide_all floats norm vec) ≡ length vec
  unfolding divide_all
  length-divide_all norm [] = refl
  length-divide_all norm (v ∷ vs) = ap (λ k. suc k) (length-divide_all norm vs)

  length-normalize : (vec : List F) → length (normalize floats vec) ≡ length vec
  unfolding normalize
  length-normalize vec = length-divide_all _ vec

  in_range :
      (n x : ℕ) (vec : List F)
      → 0 < n
      → length vec ≡ n
      → ((n == 0) ≡ false) × (ltb (x % n) (length vec) ≡ true)
  in_range n x vec h e = let below : x % n < n = omega arith in (ground arith, ground arith)

  -- No index is out of range.
  accumulate_total :
      (n : ℕ) (vec : List F) (hs : List ℕ)
      → 0 < n
      → length vec ≡ n
      → (out : List F) × (accumulate floats (pos n) vec hs ≡ some out) × (length out ≡ n)
  unfolding accumulate
  accumulate_total n vec [] h e = (vec, refl, e)
  accumulate_total n vec (x ∷ hs) h e =
      let sign = if x % 2 == 1 then floats.minus_one else floats.one in
      let (out, made, long) =
        accumulate_total n (add_at floats.plus vec (x % n) sign) hs h
          (omega (arith, length-add_at floats.plus vec (x % n) sign)) in
      let (some_n, below) = in_range n x vec h e in (out, rw (some_n, below, made) refl, long)

  -- With a positive dimension, `Embed` does not panic, whatever the hash is, and answers the id of
  -- the document and a vector of that dimension.
  pub embed_total :
      (hash : Bytes → ℕ) (n : ℕ) (doc : TokenizedDoc)
      → 0 < n
      → (vec : List F) × (embed floats hash (pos n) doc
          ≡ some (record { id = doc.id; embedding = vec }))
        × (length vec ≡ n)
  unfolding embed
  embed_total hash n doc h =
      let (out, made, long) =
        accumulate_total n (replicate n floats.nought) (map hash doc.tokens) h
          (length-replicate n floats.nought) in
      let allowed : ltb_ℤ (pos n) (pos 0) ≡ false = ground arith in
      (normalize floats out, rw (allowed, made) refl, omega (arith, length-normalize out))

-- `Tokenize` keeps the id and gives tokens that are not empty; and where `FieldsFunc` gives no empty
-- field for this text, which is not empty, its tokens are all the fields, in order.
pub tokenize_whole :
    (to_lower : Bytes → Bytes) (letter_fields : Bytes → List Bytes) (doc : Document)
    → is_empty doc.text ≡ false
    → All NotEmpty (letter_fields (to_lower doc.text))
    → ((tokenize to_lower letter_fields doc).id ≡ doc.id)
      × ((tokenize to_lower letter_fields doc).tokens ≡ letter_fields (to_lower doc.text))
      × All NotEmpty (tokenize to_lower letter_fields doc).tokens
unfolding tokenize
tokenize_whole to_lower letter_fields doc some_text whole = (
  refl,
  rw some_text (tokens_of_whole _ whole),
  rw some_text (tokens_of-NotEmpty (letter_fields (to_lower doc.text))),
)
