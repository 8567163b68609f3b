-- ===== src/Wc/Counting/Marks.antt =====
-- Newlines and carriage returns: how `lines` treats them.
use performance_handbook.Base.{
  ℕ, ◌+◌, ◌≡◌, ◌≢◌, refl, Bool, true, false, List, [], ◌∷◌, ◌++◌, arith, Bytes, length, ◌==◌,
  if◌then◌else◌, All,
}
use performance_handbook.Wc.{newline, carriage_return}
use performance_handbook.Wc.Lines.{lines_from, lines}
use performance_handbook.Wc.Counting.{bit, newlines, crlfs, open_lines}

abbrev pub under_way : List ℕ → Bool
under_way [] = false
under_way (c ∷ cs) = true

pub under_way-snoc : (cs : List ℕ) (c : ℕ) → under_way (cs ++ c ∷ []) ≡ true
under_way-snoc [] c = refl
under_way-snoc (d ∷ cs) c = refl

abbrev pub ends_cr : Bytes → ℕ
ends_cr [] = 0
ends_cr (a ∷ []) = bit (a == carriage_return)
ends_cr (a ∷ b ∷ bs) = ends_cr (b ∷ bs)

pub ends_cr-snoc : (ys : Bytes) (y : ℕ) → ends_cr (ys ++ y ∷ []) ≡ bit (y == carriage_return)
ends_cr-snoc [] y = refl
ends_cr-snoc (a ∷ []) y = refl
ends_cr-snoc (a ∷ b ∷ bs) y = ends_cr-snoc (b ∷ bs) y

abbrev pub OneLine : Bytes → Type 0
OneLine = All (λ c. c ≢ newline)

pub crlfs-OneLine : (cur : Bytes) → OneLine cur → crlfs cur ≡ 0
unfolding crlfs
crlfs-OneLine [] h = refl
crlfs-OneLine (a ∷ []) h = refl
crlfs-OneLine (a ∷ b ∷ bs) h = ground (arith, crlfs-OneLine (b ∷ bs) h.1)

crlfs-newline : (rest : Bytes) → crlfs (newline ∷ rest) ≡ crlfs rest
unfolding crlfs
crlfs-newline [] = refl
crlfs-newline (b ∷ bs) = omega arith

pub crlfs-append :
    (cur rest : Bytes) → OneLine cur → crlfs (cur ++ newline ∷ rest) ≡ ends_cr cur + crlfs rest
unfolding crlfs
crlfs-append [] rest h = omega (arith, crlfs-newline rest)
crlfs-append (a ∷ []) rest h = ground (arith, crlfs-newline rest)
crlfs-append (a ∷ b ∷ bs) rest h = ground (arith, crlfs-append (b ∷ bs) rest h.1)

-- Whether text follows the last newline, when `cur` says whether some has been read.
open_tail : Bool → Bytes → ℕ
open_tail cur [] = bit cur
open_tail cur (b ∷ bs) = open_tail (if b == newline then false else true) bs

open_tail-open_lines :
    (cur : Bool) (b : ℕ) (bs : Bytes) → open_tail cur (b ∷ bs) ≡ open_lines (b ∷ bs)
unfolding open_tail open_lines
open_tail-open_lines cur b [] = ground arith
open_tail-open_lines cur b (c ∷ bs) =
    open_tail-open_lines (if b == newline then false else true) c bs

length-lines_from :
    (rest cur : Bytes)
    → length (lines_from cur rest) ≡ newlines rest + open_tail (under_way cur) rest
unfolding lines_from newlines open_tail
length-lines_from [] [] = refl
length-lines_from [] (c ∷ cs) = refl
length-lines_from (b ∷ rest) cur =
    ground (
      arith,
      length-lines_from rest [],
      length-lines_from rest (cur ++ b ∷ []),
      under_way-snoc cur b,
    )

-- For every text: as many lines as newlines, and one more if text follows the last of them.
pub length-lines : (text : Bytes) → length (lines text) ≡ newlines text + open_lines text
unfolding lines
length-lines [] = unfold lines_from newlines open_lines in refl
length-lines (b ∷ bs) =
    omega (arith, length-lines_from (b ∷ bs) [], open_tail-open_lines false b bs)
