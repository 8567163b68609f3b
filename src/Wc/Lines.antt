-- ===== src/Wc/Lines.antt =====
-- `processBytes` cuts the text into lines by positions. `lines` cuts it by its bytes alone.
use performance_handbook.Base.{
  ℕ, ◌+◌, ◌-◌, ◌≡◌, refl, ap, inl, inr, true, false, List, [], ◌∷◌, ◌++◌, append_assoc, append-nil,
  arith, Bytes, length, get_or, drop, ◌==◌, if◌then◌else◌, ◌>>=◌, length-append, take_exact,
  drop_exact, get_or_exact, snoc_cases, Bool-cases, >>=-some, Option-cases,
}
use performance_handbook.Wc.{
  newline, carriage_return, slice, line_end, Processors, feed, newline_loop, last_line,
  process_bytes, feed_all,
}

-- A line without the carriage return at its end.
unfoldable pub drop_cr : Bytes → Bytes
drop_cr [] = []
drop_cr (c ∷ []) = if c == carriage_return then [] else c ∷ []
drop_cr (c ∷ d ∷ cs) = c ∷ drop_cr (d ∷ cs)

-- Text behind the last newline is a line unless it is empty.
abbrev pub unfinished : Bytes → List Bytes
unfinished [] = []
unfinished (c ∷ cs) = (c ∷ cs) ∷ []

-- `cur` is the part of the present line that has been read.
unfoldable pub lines_from : Bytes → Bytes → List Bytes
lines_from cur [] = unfinished cur
lines_from cur (b ∷ bs) = elim (b == newline) [
  | true ↦ drop_cr cur ∷ lines_from [] bs
  | false ↦ lines_from (cur ++ b ∷ []) bs
]

-- The lines of a text: what stands before each newline, less a carriage return, and then what
-- stands behind the last newline, as it is, unless that is empty.
unfoldable pub lines : Bytes → List Bytes
lines = lines_from []

pub drop_cr-snoc :
    (cs : Bytes) (c : ℕ)
    → drop_cr (cs ++ c ∷ []) ≡ (if c == carriage_return then cs else cs ++ c ∷ [])
unfolding drop_cr
drop_cr-snoc [] c = refl
drop_cr-snoc (d ∷ []) c = ground (arith, drop_cr-snoc [] c)
drop_cr-snoc (d ∷ e ∷ cs) c = ground (arith, drop_cr-snoc (e ∷ cs) c)

slice_at :
    (pre cur rest text : Bytes) (start end : ℕ)
    → text ≡ pre ++ (cur ++ rest)
    → start ≡ length pre
    → end ≡ length pre + length cur
    → slice text start end ≡ cur
slice_at pre cur rest text start end e es ee =
    let n : end - start ≡ length cur = omega arith in
    rw (n, e, es, drop_exact pre (cur ++ rest)) (take_exact cur rest)

drop_at :
    (pre rest text : Bytes) (start : ℕ)
    → text ≡ pre ++ rest
    → start ≡ length pre
    → drop start text ≡ rest
drop_at pre rest text start e es = rw (es, e) (drop_exact pre rest)

get_or_last :
    (pre ys rest text : Bytes) (y i : ℕ)
    → text ≡ pre ++ ((ys ++ y ∷ []) ++ rest)
    → i ≡ length pre + length ys
    → get_or text i 0 ≡ y
get_or_last pre ys rest text y i e ei =
    let n : i ≡ length (pre ++ ys) = omega (arith, length-append pre ys) in
    let t : text ≡ (pre ++ ys) ++ y ∷ rest =
      cc (append_assoc pre ys (y ∷ rest), append_assoc ys (y ∷ []) rest) in
    rw (n, t) (get_or_exact (pre ++ ys) y rest 0)

slice-line_end-snoc :
    (pre ys : Bytes) (y : ℕ) (cur rest text : Bytes) (start i : ℕ)
    → cur ≡ ys ++ y ∷ []
    → text ≡ pre ++ (cur ++ rest)
    → start ≡ length pre
    → i ≡ length pre + length cur
    → slice text start (line_end text start i) ≡ drop_cr cur
unfolding line_end
slice-line_end-snoc pre ys y cur rest text start i f e es ei =
    let n : length cur ≡ length ys + 1 = omega (arith, ap length f, length-append ys (y ∷ [])) in
    let t : text ≡ pre ++ ((ys ++ y ∷ []) ++ rest) = rw (← f) e in
    let cut : text ≡ pre ++ (ys ++ y ∷ rest) = cc (append_assoc ys (y ∷ []) rest) in
    let last = get_or_last pre ys rest text y (i - 1) t (omega arith) in
    ground (
      arith,
      last,
      drop_cr-snoc ys y,
      slice_at pre cur rest text start i e es ei,
      slice_at pre ys (y ∷ rest) text start (i - 1) cut es,
    )

-- The slice that `processBytes` hands on is the line without its carriage return.
slice-line_end :
    (pre cur rest text : Bytes) (start i : ℕ)
    → text ≡ pre ++ (cur ++ rest)
    → start ≡ length pre
    → i ≡ length pre + length cur
    → slice text start (line_end text start i) ≡ drop_cr cur
unfolding line_end drop_cr
slice-line_end pre cur rest text start i e es ei = elim (snoc_cases cur) [
  | inl none_read ↦ rw none_read (ground (arith, ap length none_read))
  | inr (ys, y, f) ↦ slice-line_end-snoc pre ys y cur rest text start i f e es ei
]

module _ (decode : Bytes → ℕ × ℕ) where
  newline_loop-lines_from :
      (rest pre cur text : Bytes) (i start : ℕ) (ps : Processors)
      → text ≡ pre ++ (cur ++ rest)
      → i ≡ length pre + length cur
      → start ≡ length pre
      → (newline_loop decode text rest i start ps >>= last_line decode text)
        ≡ feed_all decode ps (lines_from cur rest)
  unfolding newline_loop last_line feed_all lines_from
  newline_loop-lines_from [] pre [] text i start ps e ei es =
      ground (arith, ap length e, length-append pre [], append-nil pre)
  newline_loop-lines_from [] pre (c ∷ cs) text i start ps e ei es =
      let t : text ≡ pre ++ c ∷ cs = cc (append-nil cs) in
      ground (
        arith,
        ap length t,
        length-append pre (c ∷ cs),
        drop_at pre (c ∷ cs) text start t es,
        >>=-some (feed decode ps (c ∷ cs)),
      )
  newline_loop-lines_from (b ∷ rest) pre cur text i start ps e ei es =
      elim (Bool-cases (b == newline)) [
        | inl closes ↦
            rw
              (
                closes,
                newline_loop,
                lines_from,
                slice-line_end pre cur (b ∷ rest) text start i e es ei,
              )
              (elim (Option-cases (feed decode ps (drop_cr cur))) [
                | inl loops ↦ rw loops
                | inr (ps', fed) ↦ rw fed (
                    newline_loop-lines_from rest (pre ++ (cur ++ b ∷ [])) [] text (i + 1) (i + 1)
                      ps' (simp append_assoc e)
                      (omega (arith, length-append pre (cur ++ b ∷ []), length-append cur (b ∷ [])))
                      (omega
                        (arith, length-append pre (cur ++ b ∷ []), length-append cur (b ∷ []))))
              ])
        | inr goes_on ↦
            rw (goes_on, newline_loop, lines_from)
              (newline_loop-lines_from rest pre (cur ++ b ∷ []) text (i + 1) start ps
                (simp append_assoc e) (omega (arith, length-append cur (b ∷ []))) es)
      ]

  -- For every text and all processors, `processBytes` hands the lines of the text to the processors
  -- in order, and nothing else: the positions that it keeps never cut a line at a wrong place.
  pub process_bytes-lines :
      (text : Bytes) (ps : Processors)
      → process_bytes decode text ps ≡ feed_all decode ps (lines text)
  unfolding process_bytes lines
  process_bytes-lines [] ps = unfold lines_from feed_all in refl
  process_bytes-lines (b ∷ bs) ps =
      ground (arith, newline_loop-lines_from (b ∷ bs) [] [] (b ∷ bs) 0 0 ps refl (omega arith) refl)
