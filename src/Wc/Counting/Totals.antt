-- ===== src/Wc/Counting/Totals.antt =====
-- What the three processors have counted when `processBytes` returns.
use performance_handbook.Base.{
  ℕ, ◌+◌, ◌≡◌, ◌≢◌, refl, ap, ◌∙◌, inl, inr, false, List, [], ◌∷◌, ◌++◌, append_assoc, append-nil,
  some, arith, Bytes, length, ◌==◌, ==_iff, length-append, snoc_cases, Bool-cases, All-append,
  le_refl,
}
use performance_handbook.Wc.{
  newline, carriage_return, is_space, process, feed, process_bytes, feed_all,
}
use performance_handbook.Wc.Lines.{drop_cr, drop_cr-snoc, lines_from, lines, process_bytes-lines}
use performance_handbook.Wc.Counting.{
  IsDecodeRune, Runes, end, words, newlines, crlfs, open_lines, tallies,
}
use performance_handbook.Wc.Counting.Marks.{
  ends_cr, ends_cr-snoc, OneLine, crlfs-OneLine, crlfs-append, length-lines,
}
use performance_handbook.Wc.Counting.Decode.{
  starts, length-words_from, starts-append, word_loop-Runes, char_loop-Runes, Runes-exist,
  Runes-unique, Runes-join,
}

module _ (decode : Bytes → ℕ × ℕ) (d : IsDecodeRune decode) where
  -- `rs` are the runes of a line without its carriage return: those of the whole line make as many
  -- words, and are one more if it has one.
  abbrev WholeLine : Bytes → List ℕ → Type 0
  WholeLine cur rs =
      (qs : List ℕ) × Runes decode cur qs
      × (starts false qs ≡ starts false rs)
      × (length qs ≡ length rs + ends_cr cur)

  drop_cr-Runes_snoc :
      (ys : Bytes) (y : ℕ) {rs : List ℕ}
      → Runes decode (drop_cr (ys ++ y ∷ [])) rs
      → WholeLine (ys ++ y ∷ []) rs
  unfolding starts is_space
  drop_cr-Runes_snoc ys y {rs} t = elim (Bool-cases (y == carriage_return)) [
    | inl cr ↦
        let e : y ≡ carriage_return = (==_iff y carriage_return).0 cr in
        let short : Runes decode ys rs = rw (drop_cr-snoc ys y, cr) at t in
        (
          rs ++ y ∷ [],
          Runes-join decode d (omega arith) short end,
          omega (arith, starts-append false rs [] y (rw e)),
          rw (ends_cr-snoc ys y, cr) (length-append rs (y ∷ [])),
        )
    | inr other ↦
        (rs, rw (drop_cr-snoc ys y, other) at t, refl, rw (ends_cr-snoc ys y, other) (omega arith))
  ]

  drop_cr-Runes : (cur : Bytes) {rs : List ℕ} → Runes decode (drop_cr cur) rs → WholeLine cur rs
  drop_cr-Runes cur {rs} t = elim (snoc_cases cur) [
    | inl e ↦ rw e (rs, unfold drop_cr in (rw e at t), refl, omega arith)
    | inr (ys, y, e) ↦ rw e (drop_cr-Runes_snoc ys y (rw e at t))
  ]

  feed-tallies :
      {line : Bytes} {rs : List ℕ} (l w c : ℕ)
      → Runes decode line rs
      → feed decode (tallies l w c) line
        ≡ some (tallies (l + 1) (w + starts false rs) (c + length rs))
  unfolding feed process
  feed-tallies {line} {rs} l w c t = ground (
    arith,
    word_loop-Runes decode d t (length line) 0 false (le_refl _),
    char_loop-Runes decode d t (length line) 0 (le_refl _),
  )

  -- What feeding the lines of `rest` does, of which `cur` has been read already.
  abbrev Tally : Bytes → Bytes → List ℕ → Type 0
  Tally rest cur rs =
      (l w c : ℕ)
      → (k : ℕ) × (feed_all decode (tallies l w c) (lines_from cur rest)
          ≡ some (tallies (l + length (lines_from cur rest)) (w + starts false rs) (c + k)))
        × (k + newlines rest + crlfs (cur ++ rest) ≡ length rs)

  newline_tallied :
      (rest cur : Bytes) (rs rs₁ qs rs₂ : List ℕ)
      → OneLine cur
      → Runes decode (drop_cr cur) rs₁
      → starts false qs ≡ starts false rs₁
      → length qs ≡ length rs₁ + ends_cr cur
      → rs ≡ qs ++ newline ∷ rs₂
      → Tally rest [] rs₂
      → Tally (newline ∷ rest) cur rs
  unfolding lines_from feed_all newlines is_space
  newline_tallied rest cur rs rs₁ qs rs₂ one t₁ st len e rec l w c =
      let (k, fed, sum) = rec (l + 1) (w + starts false rs₁) (c + length rs₁) in
      let split : starts false rs ≡ starts false rs₁ + starts false rs₂ =
        rw e (omega (arith, starts-append false qs rs₂ newline refl)) in
      (
        length rs₁ + k,
        rw (feed-tallies l w c t₁, feed_all) (ground (arith, fed, split)),
        omega
            (arith, sum, crlfs-append cur rest one, ap length e, length-append qs (newline ∷ rs₂)),
      )

  lines_from-Tally :
      (rest cur : Bytes) {rs : List ℕ}
      → OneLine cur
      → Runes decode (cur ++ rest) rs
      → Tally rest cur rs
  unfolding lines_from feed_all newlines starts
  lines_from-Tally [] [] one end = λ l w c. (0, ground arith, unfold crlfs in refl)
  lines_from-Tally [] (x ∷ xs) {rs} one t = λ l w c. (
    length rs,
    rw (feed-tallies l w c (rw (append-nil xs) at t)),
    rw (append-nil xs, crlfs-OneLine (x ∷ xs) one) (omega arith),
  )
  lines_from-Tally (b ∷ rest) cur {rs} one t = elim (Bool-cases (b == newline)) [
    | inl closes ↦
        let e : b ≡ newline = (==_iff b newline).0 closes in
        let (rs₁, t₁) = Runes-exist decode d _ (drop_cr cur) (le_refl _) in
        let (rs₂, t₂) = Runes-exist decode d _ rest (le_refl _) in
        let (qs, u, st, len) = drop_cr-Runes cur t₁ in
        let both : rs ≡ qs ++ newline ∷ rs₂ =
          Runes-unique decode d (rw e at t) (Runes-join decode d (omega arith) u t₂) in
        rw e (
          newline_tallied rest cur rs rs₁ qs rs₂ one t₁ st len both
            (lines_from-Tally rest [] tt t₂))
    | inr goes_on ↦
        let rec : Tally rest (cur ++ b ∷ []) rs =
          lines_from-Tally rest (cur ++ b ∷ [])
            (All-append (λ c. c ≢ newline) cur (b ∷ []) one (ground arith, tt))
            (rw (append_assoc cur (b ∷ []) rest) t) in
        λ l w c.
          let (k, fed, sum) = rec l w c in
          (k, ground (arith, fed), ground (arith, sum, append_assoc cur (b ∷ []) rest))
  ]

  -- For every text, valid UTF-8 or not, `processBytes` ends, and `wc` then shows: as many lines as
  -- newlines, and one more if text follows the last of them; as many words as the text as a whole
  -- has, though they are counted line by line; and as many characters as the text has runes, less
  -- one for each newline and one for each carriage return before a newline.
  pub process_bytes-tallies :
      (text : Bytes) {rs : List ℕ}
      → Runes decode text rs
      → (chars : ℕ) × (process_bytes decode text (tallies 0 0 0)
          ≡ some (tallies (newlines text + open_lines text) (length (words rs)) chars))
        × (chars + newlines text + crlfs text ≡ length rs)
  unfolding lines words
  process_bytes-tallies text {rs} t =
      let (k, fed, sum) = lines_from-Tally text [] tt t 0 0 0 in
      (
        k,
        process_bytes-lines decode text (tallies 0 0 0)
            ∙ ground (arith, fed, length-lines text, length-words_from [] rs),
        sum,
      )

  -- Every text is the encoding of exactly one list of runes: decoding never stops short of the end.
  pub Runes-total :
      (text : Bytes)
      → (rs : List ℕ) × Runes decode text rs × ((qs : List ℕ) → Runes decode text qs → rs ≡ qs)
  Runes-total text =
      let (rs, t) = Runes-exist decode d (length text) text (le_refl _) in
      (rs, t, λ qs u. Runes-unique decode d t u)
