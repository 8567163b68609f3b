-- ===== src/Wc/Counting/Decode.antt =====
-- The loops of the processors over one line, in terms of its runes.
use performance_handbook.Base.{
  ℕ, zero, suc, ◌+◌, ◌≤◌, ◌<◌, ◌≡◌, refl, sym, ap, ap₂, subst, ◌∙◌, Bool, true, false, List, [],
  ◌∷◌, ◌++◌, some, arith, Bytes, length, drop, if◌then◌else◌, length-drop, drop-append,
}
use performance_handbook.Wc.{is_space, word_round, word_loop, char_loop}
use performance_handbook.Wc.Counting.{IsDecodeRune, Runes, end, rune, words_from, bit}
use performance_handbook.Wc.Counting.Marks.{under_way}

-- How many words begin, when `in_word` says whether one is under way.
unfoldable pub starts : Bool → List ℕ → ℕ
starts in_word [] = 0
starts in_word (r ∷ rs) = elim (is_space r) [
  | true ↦ starts false rs
  | false ↦ bit (if in_word then false else true) + starts true rs
]

pub length-words_from :
    (cur rs : List ℕ) → length (words_from cur rs) ≡ bit (under_way cur) + starts (under_way cur) rs
unfolding words_from starts
length-words_from [] [] = refl
length-words_from (c ∷ cs) [] = refl
length-words_from [] (r ∷ rs) =
    ground (arith, length-words_from [] rs, length-words_from (r ∷ []) rs)
length-words_from (c ∷ cs) (r ∷ rs) =
    ground (arith, length-words_from [] rs, length-words_from (c ∷ cs ++ r ∷ []) rs)

pub starts-append :
    (in_word : Bool) (xs ys : List ℕ) (c : ℕ)
    → is_space c ≡ true
    → starts in_word (xs ++ c ∷ ys) ≡ starts in_word xs + starts false ys
unfolding starts
starts-append in_word [] ys c h = ground arith
starts-append in_word (r ∷ rs) ys c h =
    ground (arith, starts-append false rs ys c h, starts-append true rs ys c h)

module _ (decode : Bytes → ℕ × ℕ) (d : IsDecodeRune decode) where
  -- A round takes at least a byte, so a unit of fuel for each byte is enough.
  room_left :
      {b r size fuel : ℕ} {bs : Bytes}
      → decode (b ∷ bs) ≡ (r, size)
      → length (b ∷ bs) ≤ suc fuel
      → length (drop size (b ∷ bs)) ≤ fuel
  room_left {b} {size} {bs} e h =
      omega (arith, length-drop size (b ∷ bs), d.size_pos b bs, ap (λ p. p.1) e)

  pub word_loop-Runes :
      {line : Bytes} {rs : List ℕ}
      → Runes decode line rs
      → (fuel n : ℕ) (in_word : Bool) → length line ≤ fuel
      → word_loop decode fuel line in_word n ≡ some (n + starts in_word rs)
  unfolding word_loop starts word_round
  word_loop-Runes end fuel n in_word h = ground arith
  word_loop-Runes (rune e t) zero n in_word h = absurd (omega arith)
  word_loop-Runes (rune {b} {r} {size} {bs} e t) (suc fuel) n in_word h =
      let room : length (drop size (b ∷ bs)) ≤ fuel = room_left e h in
      rw (e, word_loop)
        (ground (
          arith,
          word_loop-Runes t fuel n false room,
          word_loop-Runes t fuel n true room,
          word_loop-Runes t fuel (n + 1) true room,
        ))

  pub char_loop-Runes :
      {line : Bytes} {rs : List ℕ}
      → Runes decode line rs
      → (fuel n : ℕ) → length line ≤ fuel
      → char_loop decode fuel line n ≡ some (n + length rs)
  unfolding char_loop
  char_loop-Runes end fuel n h = ground arith
  char_loop-Runes (rune e t) zero n h = absurd (omega arith)
  char_loop-Runes (rune {b} {r} {size} {bs} e t) (suc fuel) n h =
      rw (e, char_loop) (ground (arith, char_loop-Runes t fuel (n + 1) (room_left e h)))

  pub Runes-exist :
      (fuel : ℕ) (text : Bytes) → length text ≤ fuel → (rs : List ℕ) × Runes decode text rs
  Runes-exist fuel [] h = ([], end)
  Runes-exist zero (b ∷ bs) h = absurd (omega arith)
  Runes-exist (suc fuel) (b ∷ bs) h =
      let (rs, t) = Runes-exist fuel (drop (decode (b ∷ bs)).1 (b ∷ bs)) (room_left refl h) in
      ((decode (b ∷ bs)).0 ∷ rs, rune refl t)

  pub Runes-unique :
      {text : Bytes} {rs qs : List ℕ} → Runes decode text rs → Runes decode text qs → rs ≡ qs
  Runes-unique end end = refl
  Runes-unique (rune {b} {r} {size} {bs} {rs} e t) (rune {r = r'} {size = size'} {rs = rs'} e' t') =
      let same : size' ≡ size = ap (λ p. p.1) (sym e' ∙ e) in
      let tails : rs ≡ rs' =
        Runes-unique t (subst (λ s. Runes decode (drop s (b ∷ bs)) rs') same t') in
      ap₂ ◌∷◌ (ap (λ p. p.0) (sym e ∙ e')) tails

  -- A line and what follows an ASCII byte behind it are decoded apart.
  pub Runes-join :
      {line rest : Bytes} {rs qs : List ℕ} {c : ℕ}
      → c < 128
      → Runes decode line rs
      → Runes decode rest qs
      → Runes decode (line ++ c ∷ rest) (rs ++ c ∷ qs)
  Runes-join {rest} {c} h end u = rune (d.ascii c rest h) u
  Runes-join {rest} {rs = all} {qs} {c} h (rune {b} {r} {size} {bs} {rs} e t) u =
      let le : size ≤ length (b ∷ bs) = omega (arith, d.size_le b bs, ap (λ p. p.1) e) in
      rune {rs = rs ++ c ∷ qs} (d.ascii_ends b bs c rest h ∙ e)
        (rw (drop-append size (b ∷ bs) (c ∷ rest) le) (Runes-join h t u))
