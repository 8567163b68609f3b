-- ===== src/Netpoller/Batches.antt =====
-- The batches of the client cover the connections that it is asked for.
use performance_handbook.Base.{
  ℕ, zero, suc, ◌+◌, ◌-◌, ◌≤◌, ◌<◌, ◌≡◌, inl, inr, refl, ap₂, sym, ap, ◌∙◌, List, [], ◌∷◌, ◌++◌,
  append-nil, concat, Option, none, some, length, ltb, arith, All, Bool-cases,
}
use performance_handbook.Base.Int.{pos, negsuc}
use performance_handbook.Base.Totals.{total, total-append, filter_map, filter_map-append, SameItems}
use performance_handbook.Netpoller.{batch_size, rounds, batch_end, batches_from, batches, hold}

rounds-append : (i a b : ℕ) → rounds i a ++ rounds (i + a) b ≡ rounds i (a + b)
unfolding rounds
rounds-append i zero b = ap₂ (λ j k. rounds j k) (omega arith) (omega arith)
rounds-append i (suc a) b =
    ap (λ rest. i ∷ (rounds (i + 1) a ++ rest)) (ap (λ j. rounds j b) (omega arith))
    ∙ (ap (◌∷◌ i) (rounds-append (i + 1) a b) ∙ ap (rounds i) shifted)
  where
    shifted : suc (a + b) ≡ suc a + b
    shifted = omega arith

length-rounds : (i count : ℕ) → length (rounds i count) ≡ count
unfolding rounds
length-rounds i zero = refl
length-rounds i (suc count) = ap (λ k. suc k) (length-rounds (i + 1) count)

-- One batch, and what comes behind it.
batch_joins :
    (n start : ℕ)
    → start < n
    → rounds start (batch_end n start - start)
        ++ rounds (start + batch_size) (n - (start + batch_size))
      ≡ rounds start (n - start)
unfolding batch_end rounds
batch_joins n start h = elim (Bool-cases (ltb n (start + batch_size))) [
  | inl last_one ↦
      let none_left : n - (start + batch_size) ≡ 0 = ground arith in
      rw (last_one, none_left) (append-nil (rounds start (n - start)))
  | inr more ↦
      let whole : start + batch_size - start ≡ batch_size = omega arith in
      let sum : batch_size + (n - (start + batch_size)) ≡ n - start = ground arith in
      rw (more, whole, sym sum) (rounds-append start batch_size (n - (start + batch_size)))
]

batch_short : (n start : ℕ) → batch_end n start - start ≤ batch_size
unfolding batch_end
batch_short n start = ground arith

-- With enough fuel, the batches from `start` on.
from_start :
    (fuel n start : ℕ)
    → n - start ≤ fuel
    → (concat (batches_from fuel n start) ≡ rounds start (n - start))
      × All (λ batch. length batch ≤ batch_size) (batches_from fuel n start)
unfolding batches_from rounds
from_start zero n start h =
    let none_left : n - start ≡ 0 = omega (arith, h) in (rw none_left refl, tt)
from_start (suc fuel) n start h = elim (Bool-cases (ltb start n)) [
  | inl more ↦
      let (joined, short) = from_start fuel n (start + batch_size) (omega (arith, h)) in
      rw more (
        ap (λ rest. rounds start (batch_end n start - start) ++ rest) joined
            ∙ batch_joins n start (ground arith),
        (
          omega (arith, length-rounds start (batch_end n start - start), batch_short n start),
          short,
        ),
      )
  | inr over ↦ let none_left : n - start ≡ 0 = ground arith in rw (over, none_left) (refl, tt)
]

module _ {ℓ} {Conn : Type ℓ} (dial : ℕ → Option Conn) (finish : List ℕ → List Conn → List Conn)
    (reorders : (batch : List ℕ) (opened : List Conn)
      → SameItems (finish batch opened) opened) where
  hold-total :
      (w : Conn → ℕ) (bs : List (List ℕ)) (conns : List Conn)
      → total w (hold dial finish bs conns) ≡ total w conns + total w (filter_map dial (concat bs))
  unfolding hold
  hold-total w [] conns = omega arith
  hold-total w (batch ∷ bs) conns =
      let opened = filter_map dial batch in
      omega (
        arith,
        hold-total w bs (conns ++ finish batch opened),
        total-append w conns (finish batch opened),
        reorders batch opened w,
        total-append w opened (filter_map dial (concat bs)),
        ap (total w) (filter_map-append dial batch (concat bs)),
      )

  -- For any number of connections that is not negative: the batches are the rounds from 0 on, each
  -- once and in order, at most 200 in a batch; and whatever the dials of the rounds answer, in
  -- whatever order the goroutines of a batch come to an end, just the connections that were opened
  -- are held, each once. A negative number is a panic.
  pub holds_each :
      (n k : ℕ)
      → ((bs : List (List ℕ)) × (batches (pos n) ≡ some bs)
          × (concat bs ≡ rounds 0 n)
          × All (λ batch. length batch ≤ batch_size) bs
          × SameItems (hold dial finish bs []) (filter_map dial (rounds 0 n)))
        × (batches (negsuc k) ≡ none)
  unfolding batches
  holds_each n k =
      let bs = batches_from n n 0 in
      let (joined, short) = from_start n n 0 (omega arith) in
      let whole : concat bs ≡ rounds 0 n = joined ∙ ap (rounds 0) (omega arith) in
      (
        (
          bs,
          ground arith,
          whole,
          short,
          λ w. omega (arith, hold-total w bs [], ap (λ xs. total w (filter_map dial xs)) whole),
        ),
        ground arith,
      )
