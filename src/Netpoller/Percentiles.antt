-- ===== src/Netpoller/Percentiles.antt =====
-- The numbers of a burst.
use mathlib.Core.List.{map}
use performance_handbook.Base.{
  ℕ, zero, suc, ◌-◌, ◌≤◌, ◌<◌, ◌≡◌, refl, sym, ap, subst, ◌∙◌, false, List, [], ◌∷◌, Option, none,
  some, length, get_or, ltb, ◌==◌, arith, if◌then◌else◌, All,
}
use performance_handbook.Base.Totals.{total, total-one, SameItems}
use performance_handbook.Netpoller.{latency, get_elem?, pct, Burst, burst}

abbrev pub Sorted : List ℕ → Type 0
Sorted [] = Unit
Sorted (x ∷ xs) = All (λ y. x ≤ y) xs × Sorted xs

-- What `sort.Slice` does.
abbrev pub IsSort : (List ℕ → List ℕ) → Type 0
IsSort sort = (xs : List ℕ) → SameItems (sort xs) xs × Sorted (sort xs)

-- What the product with a factor between 0 and 1 does: it grows with the factor, and stays below the
-- number.
abbrev pub IsScaling : (ℕ → ℕ → ℕ) → Type 0
IsScaling scaled = (k : ℕ) → (scaled k 50 ≤ scaled k 99) × (scaled k 99 ≤ k)

get_or-All : (P : ℕ → Type 0) (xs : List ℕ) (i : ℕ) → i < length xs → All P xs → P (get_or xs i 0)
get_or-All P [] i h all = absurd (omega arith)
get_or-All P (x ∷ xs) zero h all = all.0
get_or-All P (x ∷ xs) (suc i) h all = get_or-All P xs i (omega arith) all.1

get_or-Sorted :
    (xs : List ℕ) (i j : ℕ) → Sorted xs → i ≤ j → j < length xs → get_or xs i 0 ≤ get_or xs j 0
get_or-Sorted [] i j s h k = absurd (omega arith)
get_or-Sorted (x ∷ xs) zero zero s h k = omega arith
get_or-Sorted (x ∷ xs) zero (suc j) s h k = get_or-All (λ y. x ≤ y) xs j (omega arith) s.0
get_or-Sorted (x ∷ xs) (suc i) zero s h k = absurd (omega arith)
get_or-Sorted (x ∷ xs) (suc i) (suc j) s h k = get_or-Sorted xs i j s.1 (omega arith) (omega arith)

get_elem?-some : (xs : List ℕ) (i : ℕ) → i < length xs → get_elem? xs i ≡ some (get_or xs i 0)
get_elem?-some [] i h = absurd (omega arith)
get_elem?-some (x ∷ xs) zero h = refl
get_elem?-some (x ∷ xs) (suc i) h = get_elem?-some xs i (omega arith)

-- Numbers above a bound weigh 1.
abbrev above : ℕ → ℕ → ℕ
above bound y = if ltb bound y then 1 else 0

above_none : (bound : ℕ) (xs : List ℕ) → total (above bound) xs ≡ 0 → All (λ y. y ≤ bound) xs
above_none bound [] e = tt
above_none bound (x ∷ xs) e = (ground arith, above_none bound xs (ground arith))

none_above : (bound : ℕ) (xs : List ℕ) → All (λ y. y ≤ bound) xs → total (above bound) xs ≡ 0
none_above bound [] h = refl
none_above bound (x ∷ xs) h = let rest = none_above bound xs h.1 in let first = h.0 in ground arith

-- The last of a sorted list bounds it.
last_bounds : (xs : List ℕ) → Sorted xs → All (λ y. y ≤ get_or xs (length xs - 1) 0) xs
last_bounds [] s = tt
last_bounds (x ∷ []) s = (omega arith, tt)
last_bounds (x ∷ y ∷ ys) s =
    let same : get_or (y ∷ ys) (length (y ∷ ys) - 1) 0
        ≡ get_or (x ∷ y ∷ ys) (length (x ∷ y ∷ ys) - 1) 0 =
      ap (λ i. get_or (x ∷ y ∷ ys) i 0) suc_inside in
    let tail = subst (λ bound. All (λ z. z ≤ bound) (y ∷ ys)) same (last_bounds (y ∷ ys) s.1) in
    (omega (arith, s.0.0, tail.0), tail)
  where
    suc_inside : suc (length (y ∷ ys) - 1) ≡ length (x ∷ y ∷ ys) - 1
    suc_inside = omega arith

All-map {ℓ} :
    {A : Type ℓ} (P : ℕ → Type 0) (f : A → ℕ) (xs : List A)
    → All P (map f xs)
    → All (λ x. P (f x)) xs
All-map P f [] h = tt
All-map P f (x ∷ xs) h = (h.0, All-map P f xs h.1)

length-map {ℓ} : {A : Type ℓ} (f : A → ℕ) (xs : List A) → length (map f xs) ≡ length xs
length-map f [] = refl
length-map f (x ∷ xs) = ap (λ k. suc k) (length-map f xs)

pct_inside :
    (scaled : ℕ → ℕ → ℕ) (ls : List ℕ) (p : ℕ)
    → 0 < length ls
    → scaled (length ls - 1) p ≤ length ls - 1
    → pct scaled ls p ≡ some (get_or ls (scaled (length ls - 1) p) 0)
unfolding pct
pct_inside scaled ls p some_left inside =
    let nonempty : (length ls == 0) ≡ false = ground arith in
    rw nonempty (get_elem?-some ls (scaled (length ls - 1) p) (omega arith))

module _ {ℓ} {Conn : Type ℓ} (sort : List ℕ → List ℕ) (scaled : ℕ → ℕ → ℕ)
    (exchange : Conn → Option ℕ) (total_time : ℕ) where
  -- The handler of /burst panics without connections. With a connection, for a sort that sorts and a
  -- product that grows with its factor and does not exceed the number: it answers with the number of
  -- connections; no latency is above `max`, and neither is `p99`; and `p50` is not above `p99`.
  pub burst_answers :
      (c : Conn) (cs : List Conn)
      → IsSort sort
      → IsScaling scaled
      → (burst sort scaled exchange total_time [] ≡ none)
        × ((a : Burst) × (burst sort scaled exchange total_time (c ∷ cs) ≡ some a)
            × (a.conns ≡ length (c ∷ cs))
            × (a.p50 ≤ a.p99)
            × (a.p99 ≤ a.max)
            × All (λ d. latency (exchange d) ≤ a.max) (c ∷ cs))
  unfolding burst pct
  burst_answers c cs sorts scales =
      let raw = map (λ d. latency (exchange d)) (c ∷ cs) in
      let ls = sort raw in
      let i50 = scaled (length ls - 1) 50 in
      let i99 = scaled (length ls - 1) 99 in
      let (grows, inside) = scales (length ls - 1) in
      let size : length ls ≡ length (c ∷ cs) = omega (
        arith,
        (sorts raw).0 (λ x. 1),
        total-one ls,
        total-one raw,
        length-map (λ d. latency (exchange d)) (c ∷ cs),
      ) in
      let nonempty : (length ls == 0) ≡ false = ground arith in
      let bounds = last_bounds ls (sorts raw).1 in
      let bound = get_or ls (length ls - 1) 0 in
      let at50 = pct_inside scaled ls 50 (omega arith) (omega arith) in
      let at99 = pct_inside scaled ls 99 (omega arith) (omega arith) in
      let at_max = get_elem?-some ls (length ls - 1) (omega arith) in
      (
        (let empty : length (sort []) ≡ 0 =
              omega (arith, (sorts []).0 (λ x. 1), total-one (sort [])) in
            rw empty refl),
        (
          record {
            conns = length (c ∷ cs);
            total_time = total_time;
            p50 = get_or ls i50 0;
            p99 = get_or ls i99 0;
            max = bound;
          },
          rw (at50, at99, nonempty, at_max) refl,
          refl,
          get_or-Sorted ls i50 i99 (sorts raw).1 grows (omega arith),
          get_or-Sorted ls i99 (length ls - 1) (sorts raw).1 inside (omega arith),
          All-map (λ y. y ≤ bound) (λ d. latency (exchange d)) (c ∷ cs)
              (above_none bound raw
                (sym ((sorts raw).0 (above bound)) ∙ none_above bound ls bounds)),
        ),
      )
