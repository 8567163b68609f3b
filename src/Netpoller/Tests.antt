-- ===== src/Netpoller/Tests.antt =====
-- A sort and a product as a burst takes them.
use performance_handbook.Base.{
  ℕ, ◌≤◌, inl, inr, refl, ◌*◌, ◌/◌, Bool-cases, List, [], ◌∷◌, ltb, arith, if◌then◌else◌, All,
}
use performance_handbook.Base.Totals.{SameItems}
use performance_handbook.Netpoller.Percentiles.{Sorted, IsSort, IsScaling}

abbrev insert : ℕ → List ℕ → List ℕ
insert x [] = x ∷ []
insert x (y ∷ ys) = if ltb y x then y ∷ insert x ys else x ∷ y ∷ ys

abbrev insertion_sort : List ℕ → List ℕ
insertion_sort [] = []
insertion_sort (x ∷ xs) = insert x (insertion_sort xs)

insert-SameItems : (x : ℕ) (xs : List ℕ) → SameItems (insert x xs) (x ∷ xs)
insert-SameItems x [] w = refl
insert-SameItems x (y ∷ ys) w = ground (arith, insert-SameItems x ys w)

insert-All : (b x : ℕ) (xs : List ℕ) → b ≤ x → All (λ y. b ≤ y) xs → All (λ y. b ≤ y) (insert x xs)
insert-All b x [] h all = (h, tt)
insert-All b x (y ∷ ys) h all = let (first, rest) = all in ground (arith, insert-All b x ys h rest)

All-below : (x y : ℕ) (xs : List ℕ) → x ≤ y → All (λ z. y ≤ z) xs → All (λ z. x ≤ z) xs
All-below x y [] h all = tt
All-below x y (z ∷ zs) h all = (omega (arith, h, all.0), All-below x y zs h all.1)

insert-Sorted : (x : ℕ) (xs : List ℕ) → Sorted xs → Sorted (insert x xs)
insert-Sorted x [] s = (tt, tt)
insert-Sorted x (y ∷ ys) s = elim (Bool-cases (ltb y x)) [
  | inl below ↦ rw below (insert-All y x ys (ground arith) s.0, insert-Sorted x ys s.1)
  | inr above ↦ let h : x ≤ y = ground arith in rw above ((h, All-below x y ys h s.0), s)
]

insertion_sort-IsSort : IsSort insertion_sort
insertion_sort-IsSort [] = (λ w. refl, tt)
insertion_sort-IsSort (x ∷ xs) =
    let (same, sorted) = insertion_sort-IsSort xs in
    (
      λ w. omega (arith, insert-SameItems x (insertion_sort xs) w, same w),
      insert-Sorted x (insertion_sort xs) sorted,
    )

percent : ℕ → ℕ → ℕ
percent k p = k * p / 100

percent-IsScaling : IsScaling percent
unfolding percent
percent-IsScaling k = (omega arith, omega arith)
