-- ===== src/Base/Totals.antt =====
-- Lists seen as bags: what any weighing of the items adds up to.
use performance_handbook.Base.{
  ℕ, ◌+◌, ◌≡◌, refl, List, [], ◌∷◌, ◌++◌, Option, none, some, arith, length, All,
}

abbrev pub total {ℓ} : {A : Type ℓ} → (A → ℕ) → List A → ℕ
total w [] = 0
total w (x ∷ xs) = w x + total w xs

-- The same items, each as often: no weighing tells the two lists apart.
abbrev pub SameItems {ℓ} : {A : Type ℓ} → List A → List A → Type ℓ
SameItems {A} xs ys = (w : A → ℕ) → total w xs ≡ total w ys

pub total-append {ℓ} :
    {A : Type ℓ} (w : A → ℕ) (xs ys : List A) → total w (xs ++ ys) ≡ total w xs + total w ys
total-append w [] ys = omega arith
total-append w (x ∷ xs) ys = omega (arith, total-append w xs ys)

-- One item is put in the place of another.
pub total-swap {ℓ} :
    {A : Type ℓ} (w : A → ℕ) (us vs : List A) (a b : A)
    → total w (us ++ b ∷ vs) + w a ≡ total w (us ++ a ∷ vs) + w b
total-swap w us vs a b = omega (arith, total-append w us (a ∷ vs), total-append w us (b ∷ vs))

pub total_same {ℓ} :
    {A : Type ℓ} (u w : A → ℕ) → ((x : A) → u x ≡ w x) → (xs : List A) → total u xs ≡ total w xs
total_same u w h [] = refl
total_same u w h (x ∷ xs) = omega (arith, h x, total_same u w h xs)

pub total-one {ℓ} : {A : Type ℓ} (xs : List A) → total (λ x. 1) xs ≡ length xs
total-one [] = omega arith
total-one (x ∷ xs) = omega (arith, total-one xs)

-- The results of a partial function, in order.
abbrev pub filter_map {ℓ κ} : {A : Type ℓ} {B : Type κ} → (A → Option B) → List A → List B
filter_map f [] = []
filter_map f (x ∷ xs) = elim (f x) [ none ↦ filter_map f xs | some y ↦ y ∷ filter_map f xs ]

-- The weight of an item's result.
abbrev pub weight_of {ℓ} : {B : Type ℓ} → (B → ℕ) → Option B → ℕ
weight_of w none = 0
weight_of w (some y) = w y

pub total-filter_map {ℓ κ} :
    {A : Type ℓ} {B : Type κ} (w : B → ℕ) (f : A → Option B) (xs : List A)
    → total w (filter_map f xs) ≡ total (λ x. weight_of w (f x)) xs
total-filter_map w f [] = omega arith
total-filter_map w f (x ∷ xs) = ground (arith, total-filter_map w f xs)

pub filter_map-append {ℓ κ} :
    {A : Type ℓ} {B : Type κ} (f : A → Option B) (xs ys : List A)
    → filter_map f (xs ++ ys) ≡ filter_map f xs ++ filter_map f ys
filter_map-append f [] ys = refl
filter_map-append f (x ∷ xs) ys = ground (arith, filter_map-append f xs ys)

pub length-filter_map {ℓ κ} :
    {A : Type ℓ} {B : Type κ} (f : A → Option B) (xs : List A)
    → All (λ x. (y : B) × (f x ≡ some y)) xs
    → length (filter_map f xs) ≡ length xs
length-filter_map f [] h = refl
length-filter_map f (x ∷ xs) h =
    let some_result = h.0.1 in ground (arith, length-filter_map f xs h.1)
