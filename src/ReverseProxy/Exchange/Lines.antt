-- ===== src/ReverseProxy/Exchange/Lines.antt =====
-- Prefixes of a line.
use performance_handbook.Base.{
  ℕ, ◌≡◌, ◌⊎◌, inl, inr, refl, sym, ◌∙◌, true, false, Bool-cases, [], ◌∷◌, ◌++◌, Option, none, some,
  Bytes, arith, ◌==◌,
}
use performance_handbook.ReverseProxy.Exchange.{newline, split_line}

-- A text with one newline, at its end
abbrev pub IsLine : Bytes → Type 0
IsLine r = split_line r ≡ some (r, [])

pub append-eq-nil : (xs ys : Bytes) → xs ++ ys ≡ [] → (xs ≡ []) × (ys ≡ [])
append-eq-nil [] ys e = (refl, e)
append-eq-nil (x ∷ xs) ys e = cc

split_line-here :
    (b : ℕ) (bs : Bytes) → (b == newline) ≡ true → split_line (b ∷ bs) ≡ some (b ∷ [], bs)
unfolding split_line
split_line-here b bs e = rw e refl

IsLine-tail : (b : ℕ) (bs : Bytes) → (b == newline) ≡ false → IsLine (b ∷ bs) → IsLine bs
unfolding split_line
IsLine-tail b bs e h = ground arith

behind_line :
    {b : ℕ} {xs ys : Bytes}
    → ◌≡◌ {A = Option (Bytes × Bytes)} (some (b ∷ [], xs)) (some (b ∷ ys, []))
    → xs ≡ []
behind_line e = cc

-- A prefix of a line has no newline, or is the line.
pub split_line-prefix :
    (p q : Bytes)
    → IsLine (p ++ q)
    → (split_line p ≡ none) ⊎ ((split_line p ≡ some (p, [])) × (q ≡ []))
unfolding split_line
split_line-prefix [] q h = inl refl
split_line-prefix (b ∷ p) q h = elim (Bool-cases (b == newline)) [
  | inl here ↦
      let whole : ◌≡◌ {A = Option (Bytes × Bytes)} (some (b ∷ [], p ++ q))
          (some (b ∷ (p ++ q), [])) =
        sym (split_line-here b (p ++ q) here) ∙ h in
      let (no_p, no_q) = append-eq-nil p q (behind_line whole) in
      inr (split_line-here b p here ∙ rw no_p refl, no_q)
  | inr further ↦ elim (split_line-prefix p q (IsLine-tail b (p ++ q) further h)) [
    | inl none_yet ↦ inl (rw (further, none_yet) refl)
    | inr (line, no_q) ↦ inr (rw (further, line) refl, no_q)
  ]
]
